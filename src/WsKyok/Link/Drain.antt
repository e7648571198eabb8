-- ===== src/WsKyok/Link/Drain.antt =====
-- What the reader of an answer stream gets.
use funduq_server.Prelude.{
  ℕ, zero, suc, String, true, false, ◌≡◌, refl, none, some, List, [], ◌∷◌, ◌++◌, map, length,
  eq_refl, arith, ap, ◌∙◌, ◌<◌,
}
use funduq_server.Json.{Json, Dict, str}
use funduq_server.Funduq.{Contract, valid}
use funduq_server.WsKyok.Link.{
  Link, Item, chunk, done, refused, broken, Pulled, yields, returns, raises, pull, update, pop,
  fail_pending,
}

-- What the reader gets, up to `n` items, until it has to wait or the stream is over.
unfoldable pub drain : Contract → String → ℕ → Link → List Pulled
drain contract request_id zero link = []
drain contract request_id (suc n) link = elim (pull contract request_id link) [
  | none ↦ []
  | some (link', p) ↦ p ∷ drain contract request_id n link'
]

-- Each chunk is what the model accepts, as this value.
abbrev pub AllValid : Contract → List Dict → List Json → Type 0
AllValid contract [] [] = Unit
AllValid contract (c ∷ cs) (v ∷ vs) =
    (contract.validate_chunk c ≡ valid v) × AllValid contract cs vs
AllValid contract _ _ = ⊥

-- How the reader sees an item that ends a stream.
abbrev pub end_of : Item → Pulled
end_of done = returns
end_of item = raises item

abbrev pub IsEnd : Item → Type 0
IsEnd (chunk d) = ⊥
IsEnd item = Unit

module _ (contract : Contract) (id : String) where
  pull-chunk :
      (link : Link) (c : Dict) (v : Json) (rest : List Item)
      → link.is_over id ≡ false
      → link.queues id ≡ chunk c ∷ rest
      → contract.validate_chunk c ≡ valid v
      → pull contract id link ≡ some (record link { queues = update id rest link.queues }, yields v)
  unfolding pull
  pull-chunk link c v rest over q ok_chunk = rw (over, q, ok_chunk)

  pull-end :
      (link : Link) (item : Item) (rest : List Item)
      → link.is_over id ≡ false
      → link.queues id ≡ item ∷ rest
      → IsEnd item
      → pull contract id link
        ≡ some (pop id (record link { queues = update id rest link.queues }), end_of item)
  unfolding pull
  pull-end link (chunk d) rest over q e = elim e [ ]
  pull-end link done rest over q e = rw (over, q)
  pull-end link (refused r) rest over q e = rw (over, q)
  pull-end link (broken j) rest over q e = rw (over, q)

  pull-over : (link : Link) → link.is_over id ≡ true → pull contract id link ≡ none
  unfolding pull
  pull-over link over = rw over

  drain_step :
      (n : ℕ) (link link' : Link) (p : Pulled)
      → pull contract id link ≡ some (link', p)
      → drain contract id (suc n) link ≡ p ∷ drain contract id n link'
  unfolding drain
  drain_step n link link' p e = rw (e, drain)

  drain_wait : (n : ℕ) (link : Link) → pull contract id link ≡ none → drain contract id n link ≡ []
  unfolding drain
  drain_wait zero link e = refl
  drain_wait (suc n) link e = rw (e, drain)

  -- Nothing is read after the end.
  drain-pop : (n : ℕ) (link : Link) → drain contract id n (pop id link) ≡ []
  drain-pop n link = drain_wait n (pop id link) (pull-over (pop id link) (unfold pop in rw eq_refl))

  -- A stream whose queue holds valid chunks and then an end gives the chunks in order, then the
  -- end, then nothing, however often it is asked.
  pub drain-stream :
      (n : ℕ) (link : Link) (cs : List Dict) (vs : List Json) (end : Item) (rest : List Item)
      → length cs < n
      → link.is_over id ≡ false
      → link.queues id ≡ map chunk cs ++ (end ∷ rest)
      → AllValid contract cs vs
      → IsEnd end
      → drain contract id n link ≡ map yields vs ++ end_of end ∷ []
  drain-stream zero link cs vs end rest h over q ok_all e = absurd (omega arith)
  drain-stream (suc n) link [] [] end rest h over q ok_all e =
      let next = record link { queues = update id rest link.queues } in
      drain_step n link (pop id next) (end_of end) (pull-end link end rest over q e)
      ∙ ap (λ (l : List Pulled). end_of end ∷ l) (drain-pop n next)
  drain-stream (suc n) link (c ∷ cs) (v ∷ vs) end rest h over q ok_all e =
      let left = map chunk cs ++ (end ∷ rest) in
      let next = record link { queues = update id left link.queues } in
      drain_step n link next (yields v) (pull-chunk link c v left over q ok_all.0)
      ∙ ap (λ (l : List Pulled). yields v ∷ l)
          (drain-stream n next cs vs end rest (omega arith) over (rw eq_refl) ok_all.1 e)
  drain-stream (suc n) link [] (v ∷ vs) end rest h over q ok_all e = elim ok_all [ ]
  drain-stream (suc n) link (c ∷ cs) [] end rest h over q ok_all e = elim ok_all [ ]

  -- When the socket goes down with a completion in flight whose queue holds valid chunks only, its
  -- reader still gets them, and then a failure: never an answer that looks complete.
  pub fail_pending-drain :
      (n : ℕ) (link : Link) (cs : List Dict) (vs : List Json)
      → length cs < n
      → link.is_open id ≡ true
      → link.is_over id ≡ false
      → link.queues id ≡ map chunk cs
      → AllValid contract cs vs
      → drain contract id n (fail_pending link)
        ≡ map yields vs ++ raises (broken (str "LLM provider disconnected mid-response")) ∷ []
  fail_pending-drain n link cs vs h in_flight over q ok_all =
      drain-stream n (fail_pending link) cs vs
        (broken (str "LLM provider disconnected mid-response")) [] h (unfold fail_pending in over)
        (unfold fail_pending in rw (in_flight, q)) ok_all tt
