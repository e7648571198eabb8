-- ===== src/ApiLlmBridge/Sse.antt =====
-- How a streamed answer ends.
use funduq_server.Prelude.{
  ◌≡◌, refl, ap, ◌↔◌, inl, inr, Option, none, some, List, [], ◌∷◌, ◌++◌, map, All, Any, Error,
}
use funduq_server.Json.{Json}
use funduq_server.ApiLlmBridge.{Item, chunk, failure, Line, error_line, chunk_line, done_line, sse}

abbrev pub IsChunk : Item → Type 0
IsChunk (chunk c) = Unit
IsChunk (failure payload) = ⊥

abbrev pub IsDone : Line → Type 0
IsDone done_line = Unit
IsDone _ = ⊥

sse-IsDone :
    (items : List Item) (ending : Option Error)
    → Any IsDone (sse items ending)
    → All IsChunk items × (ending ≡ none)
unfolding sse
sse-IsDone [] none h = (tt, refl)
sse-IsDone [] (some e) h = elim h [ ]
sse-IsDone (failure payload ∷ rest) ending (inl h) = elim h [ ]
sse-IsDone (failure payload ∷ rest) ending (inr h) = elim h [ ]
sse-IsDone (chunk c ∷ rest) ending (inl h) = elim h [ ]
sse-IsDone (chunk c ∷ rest) ending (inr h) =
    let (chunks, over) = sse-IsDone rest ending h in ((tt, chunks), over)

IsDone-sse : (items : List Item) → All IsChunk items → Any IsDone (sse items none)
unfolding sse
IsDone-sse [] h = inl tt
IsDone-sse (failure payload ∷ rest) h = elim (h.0) [ ]
IsDone-sse (chunk c ∷ rest) h = inr (IsDone-sse rest h.1)

-- The closing sentinel is sent exactly if the stream gave chunks only and came to its end: never when the
-- completion failed, and never when the relay raised.
pub sse-IsDone_iff :
    (items : List Item) (ending : Option Error)
    → Any IsDone (sse items ending) ↔ (All IsChunk items × (ending ≡ none))
unfolding sse
sse-IsDone_iff items ending = (sse-IsDone items ending, λ p. rw (p.1) (IsDone-sse items p.0))

-- A failure after some chunks is the last line of the answer, behind those chunks in order,
-- whatever the relay gives after it.
sse-failure :
    (cs : List Json) (payload : Json) (rest : List Item) (ending : Option Error)
    → sse (map chunk cs ++ (failure payload ∷ rest)) ending
      ≡ map chunk_line cs ++ error_line payload ∷ []
unfolding sse
sse-failure [] payload rest ending = refl
sse-failure (c ∷ cs) payload rest ending =
    ap (λ (l : List Line). chunk_line c ∷ l) (sse-failure cs payload rest ending)
