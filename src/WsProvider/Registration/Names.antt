-- ===== src/WsProvider/Registration/Names.antt =====
-- The names that `_AGENT_NAME` lets through, and the rosters that `_parse_registration` does.
use mathlib.Core.List.{append-nil}
use mathlib.Core.Path.{subst}
use native.Mathlib.Nat.{zero-add}
use funduq_server.Prelude.{
  ℕ, zero, suc, ◌+◌, ◌≤◌, Bool, true, false, ◌&&◌, leb, ◌≡◌, refl, ap, ◌↔◌, ◌⊎◌, inl, inr, Option,
  none, some, List, [], ◌∷◌, ◌++◌, All, length, arith, Bool-cases, ok, ◌>>=◌, >>=-eq-ok,
  ok-injective, ◌∙◌,
}
use funduq_server.Text.{codes}
use funduq_server.Json.{Json, null, Dict, obj, get, as_list}
use funduq_server.Funduq.{Contract, Registration, Validation, valid, invalid}
use funduq_server.WsProvider.Registration.{
  is_name_char, newline, take_name, at_end, match_name, check_entry, parse_entry, parse_entries,
  parse_agents, parse_registration,
}

-- A character of `[A-Za-z0-9_-]`.
abbrev pub IsNameChar : ℕ → Type 0
IsNameChar c = is_name_char c ≡ true

-- A word of 1 to 128 such characters, with or without one newline behind it.
pub record IsAgentName (name : List ℕ) : Type 0 where
  pub word : List ℕ
  pub ending : (name ≡ word) ⊎ (name ≡ word ++ newline ∷ [])
  pub chars : All IsNameChar word
  pub lower : 1 ≤ length word
  pub upper : length word ≤ 128

record Taken (room n : ℕ) (cs : List ℕ) (m : ℕ) (rest : List ℕ) : Type 0 where
  word : List ℕ
  split : cs ≡ word ++ rest
  chars : All IsNameChar word
  count : length word + n ≡ m
  fits : length word ≤ room

take_name-Taken :
    (room n : ℕ) (cs : List ℕ) → Taken room n cs (take_name room n cs).0 (take_name room n cs).1
unfolding take_name
take_name-Taken zero n cs = record {
  word = [];
  split = refl;
  chars = tt;
  count = omega arith;
  fits = omega arith;
}
take_name-Taken (suc room) n [] = record {
  word = [];
  split = refl;
  chars = tt;
  count = omega arith;
  fits = omega arith;
}
take_name-Taken (suc room) n (c ∷ cs) = elim (Bool-cases (is_name_char c)) [
  | inr other ↦
      rw other
        (record { word = []; split = refl; chars = tt; count = omega arith; fits = omega arith })
  | inl good ↦
      let ih = take_name-Taken room (suc n) cs in
      rw good (record {
        word = c ∷ ih.word;
        split = ap (λ (l : List ℕ). c ∷ l) ih.split;
        chars = (good, ih.chars);
        count = omega (arith, ih.count);
        fits = omega (arith, ih.fits);
      })
]

-- No character of the class comes next.
abbrev Stops : List ℕ → Type 0
Stops [] = Unit
Stops (c ∷ cs) = is_name_char c ≡ false

take_name-nil : (room n : ℕ) (rest : List ℕ) → Stops rest → take_name room n rest ≡ (n, rest)
unfolding take_name
take_name-nil zero n rest h = refl
take_name-nil (suc room) n [] h = refl
take_name-nil (suc room) n (c ∷ rest) h = rw h

take_name-append :
    (room n : ℕ) (word rest : List ℕ)
    → All IsNameChar word
    → Stops rest
    → length word ≤ room
    → take_name room n (word ++ rest) ≡ (length word + n, rest)
unfolding take_name
take_name-append room n [] rest h stop fits = rw zero-add (take_name-nil room n rest stop)
take_name-append zero n (c ∷ word) rest h stop fits = absurd (omega arith)
take_name-append (suc room) n (c ∷ word) rest h stop fits = rw h.0 (
    take_name-append room (suc n) word rest h.1 stop (omega arith)
    ∙ ap (λ (m : ℕ). (m, rest)) (omega arith))

at_end-cases : (rest : List ℕ) → at_end rest ≡ true → (rest ≡ []) ⊎ (rest ≡ newline ∷ [])
unfolding at_end
at_end-cases [] h = inl refl
at_end-cases (c ∷ []) h = inr (ground arith)
at_end-cases (c ∷ d ∷ rest) h = cc

both : (n : ℕ) (b : Bool) → (leb 1 n && b) ≡ true → (1 ≤ n) × (b ≡ true)
both n b h = ground arith

match_name_sound : (name : List ℕ) → match_name name ≡ true → IsAgentName name
unfolding match_name
match_name_sound name h =
    let t = take_name-Taken 128 0 name in
    let m = both (take_name 128 0 name).0 (at_end (take_name 128 0 name).1) h in
    record {
      word = t.word;
      ending = elim (at_end-cases (take_name 128 0 name).1 m.1) [
        | inl e ↦ inl (t.split ∙ ap (λ (r : List ℕ). t.word ++ r) e ∙ append-nil t.word)
        | inr e ↦ inr (t.split ∙ ap (λ (r : List ℕ). t.word ++ r) e)
      ];
      chars = t.chars;
      lower = omega (arith, t.count, m.0);
      upper = t.fits;
    }

match_name_complete : (name : List ℕ) → IsAgentName name → match_name name ≡ true
unfolding match_name
match_name_complete name a = elim a.ending [
  | inl e ↦
      rw (e, ← append-nil a.word)
        (rw (take_name-append 128 0 a.word [] a.chars tt a.upper) (ground (arith, a.lower)))
  | inr e ↦ rw e (
      rw (take_name-append 128 0 a.word (newline ∷ []) a.chars refl a.upper)
        (ground (arith, a.lower)))
]

-- The gateway's pattern for agent names matches exactly the words of 1 to 128 characters of
-- `[A-Za-z0-9_-]`, and also such a word with one newline behind it.
pub match_name_iff : (name : List ℕ) → (match_name name ≡ true) ↔ IsAgentName name
match_name_iff name = (match_name_sound name, match_name_complete name)

-- How an entry of the roster stands to the registration it becomes.
pub record Accepted (contract : Contract) (entry : Json) (registration : Registration)
    : Type 0 where
  pub agent : Dict
  pub object : entry ≡ obj agent
  pub validated : contract.validate_registration agent ≡ valid registration
  pub named : IsAgentName (codes registration.name)

-- Entry by entry, in order.
abbrev pub AcceptedAll : Contract → List Json → List Registration → Type 0
AcceptedAll contract [] [] = Unit
AcceptedAll contract (j ∷ js) (r ∷ rs) = Accepted contract j r × AcceptedAll contract js rs
AcceptedAll contract _ _ = ⊥

module _ (contract : Contract) where
  check_entry-eq :
      (v : Validation Registration) (r : Registration)
      → check_entry contract v ≡ ok r
      → (v ≡ valid r) × (match_name (codes r.name) ≡ true)
  unfolding check_entry
  check_entry-eq (valid q) r h = ground arith
  check_entry-eq (invalid e) r h = ground arith

  parse_entry-Accepted :
      (j : Json) (r : Registration) → parse_entry contract j ≡ ok r → Accepted contract j r
  unfolding parse_entry
  parse_entry-Accepted (obj agent) r h =
      let e = check_entry-eq (contract.validate_registration agent) r h in
      record {
        agent = agent;
        object = refl;
        validated = e.0;
        named = match_name_sound (codes r.name) e.1;
      }
  parse_entry-Accepted null r h = cc
  parse_entry-Accepted _ r h = cc

  parse_entries-Accepted :
      (js : List Json) (rs : List Registration)
      → parse_entries contract js ≡ ok rs
      → AcceptedAll contract js rs
  unfolding parse_entries
  parse_entries-Accepted [] rs h = subst (AcceptedAll contract []) (ok-injective h) tt
  parse_entries-Accepted (j ∷ js) rs h =
      let (r, first, then_rest) =
        >>=-eq-ok (λ r. parse_entries contract js >>= λ q. ok (r ∷ q)) (parse_entry contract j) h in
      let (rest, later, whole) =
        >>=-eq-ok (λ q. ok (r ∷ q)) (parse_entries contract js) then_rest in
      subst (AcceptedAll contract (j ∷ js)) (ok-injective whole)
        (parse_entry-Accepted j r first, parse_entries-Accepted js rest later)

  agents-Accepted :
      (o : Option (List Json)) (rs : List Registration)
      → parse_agents contract o ≡ ok rs
      → (j : Json) × (js : List Json) × (o ≡ some (j ∷ js)) × AcceptedAll contract (j ∷ js) rs
  unfolding parse_agents
  agents-Accepted none rs h = cc
  agents-Accepted (some []) rs h = cc
  agents-Accepted (some (j ∷ js)) rs h = (j, js, refl, parse_entries-Accepted (j ∷ js) rs h)

  -- A register frame that is accepted carries a list of at least one agent, and its registrations
  -- are, entry by entry and in order, what the contract's model makes of each, which is an object
  -- whose name the pattern lets through.
  pub parse_registration-Accepted :
      (frame : Dict) (rs : List Registration)
      → parse_registration contract frame ≡ ok rs
      → (j : Json) × (js : List Json) × (as_list (get "agents" frame) ≡ some (j ∷ js))
        × AcceptedAll contract (j ∷ js) rs
  unfolding parse_registration
  parse_registration-Accepted frame rs h = agents-Accepted (as_list (get "agents" frame)) rs h
