-- ===== src/SampleAgent/Resolve/Pair.antt =====
-- The pair that stands in an endpoint's URL.
use Prim.Native.Char.{Char}
use Prim.Native.String as S
use Prim.Native.String.{◌++◌}
use mathlib.Core.List.{reverse, reverse-append}
use mathlib.Core.List as L
use text.Mathlib.TextLemmas.{nil-append, cons-append, append_assoc, append-eq-nil_iff}
use funduq_server.Prelude.{
  String, Bool, true, false, not, ◌&&◌, ◌≡◌, refl, sym, ap, ◌∙◌, none, some, List, [], ◌∷◌, ◌==◌,
  Bool-cases, inl, inr, arith, eq_iff,
}
use funduq_server.Text.{rstrip_slash}
use funduq_server.SampleAgent.Resolve.{
  split_slash, cons_first, of_parts, address_from_url, pair_url,
}

-- A text without a slash.
abbrev pub is_plain : String → Bool
is_plain S.[] = true
is_plain (S.◌∷◌ c s) = not (S.◌∷◌ c "" == "/") && is_plain s

-- There is always a first part.
split_slash-cons :
    (s : String) → (part : String) × (parts : List String) × (split_slash s ≡ part ∷ parts)
unfolding split_slash cons_first
split_slash-cons S.[] = ("", [], refl)
split_slash-cons (S.◌∷◌ c s) =
    let (part, parts, e) = split_slash-cons s in
    elim (Bool-cases (S.◌∷◌ c "" == "/")) [
      | inl slash ↦ ("", split_slash s, rw slash refl)
      | inr other ↦ (S.◌∷◌ c part, parts, rw (other, e) refl)
    ]

cons_first-append :
    (c : Char) (part : String) (parts split later : List String)
    → split ≡ part ∷ parts
    → cons_first c (L.◌++◌ split later) ≡ L.◌++◌ (cons_first c split) later
unfolding cons_first
cons_first-append c part parts split later e = rw e refl

slash-append : (t : String) → ("/" ++ t) ≡ S.◌∷◌ "/" t
slash-append t = cons-append "/" "" t ∙ ap (λ (x : String). S.◌∷◌ "/" x) (nil-append t)

split_slash-append :
    (s t : String) → split_slash (s ++ ("/" ++ t)) ≡ L.◌++◌ (split_slash s) (split_slash t)
unfolding split_slash
split_slash-append S.[] t = ap split_slash (nil-append ("/" ++ t) ∙ slash-append t)
split_slash-append (S.◌∷◌ c s) t =
    let (part, parts, e) = split_slash-cons s in
    rw (cons-append c s ("/" ++ t)) (elim (Bool-cases (S.◌∷◌ c "" == "/")) [
      | inl slash ↦ rw slash (ap (λ (l : List String). "" ∷ l) (split_slash-append s t))
      | inr other ↦
          rw (other, split_slash-append s t)
            (cons_first-append c part parts (split_slash s) (split_slash t) e)
    ])

split_slash-is_plain : (s : String) → is_plain s ≡ true → split_slash s ≡ s ∷ []
unfolding split_slash cons_first
split_slash-is_plain S.[] h = refl
split_slash-is_plain (S.◌∷◌ c s) h = elim (Bool-cases (S.◌∷◌ c "" == "/")) [
  | inl slash ↦ absurd (ground arith)
  | inr other ↦ rw (other, split_slash-is_plain s (ground arith)) refl
]

append-is_not_empty : (s t : String) → (t == "") ≡ false → ((s ++ t) == "") ≡ false
append-is_not_empty s t k = elim (Bool-cases ((s ++ t) == "")) [
  | inl empty ↦
      let e : t ≡ "" = (append-eq-nil_iff.0 ((eq_iff (s ++ t) "").0 empty)).1 in
      let bad : (t == "") ≡ true = (eq_iff t "").1 e in absurd (cc)
  | inr other ↦ other
]

rstrip_slash-append :
    (s t : String) → rstrip_slash t ≡ t → (t == "") ≡ false → rstrip_slash (s ++ t) ≡ s ++ t
unfolding rstrip_slash
rstrip_slash-append S.[] t h k = rw (nil-append t) h
rstrip_slash-append (S.◌∷◌ c s) t h k =
    rw (cons-append c s t, rstrip_slash-append s t h k, append-is_not_empty s t k) refl

module _ (base fingerprint name : String) where
  -- The URL, its slashes apart.
  spread :
      pair_url base fingerprint name
      ≡ base ++ ("/" ++ ("a2a" ++ ("/" ++ (fingerprint ++ ("/" ++ (name ++ ("/" ++ "rpc")))))))
  spread = ap (λ (x : String). base ++ x) (parts (fingerprint ++ ("/" ++ (name ++ "/rpc"))))
    where
      parts : (x : String) → ("/a2a/" ++ x) ≡ "/" ++ ("a2a" ++ ("/" ++ x))
      parts x = append_assoc "/a2a" "/" x ∙ append_assoc "/" "a2a" ("/" ++ x)

  keeps : rstrip_slash (pair_url base fingerprint name) ≡ pair_url base fingerprint name
  unfolding rstrip_slash
  keeps =
      rw (sym joined)
        (rstrip_slash-append (base ++ ("/a2a/" ++ (fingerprint ++ ("/" ++ name)))) "/rpc" refl refl)
    where
      joined :
          ((base ++ ("/a2a/" ++ (fingerprint ++ ("/" ++ name)))) ++ "/rpc")
          ≡ pair_url base fingerprint name
      joined = simp (append_assoc)

  split_slash-pair_url :
      is_plain fingerprint ≡ true
      → is_plain name ≡ true
      → split_slash (pair_url base fingerprint name)
        ≡ L.◌++◌ (split_slash base) ("a2a" ∷ fingerprint ∷ name ∷ "rpc" ∷ [])
  split_slash-pair_url plain plain' =
      ap split_slash spread
      ∙ rw
          (
            split_slash-append base
                ("a2a" ++ ("/" ++ (fingerprint ++ ("/" ++ (name ++ ("/" ++ "rpc")))))),
            split_slash-append "a2a" (fingerprint ++ ("/" ++ (name ++ ("/" ++ "rpc")))),
            split_slash-append fingerprint (name ++ ("/" ++ "rpc")),
            split_slash-append name "rpc",
            split_slash-is_plain fingerprint plain,
            split_slash-is_plain name plain',
            split_slash-is_plain "rpc" refl,
            split_slash-is_plain "a2a" refl,
          )
          refl

  -- The pair is read back from its URL.
  pub address_from_url-pair_url :
      is_plain fingerprint ≡ true
      → is_plain name ≡ true
      → address_from_url (pair_url base fingerprint name) ≡ record {
        url = pair_url base fingerprint name;
        provider = some fingerprint;
        provider_key = none;
        agent_name = some name;
      }
  unfolding address_from_url of_parts
  address_from_url-pair_url plain plain' =
      rw
        (
          keeps,
          split_slash-pair_url plain plain',
          reverse-append (split_slash base) ("a2a" ∷ fingerprint ∷ name ∷ "rpc" ∷ []),
        )
        refl
