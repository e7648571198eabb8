-- ===== src/Prelude/Members.antt =====
-- Membership of texts in lists, as the tests compute it.
use Prim.Native.String.{String}
use mathlib.Core.Path.{◌≡◌, refl}
use mathlib.Core.Logic.{inl, inr}
use mathlib.Core.Bool.{Bool, false, ◌&&◌, ◌||◌}
use mathlib.Core.List.{List, [], ◌∷◌, ◌++◌}
use native.Mathlib.Omega.{arith}
use text.Mathlib.Text.{◌==◌}
use text.Mathlib.TextEquality.{eq_iff}
use funduq_server.Prelude.Tests.{Bool-cases}
use funduq_server.Prelude.Lists.{keep, member}

pub member-append :
    (x : String) (xs ys : List String) → member x (xs ++ ys) ≡ (member x xs || member x ys)
member-append x [] ys = refl
member-append x (y ∷ xs) ys = ground (arith, member-append x xs ys)

-- No text twice.
abbrev pub Distinct : List String → Type 0
Distinct [] = Unit
Distinct (k ∷ rest) = (member k rest ≡ false) × Distinct rest

pub member-keep :
    (p : String → Bool) (k : String) (keys : List String)
    → member k (keep p keys) ≡ (member k keys && p k)
member-keep p k [] = refl
member-keep p k (j ∷ rest) = elim (Bool-cases (j == k)) [
  | inl same ↦
      let e : j ≡ k = (eq_iff j k).0 same in
      let pe : p j ≡ p k = λ i. p (e i) in ground (arith, member-keep p k rest)
  | inr other ↦ ground (arith, member-keep p k rest)
]

pub Distinct-keep :
    (p : String → Bool) (keys : List String) → Distinct keys → Distinct (keep p keys)
Distinct-keep p [] h = tt
Distinct-keep p (k ∷ rest) h = elim (Bool-cases (p k)) [
  | inl good ↦ rw good (ground (arith, member-keep p k rest), Distinct-keep p rest h.1)
  | inr bad ↦ rw bad (Distinct-keep p rest h.1)
]
