-- ===== src/Prelude/Alone.antt =====
-- The one element of a list that passes a test.
use mathlib.Core.Path.{◌≡◌, refl, ap}
use mathlib.Core.Logic.{inl, inr}
use mathlib.Core.Bool.{Bool, true, false}
use mathlib.Core.List.{List, [], ◌∷◌, ◌++◌}
use funduq_server.Prelude.Tests.{Bool-cases}
use funduq_server.Prelude.Lists.{All, keep}

-- The element stands in the list, and of all that stand there it alone passes the test.
pub record Alone {A : Type 0} (p : A → Bool) (roster : List A) (agent : A) : Type 0 where
  pub before : List A
  pub after : List A
  pub split : roster ≡ before ++ agent ∷ after
  pub passes : p agent ≡ true
  pub none_before : All (λ a. p a ≡ false) before
  pub none_after : All (λ a. p a ≡ false) after

module _ {A : Type 0} (p : A → Bool) where
  keep-nil : (xs : List A) → keep p xs ≡ [] → All (λ a. p a ≡ false) xs
  keep-nil [] h = tt
  keep-nil (x ∷ xs) h = elim (Bool-cases (p x)) [
    | inl good ↦ let bad = rw (keep, good) at h in absurd (cc)
    | inr bad_one ↦ (bad_one, keep-nil xs (rw (keep, bad_one) at h))
  ]

  nil-keep : (xs : List A) → All (λ a. p a ≡ false) xs → keep p xs ≡ []
  nil-keep [] h = refl
  nil-keep (x ∷ xs) h = rw (h.0) (nil-keep xs h.1)

  pub keep-Alone : (xs : List A) (agent : A) → keep p xs ≡ agent ∷ [] → Alone p xs agent
  keep-Alone [] agent h = absurd (cc)
  keep-Alone (x ∷ xs) agent h = elim (Bool-cases (p x)) [
    | inl good ↦
        let kept : x ∷ keep p xs ≡ agent ∷ [] = rw (keep, good) at h in
        let same : x ≡ agent = cc in
        let rest : keep p xs ≡ [] = cc in
        record {
          before = [];
          after = xs;
          split = ap (λ a. a ∷ xs) same;
          passes = rw (same) at good;
          none_before = tt;
          none_after = keep-nil xs rest;
        }
    | inr bad_one ↦
        let ih = keep-Alone xs agent (rw (keep, bad_one) at h) in
        record {
          before = x ∷ ih.before;
          after = ih.after;
          split = ap (λ (l : List A). x ∷ l) ih.split;
          passes = ih.passes;
          none_before = (bad_one, ih.none_before);
          none_after = ih.none_after;
        }
  ]

  pub keep-split :
      (before after : List A) (agent : A)
      → p agent ≡ true
      → All (λ a. p a ≡ false) before
      → All (λ a. p a ≡ false) after
      → keep p (before ++ agent ∷ after) ≡ agent ∷ []
  keep-split [] after agent good b a = rw good (ap (λ (l : List A). agent ∷ l) (nil-keep after a))
  keep-split (x ∷ before) after agent good b a = rw (b.0) (keep-split before after agent good b.1 a)
