-- ===== src/SoukClient/Lookup.antt =====
-- Which agent a name stands for.
use funduq_server.Prelude.{
  String, true, false, ◌≡◌, refl, ap, ◌∙◌, ◌↔◌, ◌⊎◌, inl, inr, Option, none, some, List, [], ◌∷◌,
  ◌++◌, keep, All, ◌==◌, eq_iff, Bool-cases, arith,
}
use mathlib.Core.Option.{some-injective}
use funduq_server.Prelude.Alone.{keep-Alone, keep-split}
use funduq_server.SoukClient.{Agent, found, matches, named_by, of_candidates, resolve}

found-candidates :
    (xs : List Agent) (agent : Agent) → of_candidates xs ≡ found agent → xs ≡ agent ∷ []
unfolding of_candidates
found-candidates [] agent h = absurd (cc)
found-candidates (x ∷ []) agent h = let same : x ≡ agent = cc in ap (λ (a : Agent). a ∷ []) same
found-candidates (x ∷ y ∷ rest) agent h = absurd (cc)

-- An agent of this name and, where a provider is given, of a provider with this fingerprint or this
-- key.
pub record IsWanted (name : String) (provider : Option String) (agent : Agent) : Type 0 where
  pub named : agent.name ≡ name
  pub offered : (p : String) → provider ≡ some p → (agent.provider ≡ p) ⊎ (agent.provider_key ≡ p)

-- The agent stands in the roster, is wanted, and no other row of it is.
pub record OnlyOne (name : String) (provider : Option String) (roster : List Agent) (agent : Agent)
    : Type 0 where
  pub before : List Agent
  pub after : List Agent
  pub split : roster ≡ before ++ agent ∷ after
  pub wanted : IsWanted name provider agent
  pub none_before : All (λ a. ¬ IsWanted name provider a) before
  pub none_after : All (λ a. ¬ IsWanted name provider a) after

module _ (name : String) where
  matches-IsWanted :
      (provider : Option String) (a : Agent)
      → matches name provider a ≡ true
      → IsWanted name provider a
  unfolding matches named_by
  matches-IsWanted none a h = record {
    named = (eq_iff a.name name).0 (ground arith);
    offered = λ p e. absurd (cc);
  }
  matches-IsWanted (some q) a h = record {
    named = (eq_iff a.name name).0 (ground arith);
    offered = λ p e.
        let same : q ≡ p = some-injective q p e in
        elim (Bool-cases (a.provider == q)) [
          | inl one ↦ inl ((eq_iff a.provider q).0 one ∙ same)
          | inr other ↦ inr ((eq_iff a.provider_key q).0 (ground arith) ∙ same)
        ];
  }

  IsWanted-matches :
      (provider : Option String) (a : Agent)
      → IsWanted name provider a
      → matches name provider a ≡ true
  unfolding matches named_by
  IsWanted-matches none a w = let n = (eq_iff a.name name).1 w.named in ground arith
  IsWanted-matches (some q) a w =
      let n = (eq_iff a.name name).1 w.named in
      elim (w.offered q refl) [
        | inl one ↦ let e = (eq_iff a.provider q).1 one in ground arith
        | inr key ↦ let e = (eq_iff a.provider_key q).1 key in ground arith
      ]

  module _ (provider : Option String) where
    none_match :
        (xs : List Agent)
        → All (λ a. matches name provider a ≡ false) xs
        → All (λ a. ¬ IsWanted name provider a) xs
    none_match [] h = tt
    none_match (x ∷ xs) h = (
      λ w. let bad = IsWanted-matches provider x w in let good = h.0 in absurd (cc),
      none_match xs h.1,
    )

    none_wanted :
        (xs : List Agent)
        → All (λ a. ¬ IsWanted name provider a) xs
        → All (λ a. matches name provider a ≡ false) xs
    none_wanted [] h = tt
    none_wanted (x ∷ xs) h = (
      elim (Bool-cases (matches name provider x)) [
        | inl good ↦ absurd (h.0 (matches-IsWanted provider x good))
        | inr other ↦ other
      ],
      none_wanted xs h.1,
    )

-- A name is resolved to an agent exactly if that agent is listed and is the only listed one with
-- this name and, where a provider is given, with this fingerprint or this key: an agent listed
-- twice, or two agents that pass, are never picked from.
pub resolve_iff :
    (roster : List Agent) (name : String) (provider : Option String) (agent : Agent)
    → (resolve roster name provider ≡ found agent) ↔ OnlyOne name provider roster agent
unfolding resolve of_candidates
resolve_iff roster name provider agent = (
  λ h.
      let a =
        keep-Alone (matches name provider) roster agent
          (found-candidates (keep (matches name provider) roster) agent h) in
      record {
        before = a.before;
        after = a.after;
        split = a.split;
        wanted = matches-IsWanted name provider agent a.passes;
        none_before = none_match name provider a.before a.none_before;
        none_after = none_match name provider a.after a.none_after;
      },
  λ a. rw (
    a.split,
    keep-split (matches name provider) a.before a.after agent
        (IsWanted-matches name provider agent a.wanted)
        (none_wanted name provider a.before a.none_before)
        (none_wanted name provider a.after a.none_after),
  ),
)
