-- ===== src/Docent/Tools/Grouping.antt =====
-- The stalls of the market, told apart from the tool that describes a single one.
use funduq_server.Prelude.{
  String, Bool, true, false, not, ◌&&◌, ◌≡◌, refl, sym, ap, ◌∙◌, ◌↔◌, inl, inr, List, [], ◌∷◌, ◌++◌,
  map, length, keep, All, any, member, Bool-cases, ◌==◌, eq_iff, eq_refl, arith, ℕ,
}
use funduq_server.Prelude.Members.{Distinct, member-keep, Distinct-keep}
use funduq_server.Json.{Json, int, pos, arr, obj, of_list, Dict, get}
use funduq_server.Docent.{Summary, Guide}
use funduq_server.Docent.Market.{put_agent, group, stall_entry, describe_market, describe_stall}
use funduq_server.Docent.Tools.{describe_stall_tool, of_members, browse_souk}

abbrev kept_by : String → Summary → Bool
kept_by k a = a.provider_key == k

abbrev is_other : String → Summary → Bool
is_other k a = not (a.provider_key == k)

-- the providers in the order of their first agents
abbrev pub first_keys : List Summary → List String
first_keys [] = []
first_keys (a ∷ rest) = a.provider_key ∷ keep (λ k. not (k == a.provider_key)) (first_keys rest)

append_assoc_one : (xs ys : List Summary) (a : Summary) → (xs ++ a ∷ []) ++ ys ≡ xs ++ a ∷ ys
append_assoc_one [] ys a = refl
append_assoc_one (x ∷ xs) ys a = ap (λ (l : List Summary). x ∷ l) (append_assoc_one xs ys a)

append_nil : (xs : List Summary) → xs ++ [] ≡ xs
append_nil [] = refl
append_nil (x ∷ xs) = ap (λ (l : List Summary). x ∷ l) (append_nil xs)

-- Agents of the first stall's provider join it, all others pass it by.
group-cons :
    (k : String) (members : List Summary) (stalls : List (String × List Summary))
    (agents : List Summary)
    → group ((k, members) ∷ stalls) agents
      ≡ (k, members ++ keep (kept_by k) agents) ∷ group stalls (keep (is_other k) agents)
unfolding group put_agent
group-cons k members stalls [] = rw (append_nil members) refl
group-cons k members stalls (a ∷ rest) = elim (Bool-cases (a.provider_key == k)) [
  | inl same ↦
      let e : (k == a.provider_key) ≡ true =
        ground (arith, eq_iff k a.provider_key, eq_iff a.provider_key k) in
      rw (same, e)
        (group-cons k (members ++ a ∷ []) stalls rest
          ∙ rw (append_assoc_one members (keep (kept_by k) rest) a) refl)
  | inr other ↦
      let e : (k == a.provider_key) ≡ false =
        ground (arith, eq_iff k a.provider_key, eq_iff a.provider_key k) in
      rw (other, e) (group-cons k members (put_agent a stalls) rest)
]

abbrev but : (String → Bool) → String → String → Bool
but q k j = q j && not (j == k)

keep-but :
    (q : String → Bool) (k : String) (agents : List Summary)
    → keep (is_other k) (keep (λ a. q a.provider_key) agents)
      ≡ keep (λ a. but q k a.provider_key) agents
keep-but q k [] = refl
keep-but q k (a ∷ rest) = ground (arith, keep-but q k rest)

keep-but_keys :
    (q : String → Bool) (k : String) (keys : List String)
    → keep q (keep (λ j. not (j == k)) keys) ≡ keep (but q k) keys
keep-but_keys q k [] = refl
keep-but_keys q k (j ∷ rest) = ground (arith, keep-but_keys q k rest)

keep-same :
    (q : String → Bool) (k : String) (agents : List Summary)
    → q k ≡ true
    → keep (kept_by k) (keep (λ a. q a.provider_key) agents) ≡ keep (kept_by k) agents
keep-same q k [] h = refl
keep-same q k (a ∷ rest) h = elim (Bool-cases (a.provider_key == k)) [
  | inl same ↦
      let e : a.provider_key ≡ k = (eq_iff a.provider_key k).0 same in
      let good : q a.provider_key ≡ true = ap q e ∙ h in
      rw (good, same) (ap (λ (l : List Summary). a ∷ l) (keep-same q k rest h))
  | inr other ↦ ground (arith, keep-same q k rest h)
]

abbrev stall_of : List Summary → String → String × List Summary
stall_of agents k = (k, keep (kept_by k) agents)

map-but :
    (q : String → Bool) (a : Summary) (rest : List Summary) (keys : List String)
    → map (stall_of (a ∷ rest)) (keep (but q a.provider_key) keys)
      ≡ map (stall_of rest) (keep (but q a.provider_key) keys)
map-but q a rest [] = refl
map-but q a rest (k ∷ keys) =
    ground (arith, map-but q a rest keys, eq_iff k a.provider_key, eq_iff a.provider_key k)

keep-but-false :
    (q : String → Bool) (k : String) (agents : List Summary)
    → q k ≡ false
    → keep (λ a. but q k a.provider_key) agents ≡ keep (λ a. q a.provider_key) agents
keep-but-false q k [] h = refl
keep-but-false q k (a ∷ rest) h = elim (Bool-cases (a.provider_key == k)) [
  | inl same ↦
      let e : a.provider_key ≡ k = (eq_iff a.provider_key k).0 same in
      let bad : q a.provider_key ≡ false = ap q e ∙ h in rw (bad) (keep-but-false q k rest h)
  | inr other ↦ ground (arith, keep-but-false q k rest h)
]

group-keep :
    (q : String → Bool) (agents : List Summary)
    → group [] (keep (λ a. q a.provider_key) agents)
      ≡ map (stall_of agents) (keep q (first_keys agents))
unfolding group put_agent
group-keep q [] = refl
group-keep q (a ∷ rest) = elim (Bool-cases (q a.provider_key)) [
  | inl good ↦
      rw
        (
          good,
          keep-but_keys q a.provider_key (first_keys rest),
          map-but q a rest (first_keys rest),
          eq_refl a.provider_key,
        )
        (group-cons a.provider_key (a ∷ []) [] (keep (λ b. q b.provider_key) rest)
          ∙ rw
              (
                keep-but q a.provider_key rest,
                group-keep (but q a.provider_key) rest,
                keep-same q a.provider_key rest good,
              )
              refl)
  | inr bad ↦
      rw (bad, keep-but_keys q a.provider_key (first_keys rest), map-but q a rest (first_keys rest))
        (rw (sym (keep-but-false q a.provider_key rest bad))
          (group-keep (but q a.provider_key) rest))
]

all_true : (agents : List Summary) → keep (λ a. true) agents ≡ agents
all_true [] = refl
all_true (a ∷ rest) = ap (λ (l : List Summary). a ∷ l) (all_true rest)

all_keys : (keys : List String) → keep (λ k. true) keys ≡ keys
all_keys [] = refl
all_keys (k ∷ rest) = ap (λ (l : List String). k ∷ l) (all_keys rest)

group_lem : (agents : List Summary) → group [] agents ≡ map (stall_of agents) (first_keys agents)
group_lem agents =
    ap (group []) (sym (all_true agents))
    ∙ group-keep (λ k. true) agents
    ∙ ap (map (stall_of agents)) (all_keys (first_keys agents))

-- Each of the keys has an agent in the list.
abbrev Kept : List Summary → String → Type 0
Kept agents k = (a : Summary) × (rest : List Summary) × (keep (kept_by k) agents ≡ a ∷ rest)

Kept-cons : (a : Summary) (rest : List Summary) (k : String) → Kept rest k → Kept (a ∷ rest) k
Kept-cons a rest k (b, more, e) = elim (Bool-cases (a.provider_key == k)) [
  | inl same ↦ (a, keep (kept_by k) rest, rw same refl)
  | inr other ↦ (b, more, rw other e)
]

Kept-keep :
    (a : Summary) (rest : List Summary) (p : String → Bool) (keys : List String)
    → All (Kept rest) keys
    → All (Kept (a ∷ rest)) (keep p keys)
Kept-keep a rest p [] h = tt
Kept-keep a rest p (k ∷ keys) h = elim (Bool-cases (p k)) [
  | inl good ↦ rw good (Kept-cons a rest k h.0, Kept-keep a rest p keys h.1)
  | inr bad ↦ rw bad (Kept-keep a rest p keys h.1)
]

first_keys-Kept : (agents : List Summary) → All (Kept agents) (first_keys agents)
first_keys-Kept [] = tt
first_keys-Kept (a ∷ rest) = (
  (a, keep (kept_by a.provider_key) rest, rw (eq_refl a.provider_key) refl),
  Kept-keep a rest (λ k. not (k == a.provider_key)) (first_keys rest) (first_keys-Kept rest),
)

first_keys-Distinct : (agents : List Summary) → Distinct (first_keys agents)
first_keys-Distinct [] = tt
first_keys-Distinct (a ∷ rest) = (
  ground (
    arith,
    member-keep (λ k. not (k == a.provider_key)) a.provider_key (first_keys rest),
    eq_refl a.provider_key,
  ),
  Distinct-keep (λ k. not (k == a.provider_key)) (first_keys rest) (first_keys-Distinct rest),
)

member-first_keys :
    (k : String) (agents : List Summary)
    → member k (first_keys agents) ≡ any (λ a. a.provider_key == k) agents
member-first_keys k [] = refl
member-first_keys k (a ∷ rest) = ground (
  arith,
  member-keep (λ j. not (j == a.provider_key)) k (first_keys rest),
  member-first_keys k rest,
  eq_iff k a.provider_key,
  eq_iff a.provider_key k,
)

module _ (guide : Guide) (now : ℕ) (base : String) where
  abbrev pub answer_for : List Summary → String → Json
  answer_for agents k = obj (describe_stall_tool guide now base k agents)

  answers :
      (agents : List Summary) (keys : List String)
      → All (Kept agents) keys
      → map (stall_entry guide now base) (map (stall_of agents) keys) ≡ map (answer_for agents) keys
  unfolding describe_stall_tool of_members
  answers agents [] h = refl
  answers agents (k ∷ keys) h =
      let (a, rest, e) = h.0 in
      rw (e) (
        ap (λ (l : List Json). obj (describe_stall guide now base k (a ∷ rest)) ∷ l)
          (answers agents keys h.1))

  -- The market of the agents that are listed is told by the keys of their providers.
  pub record IsMarket (agents : List Summary) (market : Dict) : Type 0 where
    pub keys : List String
    pub distinct : Distinct keys
    pub listed :
        (k : String) → (member k keys ≡ true) ↔ (any (λ a. a.provider_key == k) agents ≡ true)
    pub agent_count : get "agent_count" market ≡ int (pos (length agents))
    pub provider_count : get "provider_count" market ≡ int (pos (length keys))
    pub providers : get "providers" market ≡ arr (of_list (map (answer_for agents) keys))

  describe_market-IsMarket :
      (agents : List Summary) → IsMarket agents (describe_market guide now base agents)
  unfolding describe_market
  describe_market-IsMarket agents = record {
    keys = first_keys agents;
    distinct = first_keys-Distinct agents;
    listed = λ k. rw (member-first_keys k agents) (λ h. h, λ h. h);
    agent_count = refl;
    provider_count = rw (group_lem agents) (ap (λ n. int (pos n)) (length-map (first_keys agents)));
    providers =
        rw (group_lem agents)
          (ap (λ l. arr (of_list l)) (answers agents (first_keys agents) (first_keys-Kept agents)));
  }
    where
      length-map : (keys : List String) → length (map (stall_of agents) keys) ≡ length keys
      length-map [] = refl
      length-map (k ∷ keys) = omega (arith, length-map keys)

  -- Browsing the market gives, of all agents or of those that are online, their number and one entry
  -- for each provider that has any of them, no provider twice, and each entry is what the tool for a
  -- single stall answers for that provider among these agents.
  pub browse_souk-IsMarket :
      (agents : List Summary)
      → IsMarket agents (browse_souk guide now base false agents)
        × IsMarket (keep (λ a. a.online) agents) (browse_souk guide now base true agents)
  unfolding browse_souk
  browse_souk-IsMarket agents =
      (describe_market-IsMarket agents, describe_market-IsMarket (keep (λ a. a.online) agents))
