-- ===== src/Docent/Ago.antt =====
-- How far the words of `_seen_ago` are from the time that they stand for.
use Prim.Native.Nat.{◌/◌}
use Prim.Native.String.{◌++◌}
use funduq_server.Prelude.{
  ℕ, ◌-◌, ◌*◌, ◌+◌, ◌≤◌, ◌<◌, ◌≡◌, refl, String, ltb, Bool-cases, inl, inr, arith,
}
use funduq_server.Prelude.Decimal.{decimal}
use funduq_server.Docent.{seen_ago, seconds_since, ago_text}

-- a unit of the docent's, and how many it counts of it at least and at most
pub data Measure : Type 0 where
  second minute hour day : Measure

abbrev suffix : Measure → String
suffix second = "s ago"
suffix minute = "m ago"
suffix hour = "h ago"
suffix day = "d ago"

abbrev seconds_in : Measure → ℕ
seconds_in second = 1
seconds_in minute = 60
seconds_in hour = 3600
seconds_in day = 86400

-- the counts that are said in the unit
abbrev InRange : Measure → ℕ → Type 0
InRange second n = n < 90
InRange minute n = (1 ≤ n) × (n < 90)
InRange hour n = (1 ≤ n) × (n < 48)
InRange day n = 2 ≤ n

-- The text names a count of a unit that is neither more than the time that passed nor a whole unit less.
pub record Tells (elapsed : ℕ) (text : String) : Type 0 where
  pub count : ℕ
  pub unit : Measure
  pub says : text ≡ decimal count ++ suffix unit
  pub not_more : count * seconds_in unit * 1000000 ≤ elapsed
  pub not_less : elapsed < (count + 1) * seconds_in unit * 1000000
  pub in_range : InRange unit count

module _ (now last_seen_at : ℕ) where
  tells :
      (count : ℕ) (unit : Measure)
      → seen_ago now last_seen_at ≡ decimal count ++ suffix unit
      → count * seconds_in unit ≤ seconds_since now last_seen_at
      → seconds_since now last_seen_at < (count + 1) * seconds_in unit
      → InRange unit count
      → Tells (now - last_seen_at) (seen_ago now last_seen_at)
  tells count unit e low high range = record {
    count = count;
    unit = unit;
    says = e;
    not_more = not_more_of unit low;
    not_less = not_less_of unit high;
    in_range = range;
  }
    where
      not_more_of :
          (u : Measure)
          → count * seconds_in u ≤ seconds_since now last_seen_at
          → count * seconds_in u * 1000000 ≤ now - last_seen_at
      not_more_of u h = omega arith

      not_less_of :
          (u : Measure)
          → seconds_since now last_seen_at < (count + 1) * seconds_in u
          → now - last_seen_at < (count + 1) * seconds_in u * 1000000
      not_less_of u h = omega arith

-- A time at which an agent was last seen is told as a count of one unit, rounded down: less than 90
-- seconds, 1 to 89 minutes, 1 to 47 hours, or at least 2 days. A time that lies ahead is told
-- as 0 seconds.
pub seen_ago-Tells : (now last_seen_at : ℕ) → Tells (now - last_seen_at) (seen_ago now last_seen_at)
unfolding seen_ago ago_text
seen_ago-Tells now last_seen_at =
    let n : ℕ = seconds_since now last_seen_at in
    elim (Bool-cases (ltb (seconds_since now last_seen_at) 90)) [
      | inl s ↦
          tells now last_seen_at n second (rw s refl) (omega arith) (omega arith) (ground arith)
      | inr s ↦ elim (Bool-cases (ltb (seconds_since now last_seen_at) 5400)) [
        | inl m ↦
            tells now last_seen_at (n / 60) minute (rw (s, m) refl) (omega arith) (omega arith)
              (ground arith)
        | inr m ↦ elim (Bool-cases (ltb (seconds_since now last_seen_at) 172800)) [
          | inl h ↦
              tells now last_seen_at (n / 3600) hour (rw (s, m, h) refl) (omega arith) (omega arith)
                (ground arith)
          | inr h ↦
              tells now last_seen_at (n / 86400) day (rw (s, m, h) refl) (omega arith) (omega arith)
                (ground arith)
        ]
      ]
    ]
