-- ===== src/Json.antt =====
-- The values that `json.loads` makes, as Python sees them: a dict keeps its entries in order.
-- A float is kept by its text and, when it is a whole number, by that number: the source only asks
-- whether a value is an `int` and whether it is true or equal to a whole number.
pub mod Laws
pub mod Frames
use Prim.Native.Nat.{ℕ, zero}
use funduq_server.Prelude.{
  String, Bool, true, false, not, Option, none, some, List, [], ◌∷◌, ◌==◌, nat_eq, if◌then◌else◌,
}

-- `negsuc n` is -(n + 1)
pub data ℤ : Type 0 where
  pos : ℕ → ℤ
  negsuc : ℕ → ℤ

mutual
  pub data Json : Type 0 where
    null : Json
    bool : Bool → Json
    int : ℤ → Json
    float : Option ℤ → String → Json
    str : String → Json
    arr : Items → Json
    obj : Dict → Json

  pub data Items : Type 0 where
    nil : Items
    cons : Json → Items → Items

  pub data Dict : Type 0 where
    empty : Dict
    entry : String → Json → Dict → Dict

abbrev pub to_list : Items → List Json
to_list nil = []
to_list (cons j js) = j ∷ to_list js

abbrev pub of_list : List Json → Items
of_list [] = nil
of_list (j ∷ js) = cons j (of_list js)

abbrev pub lookup : String → Dict → Option Json
lookup k empty = none
lookup k (entry j v d) = if j == k then some v else lookup k d

abbrev pub or_else : Option Json → Json → Json
or_else none v = v
or_else (some w) v = w

-- `d.get(k)`: a missing key reads as `None`
abbrev pub get : String → Dict → Json
get k d = or_else (lookup k d) null

-- `{key: value for key, value in d.items() if key != k}`
abbrev pub without : String → Dict → Dict
without k empty = empty
without k (entry j v d) = let rest = without k d in if j == k then rest else entry j v rest

-- `bool(x)`
abbrev pub truthy : Json → Bool
truthy null = false
truthy (bool b) = b
truthy (int (pos zero)) = false
truthy (int _) = true
truthy (float (some (pos zero)) _) = false
truthy (float _ _) = true
truthy (str s) = not (s == "")
truthy (arr nil) = false
truthy (arr (cons _ _)) = true
truthy (obj empty) = false
truthy (obj (entry _ _ _)) = true

-- `x == n` for a whole number `n` above 1 (`True == 1` plays no part there)
abbrev pub equals_nat : ℕ → Json → Bool
equals_nat n (int (pos m)) = nat_eq m n
equals_nat n (float (some (pos m)) _) = nat_eq m n
equals_nat n _ = false

-- `isinstance(x, str) and x`: the text, if it is a text that is not empty
abbrev pub nonempty_str : Json → Option String
nonempty_str (str s) = if s == "" then none else some s
nonempty_str _ = none

-- Values that Python refuses to hash: testing one for membership in a set raises `TypeError`.
abbrev pub is_hashable : Json → Bool
is_hashable (arr _) = false
is_hashable (obj _) = false
is_hashable _ = true

-- `isinstance(x, dict)`
abbrev pub as_dict : Json → Option Dict
as_dict (obj d) = some d
as_dict _ = none

-- `isinstance(x, str)`
abbrev pub as_str : Json → Option String
as_str (str s) = some s
as_str _ = none

-- `isinstance(x, list)`
abbrev pub as_list : Json → Option (List Json)
as_list (arr items) = some (to_list items)
as_list _ = none

-- A dict literal.
abbrev pub dict : List (String × Json) → Dict
dict [] = empty
dict ((k, v) ∷ rest) = entry k v (dict rest)

-- `{k₁: v₁, …, **d}`: an entry of `d` replaces the value at a key that stands already.
abbrev pub put : String → Json → Dict → Dict
put k v empty = entry k v empty
put k v (entry j w d) = if j == k then entry j v d else entry j w (put k v d)

abbrev pub merge : Dict → Dict → Dict
merge d empty = d
merge d (entry k v e) = merge (put k v d) e
