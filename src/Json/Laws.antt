-- ===== src/Json/Laws.antt =====
-- Laws of dicts: what a key reads after an entry is put, and after two dicts are merged.
use funduq_server.Prelude.{
  String, ◌≡◌, refl, none, some, List, [], ◌∷◌, ap, ◌==◌, eq_iff, arith, if◌then◌else◌,
}
use funduq_server.Json.{Json, Dict, empty, entry, lookup, put, merge, to_list, of_list}

pub lookup-put :
    (k j : String) (v : Json) (d : Dict)
    → lookup j (put k v d) ≡ (if k == j then some v else lookup j d)
lookup-put k j v empty = refl
lookup-put k j v (entry i w d) =
    ground (arith, eq_iff i k, eq_iff i j, eq_iff k j, lookup-put k j v d)

-- A key that the right dict lacks reads as in the left one.
pub lookup-merge_left :
    (j : String) (d e : Dict) → lookup j e ≡ none → lookup j (merge d e) ≡ lookup j d
lookup-merge_left j d empty h = refl
lookup-merge_left j d (entry k v e) h =
    ground (arith, lookup-merge_left j (put k v d) e, lookup-put k j v d)

pub to_list-of_list : (js : List Json) → to_list (of_list js) ≡ js
to_list-of_list [] = refl
to_list-of_list (j ∷ js) = ap (λ (r : List Json). j ∷ r) (to_list-of_list js)
