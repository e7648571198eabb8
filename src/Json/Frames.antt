-- ===== src/Json/Frames.antt =====
-- An envelope inside a frame: `{"type": …, **dump}` on one side of the wire, and the frame without
-- the transport's own keys on the other.
use funduq_server.Prelude.{String, false, ◌≡◌, refl, sym, ◌∙◌, ap, none, ◌==◌, eq_iff, arith}
use funduq_server.Json.{Json, Dict, empty, entry, lookup, put, merge, without}

abbrev append : Dict → Dict → Dict
append empty e = e
append (entry k v d) e = entry k v (append d e)

-- No key twice, as in every dict of Python.
abbrev pub IsDistinct : Dict → Type 0
IsDistinct empty = Unit
IsDistinct (entry k v d) = (lookup k d ≡ none) × IsDistinct d

-- The left dict has no key of the right one.
abbrev Disjoint : Dict → Dict → Type 0
Disjoint d empty = Unit
Disjoint d (entry k v e) = (lookup k d ≡ none) × Disjoint d e

put-append :
    (k : String) (v : Json) (d : Dict) → lookup k d ≡ none → put k v d ≡ append d (entry k v empty)
put-append k v empty h = refl
put-append k v (entry j w d) h = ground (arith, put-append k v d)

lookup-append_one :
    (j k : String) (v : Json) (d : Dict)
    → lookup j d ≡ none
    → (k == j) ≡ false
    → lookup j (append d (entry k v empty)) ≡ none
lookup-append_one j k v empty h ne = rw ne
lookup-append_one j k v (entry i w d) h ne = ground (arith, lookup-append_one j k v d)

Disjoint-append_one :
    (k : String) (v : Json) (d e : Dict)
    → Disjoint d e
    → lookup k e ≡ none
    → Disjoint (append d (entry k v empty)) e
Disjoint-append_one k v d empty h lacks = tt
Disjoint-append_one k v d (entry j w e) h lacks = (
  lookup-append_one j k v d h.0 (ground (arith, eq_iff j k, eq_iff k j)),
  Disjoint-append_one k v d e h.1 (ground arith),
)

append_assoc_one :
    (k : String) (v : Json) (d e : Dict)
    → append (append d (entry k v empty)) e ≡ append d (entry k v e)
append_assoc_one k v empty e = refl
append_assoc_one k v (entry j w d) e = ap (entry j w) (append_assoc_one k v d e)

append-empty : (d : Dict) → append d empty ≡ d
append-empty empty = refl
append-empty (entry k v d) = ap (entry k v) (append-empty d)

merge-append : (d e : Dict) → Disjoint d e → IsDistinct e → merge d e ≡ append d e
merge-append d empty h n = sym (append-empty d)
merge-append d (entry k v e) h n = rw (put-append k v d h.0) (
    merge-append (append d (entry k v empty)) e (Disjoint-append_one k v d e h.1 n.0) n.1
    ∙ append_assoc_one k v d e)

without-lacks : (k : String) (d : Dict) → lookup k d ≡ none → without k d ≡ d
without-lacks k empty h = refl
without-lacks k (entry j v d) h = ground (arith, without-lacks k d)

Disjoint-one : (k : String) (v : Json) (e : Dict) → lookup k e ≡ none → Disjoint (entry k v empty) e
Disjoint-one k v empty h = tt
Disjoint-one k v (entry j w e) h =
    (ground (arith, eq_iff j k, eq_iff k j), Disjoint-one k v e (ground arith))

merge-one :
    (k : String) (v : Json) (envelope : Dict)
    → IsDistinct envelope
    → lookup k envelope ≡ none
    → merge (entry k v empty) envelope ≡ entry k v envelope
merge-one k v envelope n h = merge-append (entry k v empty) envelope (Disjoint-one k v envelope h) n

-- Every other key of the frame reads as in the envelope.
pub lookup-merge_one :
    (j k : String) (v : Json) (envelope : Dict)
    → IsDistinct envelope
    → lookup k envelope ≡ none
    → (k == j) ≡ false
    → lookup j (merge (entry k v empty) envelope) ≡ lookup j envelope
lookup-merge_one j k v envelope n h ne = rw (merge-one k v envelope n h, ne)

-- Taking the transport's one key off a frame gives the envelope back.
pub without-merge :
    (k : String) (v : Json) (envelope : Dict)
    → IsDistinct envelope
    → lookup k envelope ≡ none
    → without k (merge (entry k v empty) envelope) ≡ envelope
without-merge k v envelope n h =
    rw (merge-append (entry k v empty) envelope (Disjoint-one k v envelope h) n)
      (ground (arith, eq_iff k k, without-lacks k envelope h))

Disjoint-two :
    (k j : String) (v w : Json) (e : Dict)
    → lookup k e ≡ none
    → lookup j e ≡ none
    → Disjoint (entry k v (entry j w empty)) e
Disjoint-two k j v w empty h h' = tt
Disjoint-two k j v w (entry i u e) h h' = (
  ground (arith, eq_iff i k, eq_iff k i, eq_iff i j, eq_iff j i),
  Disjoint-two k j v w e (ground arith) (ground arith),
)

-- The same for two keys, taken off in the order in which they stand.
pub without-merge_two :
    (k j : String) (v w : Json) (envelope : Dict)
    → (k == j) ≡ false
    → IsDistinct envelope
    → lookup k envelope ≡ none
    → lookup j envelope ≡ none
    → without j (without k (merge (entry k v (entry j w empty)) envelope)) ≡ envelope
without-merge_two k j v w envelope ne n h h' =
    rw (merge-append (entry k v (entry j w empty)) envelope (Disjoint-two k j v w envelope h h') n)
      (ground (
        arith,
        eq_iff k k,
        eq_iff j j,
        eq_iff k j,
        eq_iff j k,
        without-lacks k envelope h,
        without-lacks j envelope h',
      ))
