-- ===== src/KyokBridge/Connection/Turns.antt =====
-- Completions that are served at the same time do not mix.
use Prim.Native.Nat.{zero}
use funduq_server.Prelude.{
  ℕ, suc, String, false, ◌≡◌, refl, List, [], ◌∷◌, ◌++◌, keep, All, Bool-cases, inl, inr, ◌==◌,
  if◌then◌else◌,
}
use funduq_server.Json.{Dict}
use funduq_server.KyokBridge.Completion.Own.{is_for, AllOf}
use funduq_server.KyokBridge.Connection.{Running, put_next, advance}

abbrev pub frames_for : String → List Dict → List Dict
frames_for id frames = keep (is_for id) frames

-- what the tasks of the request have still to put
abbrev pub rest_for : String → List Running → List Dict
rest_for id [] = []
rest_for id (task ∷ others) =
    if task.request_id == id then task.rest ++ rest_for id others else rest_for id others

-- no task of the request, and at most one
abbrev pub IsFree : String → List Running → Type 0
IsFree id tasks = All (λ (t : Running). (t.request_id == id) ≡ false) tasks

abbrev pub IsAlone : String → List Running → Type 0
IsAlone id [] = Unit
IsAlone id (task ∷ others) = if task.request_id == id then IsFree id others else IsAlone id others

-- A task puts frames of its own request only.
abbrev pub IsOwn : Running → Type 0
IsOwn t = (id : String) → AllOf t.request_id id t.rest

pub IsFree-IsAlone : (id : String) (tasks : List Running) → IsFree id tasks → IsAlone id tasks
IsFree-IsAlone id [] h = tt
IsFree-IsAlone id (t ∷ ts) h = rw (h.0) (IsFree-IsAlone id ts h.1)

pub rest_for-free : (id : String) (tasks : List Running) → IsFree id tasks → rest_for id tasks ≡ []
rest_for-free id [] h = refl
rest_for-free id (t ∷ ts) h = rw (h.0) (rest_for-free id ts h.1)

put_next-IsFree :
    (id : String) (t : Running) (frames : List Dict) (others : List Running)
    → (t.request_id == id) ≡ false
    → AllOf t.request_id id frames
    → IsFree id others
    → (frames_for id (put_next t frames others).0 ≡ []) × IsFree id (put_next t frames others).1
unfolding put_next
put_next-IsFree id t [] others ne own h = (refl, h)
put_next-IsFree id t (f ∷ frames) others ne own h = (rw (own.0, ne) refl, (ne, h))

pub advance-IsFree :
    (id : String) (n : ℕ) (tasks : List Running)
    → IsFree id tasks
    → All IsOwn tasks
    → (frames_for id (advance n tasks).0 ≡ []) × IsFree id (advance n tasks).1
unfolding advance
advance-IsFree id n [] h own = (refl, tt)
advance-IsFree id zero (t ∷ ts) h own = put_next-IsFree id t t.rest ts h.0 (own.0 id) h.1
advance-IsFree id (suc n) (t ∷ ts) h own =
    let ih = advance-IsFree id n ts h.1 own.1 in (ih.0, (h.0, ih.1))

put_next-IsOwn :
    (t : Running) (frames : List Dict) (others : List Running)
    → ((id : String) → AllOf t.request_id id frames)
    → All IsOwn others
    → All IsOwn (put_next t frames others).1
unfolding put_next
put_next-IsOwn t [] others own h = h
put_next-IsOwn t (f ∷ frames) others own h = (λ id. (own id).1, h)

pub advance-IsOwn : (n : ℕ) (tasks : List Running) → All IsOwn tasks → All IsOwn (advance n tasks).1
unfolding advance
advance-IsOwn n [] own = tt
advance-IsOwn zero (t ∷ ts) own = put_next-IsOwn t t.rest ts own.0 own.1
advance-IsOwn (suc n) (t ∷ ts) own = (own.0, advance-IsOwn n ts own.1)

-- What a turn puts for the request comes off the front of what was left to put.
abbrev pub Moves : String → List Dict → List Dict × List Running → Type 0
Moves id left (frames, tasks) =
    (frames_for id frames ++ rest_for id tasks ≡ left) × IsAlone id tasks

put_next-Moves :
    (id : String) (t : Running) (frames : List Dict) (others : List Running)
    → AllOf t.request_id id frames
    → IsAlone id (t ∷ others)
    → Moves id
        (if t.request_id == id then frames ++ rest_for id others else rest_for id others)
        (put_next t frames others)
unfolding put_next
put_next-Moves id t [] others own h = elim (Bool-cases (t.request_id == id)) [
  | inl same ↦ rw same (refl, IsFree-IsAlone id others (rw same at h))
  | inr other ↦ rw other (refl, rw other at h)
]
put_next-Moves id t (f ∷ frames) others own h = elim (Bool-cases (t.request_id == id)) [
  | inl same ↦ rw (own.0, same) (refl, rw same at h)
  | inr other ↦ rw (own.0, other) (refl, rw other at h)
]

pub advance-Moves :
    (id : String) (n : ℕ) (tasks : List Running)
    → All IsOwn tasks
    → IsAlone id tasks
    → Moves id (rest_for id tasks) (advance n tasks)
unfolding advance
advance-Moves id n [] own h = (refl, tt)
advance-Moves id zero (t ∷ ts) own h = put_next-Moves id t t.rest ts (own.0 id) h
advance-Moves id (suc n) (t ∷ ts) own h = elim (Bool-cases (t.request_id == id)) [
  | inl same ↦
      let free : IsFree id ts = rw same at h in
      let quiet = advance-IsFree id n ts free own.1 in
      rw (same, quiet.0, rest_for-free id ts free, rest_for-free id (advance n ts).1 quiet.1)
        (refl, quiet.1)
  | inr other ↦ let ih = advance-Moves id n ts own.1 (rw other at h) in rw other ih
]
