-- ===== src/KyokBridge/Connection/Serving.antt =====
-- Completions that are served at the same time on one connection do not mix.
use funduq_server.Prelude.{
  ℕ, String, Bool, true, false, not, ◌&&◌, is_some, ◌≡◌, refl, ap, ◌∙◌, Option, none, some, List,
  [], ◌∷◌, ◌++◌, any, All, Result, ok, raise, Ensures, Bool-cases, inl, inr, ◌==◌, eq_refl, eq_iff,
  arith,
}
use funduq_server.Json.{Json, null, str, Dict, get, lookup, or_else, dict}
use funduq_server.Funduq.{Validation}
use funduq_server.WsCommon.{is_type}
use funduq_server.KyokBridge.Completion.{Stream, serve_one}
use funduq_server.KyokBridge.Completion.Own.{is_for, serve_one-AllOf}
use funduq_server.KyokBridge.Connection.{
  Running, Bridge, advance, Happening, received, turn, deregistered, text_id, begin_task,
  read_frame, deregister, after_turn, withdraw, happen, or_break, happenings,
}
use funduq_server.KyokBridge.Connection.Turns.{
  frames_for, rest_for, IsFree, IsAlone, IsOwn, advance-IsOwn, advance-Moves,
}

abbrev pub begins : Dict → Bool
begins frame = is_type "completionRequest" (get "type" frame)

-- A request of this id is read; a request without an id is read, which breaks the connection off.
abbrev pub asks_for : String → Happening → Bool
asks_for id (received frame) = begins frame && is_for id frame
asks_for id _ = false

abbrev pub breaks : Happening → Bool
breaks (received frame) = begins frame && not (is_some (text_id (lookup "requestId" frame)))
breaks _ = false

-- The frames that the request has put and has still to put, of the tasks in flight.
pub record Serves (id : String) (frames : List Dict) (b : Bridge) : Type 0 where
  pub own : All IsOwn b.in_flight
  pub alone : IsAlone id b.in_flight
  pub told : frames_for id b.outbound ++ rest_for id b.in_flight ≡ frames

frames_for-append :
    (id : String) (xs ys : List Dict)
    → frames_for id (xs ++ ys) ≡ frames_for id xs ++ frames_for id ys
frames_for-append id [] ys = refl
frames_for-append id (x ∷ xs) ys = ground (arith, frames_for-append id xs ys)

append_assoc : (xs ys zs : List Dict) → (xs ++ ys) ++ zs ≡ xs ++ (ys ++ zs)
append_assoc [] ys zs = refl
append_assoc (x ∷ xs) ys zs = ap (λ (l : List Dict). x ∷ l) (append_assoc xs ys zs)

append_nil : (xs : List Dict) → xs ++ [] ≡ xs
append_nil [] = refl
append_nil (x ∷ xs) = ap (λ (l : List Dict). x ∷ l) (append_nil xs)

-- A task of another request joins those in flight.
module _ (id : String) (t : Running) (ne : (t.request_id == id) ≡ false) where
  joined-IsFree : (tasks : List Running) → IsFree id tasks → IsFree id (tasks ++ t ∷ [])
  joined-IsFree [] h = (ne, tt)
  joined-IsFree (u ∷ us) h = (h.0, joined-IsFree us h.1)

  joined-IsAlone : (tasks : List Running) → IsAlone id tasks → IsAlone id (tasks ++ t ∷ [])
  joined-IsAlone [] h = rw ne tt
  joined-IsAlone (u ∷ us) h = elim (Bool-cases (u.request_id == id)) [
    | inl same ↦ rw same (joined-IsFree us (rw same at h))
    | inr other ↦ rw other (joined-IsAlone us (rw other at h))
  ]

  rest_for-joined : (tasks : List Running) → rest_for id (tasks ++ t ∷ []) ≡ rest_for id tasks
  rest_for-joined [] = rw ne refl
  rest_for-joined (u ∷ us) = rw (rest_for-joined us) refl

joined-IsOwn :
    (t : Running) (tasks : List Running) → IsOwn t → All IsOwn tasks → All IsOwn (tasks ++ t ∷ [])
joined-IsOwn t [] own h = (own, tt)
joined-IsOwn t (u ∷ us) own h = (h.0, joined-IsOwn t us own h.1)

module _ {Delivered : Type 0} (validate : Dict → Validation Delivered)
    (handler : Delivered → Stream) (offering id : String) (frames : List Dict) where
  begin_task-Serves :
      (frame : Dict) (b : Bridge) (o : Option String)
      → (o ≡ some id → ⊥)
      → Serves id frames b
      → Ensures (Serves id frames) (begin_task validate handler offering frame b o)
  unfolding begin_task
  begin_task-Serves frame b none other s = tt
  begin_task-Serves frame b (some q) other s =
      let t : Running = record { request_id = q; rest = serve_one validate handler q frame } in
      let ne : (q == id) ≡ false = elim (Bool-cases (q == id)) [
        | inl same ↦ absurd (other (ap some ((eq_iff q id).0 same)))
        | inr distinct ↦ distinct
      ] in
      record {
        own = joined-IsOwn t b.in_flight (λ i. serve_one-AllOf validate handler q i frame) s.own;
        alone = joined-IsAlone id t ne b.in_flight s.alone;
        told = rw (rest_for-joined id t ne b.in_flight) (s.told);
      }

  not_asked : (j : Option Json) → is_type id (or_else j null) ≡ false → text_id j ≡ some id → ⊥
  unfolding text_id
  not_asked none h e = absurd (cc)
  not_asked (some (str q)) h e = ground (arith, eq_iff q id)
  not_asked (some _) h e = absurd (cc)

  withdraw-Serves :
      (b : Bridge) (on : Bool)
      → Serves id frames b
      → Serves id frames (withdraw validate handler offering b on)
  unfolding withdraw
  withdraw-Serves b false s = s
  withdraw-Serves b true s = record {
    own = s.own;
    alone = s.alone;
    told =
        ap (λ (l : List Dict). l ++ rest_for id b.in_flight)
          (frames_for-append id b.outbound
              (dict (("type", str "deleteModel") ∷ ("name", str offering) ∷ []) ∷ [])
            ∙ append_nil (frames_for id b.outbound))
        ∙ s.told;
  }

  turn-Serves :
      (n : ℕ) (b : Bridge)
      → Serves id frames b
      → Serves id frames (after_turn validate handler offering b (advance n b.in_flight))
  unfolding after_turn
  turn-Serves n b s =
      let moves = advance-Moves id n b.in_flight s.own s.alone in
      record {
        own = advance-IsOwn n b.in_flight s.own;
        alone = moves.1;
        told =
            rw
              (
                frames_for-append id b.outbound (advance n b.in_flight).0,
                append_assoc (frames_for id b.outbound) (frames_for id (advance n b.in_flight).0)
                    (rest_for id (advance n b.in_flight).1),
                moves.0,
              )
              (s.told);
      }

  deleted-Serves :
      (b : Bridge) → Serves id frames b → Serves id frames (record b { is_deleted = true })
  deleted-Serves b s = record { own = s.own; alone = s.alone; told = s.told }

  read_frame-Serves :
      (frame : Dict) (b : Bridge)
      → (begins frame && is_for id frame) ≡ false
      → Serves id frames b
      → Ensures (Serves id frames) (read_frame validate handler offering frame b)
  unfolding read_frame
  read_frame-Serves frame b h s = elim (Bool-cases (begins frame)) [
    | inl begun ↦
        let other : is_for id frame ≡ false = ground arith in
        rw begun (
          begin_task-Serves frame b (text_id (lookup "requestId" frame))
            (not_asked (lookup "requestId" frame) other) s)
    | inr no_request ↦ elim (Bool-cases (is_type "deleted" (get "type" frame))) [
      | inl gone ↦ rw (no_request, gone) (deleted-Serves b s)
      | inr ignored ↦ rw (no_request, ignored) s
    ]
  ]

  happen-Serves :
      (h : Happening) (b : Bridge)
      → asks_for id h ≡ false
      → Serves id frames b
      → Ensures (Serves id frames) (happen validate handler offering h b)
  unfolding happen deregister
  happen-Serves (received frame) b h s = read_frame-Serves frame b h s
  happen-Serves (turn n) b h s = turn-Serves n b s
  happen-Serves deregistered b h s = withdraw-Serves b b.attached s

  or_break-Serves :
      (b : Bridge) (next : Bridge → Bridge) (r : Result Bridge)
      → ((b' : Bridge) → Serves id frames b' → Serves id frames (next b'))
      → Serves id frames b
      → Ensures (Serves id frames) r
      → Serves id frames (or_break validate handler offering b next r)
  unfolding or_break
  or_break-Serves b next (ok b') keeps s r = keeps b' r
  or_break-Serves b next (raise e) keeps s r = s

  happenings-Serves :
      (hs : List Happening) (b : Bridge)
      → any (asks_for id) hs ≡ false
      → Serves id frames b
      → Serves id frames (happenings validate handler offering hs b)
  unfolding happenings
  happenings-Serves [] b h s = s
  happenings-Serves (event ∷ rest) b h s =
      or_break-Serves b (happenings validate handler offering rest)
        (happen validate handler offering event b)
        (λ b' s'. happenings-Serves rest b' (ground arith) s') s
        (happen-Serves event b (ground arith) s)

abbrev is_ok : Result Bridge → Bool
is_ok (ok b) = true
is_ok (raise e) = false

-- No task of the request is in flight, and none of its frames was put.
pub record Idle (id : String) (b : Bridge) : Type 0 where
  pub own : All IsOwn b.in_flight
  pub free : IsFree id b.in_flight
  pub quiet : frames_for id b.outbound ≡ []

module _ {Delivered : Type 0} (validate : Dict → Validation Delivered)
    (handler : Delivered → Stream) (offering id : String) where
  begun-Serves :
      (frame : Dict) (b : Bridge)
      → Idle id b
      → (q : Option String) → q ≡ some id
      → Ensures
          (Serves id (serve_one validate handler id frame))
          (begin_task validate handler offering frame b q)
  unfolding begin_task
  begun-Serves frame b idle none e = absurd (cc)
  begun-Serves frame b idle (some q) e =
      let same : q ≡ id = cc in
      rw same (record {
        own =
            joined-IsOwn (task_of frame) b.in_flight
              (λ i. serve_one-AllOf validate handler id i frame) idle.own;
        alone = joined_last (task_of frame) (eq_refl id) b.in_flight idle.free;
        told =
            rw (idle.quiet, rest_for-last (task_of frame) (eq_refl id) b.in_flight idle.free)
              (append_nil (serve_one validate handler id frame));
      })
    where
      task_of : Dict → Running
      task_of f = record { request_id = id; rest = serve_one validate handler id f }

      joined_last :
          (t : Running)
          → (t.request_id == id) ≡ true
          → (tasks : List Running) → IsFree id tasks
          → IsAlone id (tasks ++ t ∷ [])
      joined_last t is [] h = rw is tt
      joined_last t is (u ∷ us) h = rw (h.0) (joined_last t is us h.1)

      rest_for-last :
          (t : Running)
          → (t.request_id == id) ≡ true
          → (tasks : List Running) → IsFree id tasks
          → rest_for id (tasks ++ t ∷ []) ≡ t.rest ++ []
      rest_for-last t is [] h = rw is refl
      rest_for-last t is (u ∷ us) h = rw (h.0) (rest_for-last t is us h.1)

  -- A request that is read while its id is not in flight is answered by the frames of its own
  -- handler: whatever else is read and however the tasks take turns after it, if the id is not asked
  -- for again, the frames put for it with those still to put are those of `_serve_one`, in order.
  pub happenings-serve_one :
      (frame : Dict) (after : List Happening) (b : Bridge)
      → begins frame ≡ true
      → lookup "requestId" frame ≡ some (str id)
      → any (asks_for id) after ≡ false
      → Idle id b
      → (let b' = happenings validate handler offering (received frame ∷ after) b in
          frames_for id b'.outbound ++ rest_for id b'.in_flight
          ≡ serve_one validate handler id frame)
  unfolding happenings happen read_frame text_id begin_task or_break
  happenings-serve_one frame after b begun named others idle =
      let s : Serves id (serve_one validate handler id frame)
          (happenings validate handler offering (received frame ∷ after) b) =
        rw begun (started (lookup "requestId" frame) named) in
      s.told
    where
      after_ok :
          (r : Result Bridge)
          → Ensures (Serves id (serve_one validate handler id frame)) r
          → is_ok r ≡ true
          → Serves id
              (serve_one validate handler id frame)
              (or_break validate handler offering b (happenings validate handler offering after) r)
      after_ok (ok b') h e =
          happenings-Serves validate handler offering id (serve_one validate handler id frame) after
            b' others h
      after_ok (raise error) h e = absurd (cc)

      started :
          (j : Option Json)
          → j ≡ some (str id)
          → Serves id (serve_one validate handler id frame) (
              or_break validate handler offering b
                (happenings validate handler offering after)
                (begin_task validate handler offering frame b (text_id j)))
      started j e = rw e (
          after_ok (begin_task validate handler offering frame b (some id))
            (begun-Serves frame b idle (some id) refl) refl)
