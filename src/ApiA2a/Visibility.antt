-- ===== src/ApiA2a/Visibility.antt =====
-- What the A2A door shows of a thread, and to whom, and how its errors compare with the other
-- doors'.
use funduq_server.Prelude.{
  ℕ, suc, String, false, ◌≡◌, refl, ap, ◌↔◌, ◌⊎◌, Option, none, some, Result, ok, raise, Error,
  ErrorClass, agent_not_found, presenter_required, thread_queue_full, ok-injective, Bool-cases, inl,
  inr,
}
use funduq_server.Json.{Json}
use funduq_server.Funduq.{Funduq}
use funduq_server.Reads.{may_read}
use funduq_server.Reads.Rule.{CanRead, may_read_iff}
use funduq_server.Deps.{status_of}
use funduq_server.ApiA2a.Asks.{Annotated, annotate_asks_iff}
use funduq_server.ApiA2a.{
  Task, Upstream, http, escape, escape_class, annotate_asks, gated, gated_result, on_get_task,
  on_subscribe_to_task, no_task,
}

may_not_read :
    {S : Type 0} (core : Funduq S) (at : ℕ → S) (id : String) (key : Option String)
    → ¬ CanRead core at id key
    → may_read core at id key ≡ false
may_not_read core at id key barred = elim (Bool-cases (may_read core at id key)) [
  | inl may ↦ absurd (barred ((may_read_iff core at id key).0 may))
  | inr closed ↦ closed
]

-- How a task came to be shown: the handler of the core found it, and the caller may read its
-- thread; it is shown with the asks that are open.
pub record Shown {S : Type 0} (up : Upstream S) (core : Funduq S) (key : Option String) (at : ℕ → S)
    (params : Json) (shown : Task) : Type 0 where
  pub found : Task
  pub upstream : up.on_get_task (at 0) params ≡ ok (some found)
  pub reader : CanRead core (λ n. at (suc n)) found.context_id key
  pub annotated : Annotated up (λ n. at (suc (suc (suc n)))) found shown

module _ {S : Type 0} (up : Upstream S) (core : Funduq S) (key : Option String) (at : ℕ → S) where
  -- the two ways of asking whether a task is shown
  gated-Shown :
      (found t : Task)
      → (gated up core key (λ n. at (suc n)) (some found) ≡ some t) ↔ (
          CanRead core (λ n. at (suc n)) found.context_id key
          × (annotate_asks up (λ n. at (suc (suc (suc n)))) (some found) ≡ some t))
  unfolding gated
  gated-Shown found t = elim (Bool-cases (may_read core (λ n. at (suc n)) found.context_id key)) [
    | inl may ↦
        rw may
          (λ e. ((may_read_iff core (λ n. at (suc n)) found.context_id key).0 may, e), λ p. p.1)
    | inr closed ↦ rw closed (
      λ e. absurd (cc),
      λ p.
          let may = (may_read_iff core (λ n. at (suc n)) found.context_id key).1 p.0 in absurd (cc),
    )
  ]

  result-Shown :
      (params : Json) (t : Task) (r : Result (Option Task))
      → up.on_get_task (at 0) params ≡ r
      → gated_result up core key (λ n. at (suc n)) r ≡ ok (some t)
      → Shown up core key at params t
  unfolding gated_result gated
  result-Shown params t (raise e) u h = absurd (cc)
  result-Shown params t (ok none) u h = absurd (cc)
  result-Shown params t (ok (some found)) u h =
      let (reader, annotated) = (gated-Shown found t).0 (ok-injective h) in
      record {
        found = found;
        upstream = u;
        reader = reader;
        annotated = (annotate_asks_iff up (λ n. at (suc (suc (suc n)))) found t).0 annotated;
      }

  -- `tasks/get` shows a task exactly if the core's handler finds it and the caller may read its
  -- thread, and shows it as it was found, but for the asks that are open in the last run of its
  -- lineage, if there are any: these stand sorted beneath their key.
  pub on_get_task_iff :
      (params : Json) (t : Task)
      → (on_get_task up core key at params ≡ ok (some t)) ↔ Shown up core key at params t
  unfolding on_get_task gated_result
  on_get_task_iff params t = (
    result-Shown params t (up.on_get_task (at 0) params) refl,
    λ s. rw (s.upstream) (
        ap ok (
          (gated-Shown s.found t).1 (
            s.reader,
            (annotate_asks_iff up (λ n. at (suc (suc (suc n)))) s.found t).1 s.annotated,
          ))),
  )

  pub task_hidden :
      (params : Json) (found : Task)
      → up.on_get_task (at 0) params ≡ ok (some found)
      → ¬ CanRead core (λ n. at (suc n)) found.context_id key
      → on_get_task up core key at params ≡ ok none
  unfolding on_get_task gated gated_result
  task_hidden params found u barred =
      rw (u, may_not_read core (λ n. at (suc n)) found.context_id key barred) refl

-- What `tasks/get` asks for is not there, or not for this caller.
abbrev pub NoTask : {S : Type 0} → Upstream S → Funduq S → (ℕ → S) → Option String → Json → Type 0
NoTask up core at key params =
    (up.on_get_task (at 0) params ≡ ok none)
    ⊎ ((found : Task) × (up.on_get_task (at 0) params ≡ ok (some found))
        × (¬ CanRead core (λ n. at (suc n)) found.context_id key))

-- There is no run of this id, of which the core's handler says so, or its thread is not for this
-- caller.
abbrev pub NoStream :
    {S : Type 0} → Upstream S → Funduq S → (ℕ → S) → Option String → String → Type 0
NoStream up core at key id =
    ((up.get_run (at 0) id ≡ none) × (up.on_subscribe_to_task (at 1) id ≡ no_task id))
    ⊎ ((thread : String) × (up.get_run (at 0) id ≡ some thread)
        × (¬ CanRead core (λ n. at (suc n)) thread key))

-- An error that leaves the A2A door as an HTTP status leaves the other doors, through their one
-- table, with the same status.
pub escape-status :
    (e : Error) (status : ℕ) (detail : String) (retry : Option String)
    → escape e ≡ http status detail retry
    → status_of e.class ≡ status
unfolding escape escape_class status_of
escape-status e status detail retry h = class_status e.class h
  where
    class_status :
        (c : ErrorClass) → escape_class c e ≡ http status detail retry → status_of c ≡ status
    class_status agent_not_found h = cc
    class_status presenter_required h = cc
    class_status thread_queue_full h = cc
    class_status _ h = absurd (cc)
