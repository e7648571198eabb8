-- ===== src/AgentSdk/Queries.antt =====
-- `thread_messages` and the table of waiters behind it. A query id is fresh random text, so the
-- id stands for the waiter; `is_pending` says which ids stand in `_pending`.
pub mod Tracked
use funduq_server.Prelude.{
  String, Bool, true, false, Option, none, some, [], ◌∷◌, ◌==◌, if◌then◌else◌, Result, ok, raise,
  ErrorClass,
}
use funduq_server.Json.{
  ℤ, Json, null, int, str, arr, nil, obj, Dict, get, dict, truthy, is_hashable,
}

-- A future: unset, holding its result, holding a `SoukQueryFailed`, or cancelled.
pub data Future : Type 0 where
  waiting : Future
  result : Json → Future
  query_failed : String → Future
  cancelled : Future

pub record Waiters : Type 0 where
  pub futures : String → Future
  pub is_pending : String → Bool

-- `_pending` as it begins; an id that was never asked for has no one waiting.
abbrev pub no_questions : Waiters
no_questions = record { futures = λ id. cancelled; is_pending = λ id. false }

abbrev pub update {ℓ} : {A : Type ℓ} → String → A → (String → A) → String → A
update key value f other = if key == other then value else f other

abbrev pub limit_json : Option ℤ → Json
limit_json none = null
limit_json (some n) = int n

-- The frame of `thread_messages`.
unfoldable pub query_frame : String → String → Option ℤ → Dict
query_frame query_id thread_id limit = dict (
    ("type", str "query")
    ∷ ("queryId", str query_id)
    ∷ ("method", str "thread_messages")
    ∷ ("params", obj (dict (("threadId", str thread_id) ∷ ("limit", limit_json limit) ∷ [])))
    ∷ [])

-- `thread_messages` up to its wait.
unfoldable pub ask : String → Waiters → Waiters
ask query_id w = record {
  futures = update query_id waiting w.futures;
  is_pending = update query_id true w.is_pending;
}

-- `set_result` and `set_exception` on a waiter that is not done.
unfoldable pub settle : String → Future → Waiters → Waiters
settle query_id future w = record w { futures = update query_id future w.futures }

is_waiting : Future → Bool
is_waiting waiting = true
is_waiting _ = false

-- The text of an error; a server's is a text.
error_text : (Json → String) → Json → String
error_text show (str s) = s
error_text show j = show j

-- what a `queryResult` frame settles its waiter with
outcome : (Json → String) → Json → Json → Future
unfolding error_text
outcome show null answer = result (if truthy answer then answer else arr nil)
outcome show error answer = query_failed (error_text show error)

resolve_id : (Json → String) → Dict → Json → Waiters → Result Waiters
unfolding is_waiting outcome settle
resolve_id show frame (str query_id) w = ok (
    if w.is_pending query_id
    then (if is_waiting (w.futures query_id)
        then settle query_id (outcome show (get "error" frame) (get "result" frame)) w
        else w)
    else w)
resolve_id show frame j w =
    if is_hashable j
    then ok w
    else raise (record { class = ErrorClass.type_error; text = "unhashable type" })

-- `_resolve_query`
unfoldable pub resolve_query : (Json → String) → Dict → Waiters → Result Waiters
unfolding resolve_id
resolve_query show frame w = resolve_id show frame (get "queryId" frame) w

fail_one : String → Bool → Future → Future
fail_one reason true waiting = query_failed reason
fail_one reason _ future = future

-- `_fail_pending_queries`
unfoldable pub fail_pending_queries : String → Waiters → Waiters
unfolding fail_one
fail_pending_queries reason w = record {
  futures = λ id. fail_one reason (w.is_pending id) (w.futures id);
  is_pending = λ _. false;
}

abandon : Future → Future
abandon waiting = cancelled
abandon future = future

-- The end of `thread_messages`: where its wait timed out or was cancelled, the future that is still
-- unset is cancelled with it; and the `finally`.
unfoldable pub leave : String → Waiters → Waiters
unfolding abandon
leave query_id w = record {
  futures = update query_id (abandon (w.futures query_id)) w.futures;
  is_pending = update query_id false w.is_pending;
}
