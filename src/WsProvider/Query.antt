-- ===== src/WsProvider/Query.antt =====
-- `_answer_query`: one query frame, answered by one frame. The task awaits four reads of the core,
-- of which `at 0` to `at 3` are the states. What Python raises ends the task with no answer.
pub mod Access
pub mod Secrecy
use Prim.Native.String.{◌++◌}
use funduq_server.Prelude.{
  ℕ, String, Bool, true, false, Option, none, some, List, [], ◌∷◌, ◌==◌, if◌then◌else◌, suc,
  last_of, Result, ok, raise, type_error, attribute_error, ◌>>=◌,
}
use funduq_server.Json.{
  Json, null, bool, int, str, arr, obj, pos, Dict, empty, of_list, get, dict, truthy, nonempty_str,
  is_hashable,
}
use funduq_server.Funduq.{Funduq, Contract, Thread}
use funduq_server.Reads.{may_read}
use funduq_server.WsCommon.{is_type, error_frame}

-- `answer(error=…)` and `answer(result=…)`
abbrev pub query_error : String → String → Dict
query_error query_id message =
    dict (("type", str "queryResult") ∷ ("queryId", str query_id) ∷ ("error", str message) ∷ [])

abbrev pub query_answer : String → List Json → Dict
query_answer query_id messages = dict (
    ("type", str "queryResult")
    ∷ ("queryId", str query_id)
    ∷ ("result", arr (of_list messages))
    ∷ [])

abbrev pub not_yours : String
not_yours = "no such thread for this provider"

-- The `limit` parameter: absent, a positive integer, or anything else. `True` is an `int` of
-- value 1 in Python.
pub data Limit : Type 0 where
  unlimited bad_limit : Limit
  at_most : ℕ → Limit

unfoldable pub read_limit : Json → Limit
read_limit null = unlimited
read_limit (bool true) = at_most 1
read_limit (int (pos (suc n))) = at_most (suc n)
read_limit _ = bad_limit

unfoldable pub trim : Limit → List Json → List Json
trim (at_most n) messages = last_of n messages
trim _ messages = messages

unfoldable pub is_owner : String → Option Thread → Bool
is_owner public_key none = false
is_owner public_key (some thread) = thread.provider_key == public_key

unfoldable pub answer_thread_messages :
    {S : Type 0} → Funduq S → (ℕ → S) → String → String → String → Limit → Dict
unfolding is_owner trim
answer_thread_messages core at public_key query_id thread_id limit =
    if is_owner public_key (core.get_thread (at 0) thread_id)
    then (if may_read core (λ n. at (suc n)) thread_id (some public_key)
        then query_answer query_id (trim limit (core.get_thread_messages (at 3) thread_id))
        else query_error query_id not_yours)
    else query_error query_id not_yours

is_bad : Limit → Bool
is_bad bad_limit = true
is_bad _ = false

answer_thread : {S : Type 0} → Funduq S → (ℕ → S) → String → String → Limit → Option String → Dict
unfolding is_bad
answer_thread core at public_key query_id limit none =
    query_error query_id "thread_messages needs a threadId"
answer_thread core at public_key query_id limit (some thread_id) =
    if is_bad limit
    then query_error query_id "limit must be a positive integer"
    else answer_thread_messages core at public_key query_id thread_id limit

answer_params : {S : Type 0} → Funduq S → (ℕ → S) → String → String → Dict → Dict
unfolding answer_thread
answer_params core at public_key query_id params =
    answer_thread core at public_key query_id (read_limit (get "limit" params))
      (nonempty_str (get "threadId" params))

-- `parsed.get("params") or {}`; what is true and no dict has no `get`.
unfoldable pub read_params : Json → Result Dict
read_params (obj params) = ok params
read_params j =
    if truthy j
    then raise (record { class = attribute_error; text = "no attribute 'get'" })
    else ok empty

answer_method : {S : Type 0} → Funduq S → Contract → (ℕ → S) → String → String → Dict → Result Dict
unfolding answer_params read_params
answer_method core contract at public_key query_id parsed =
    if is_hashable (get "method" parsed)
    then (if is_type "thread_messages" (get "method" parsed)
        then (do
          params ← read_params (get "params" parsed)
          ok (answer_params core at public_key query_id params))
        else ok
            (query_error query_id ("unknown query method " ++ contract.repr (get "method" parsed))))
    else raise (record { class = type_error; text = "unhashable type" })

answer_id :
    {S : Type 0} → Funduq S → Contract → (ℕ → S) → String → Dict → Option String → Result Dict
unfolding answer_method
answer_id core contract at public_key parsed none = ok (error_frame "query needs a queryId")
answer_id core contract at public_key parsed (some query_id) =
    answer_method core contract at public_key query_id parsed

unfoldable pub answer_query :
    {S : Type 0} → Funduq S → Contract → (ℕ → S) → String → Dict → Result Dict
unfolding answer_id
answer_query core contract at public_key parsed =
    answer_id core contract at public_key parsed (nonempty_str (get "queryId" parsed))
