-- ===== src/Wire/Task.antt =====
-- A task that a provider reads through the SDK's `get_task`, at the gateway's A2A door. The JSON-RPC
-- dispatcher between the body and the handler is a2a-sdk's.
use Prim.Native.String.{◌++◌}
use funduq_server.Prelude.{
  ℕ, suc, String, true, false, ◌≡◌, refl, ◌∙◌, ap, Option, none, some, Result, ok, raise,
  ErrorClass, ◌>>=◌,
}
use funduq_server.Json.{ℤ, Json, null, obj, Dict, get}
use funduq_server.Funduq.{Funduq}
use funduq_server.Reads.Rule.{CanRead}
use funduq_server.Presenter.{Checks, presenter_key_of}
use funduq_server.ApiA2a.{Task, Upstream, on_get_task}
use funduq_server.ApiA2a.Visibility.{Shown, on_get_task_iff, task_hidden}
use funduq_server.AgentSdk.Presenter.{Identity, presented}
use funduq_server.AgentSdk.A2aClient.{rpc, rpc_body, get_task, get_task_params, result_of}
use funduq_server.Wire.Presenter.{statement_of, presented-Proves}

-- What the dispatcher reads of the bytes of a body, and the answer that it makes of the handler's.
pub record Dispatcher : Type 0 where
  pub read_params : String → Json
  pub respond : Result (Option Task) → Dict

module _ {S : Type 0} (up : Upstream S) (core : Funduq S) (checks : Checks)
    (dispatcher : Dispatcher) (at : ℕ → S) where
  abbrev pub answer : String → Option String → Result Dict
  answer raw key = ok (dispatcher.respond (on_get_task up core key at (dispatcher.read_params raw)))

  -- the door, on the bytes of a request and its header
  abbrev pub door : String × Option (Result Json) → Result Dict
  door request = presenter_key_of checks request.1 request.0 >>= answer request.0

  module _ (dumps show : Json → String) (request_id task_id : String) (limit : Option ℤ) where
    abbrev pub body_of : Json
    body_of = obj (rpc_body request_id "GetTask" (get_task_params task_id limit))

    abbrev pub read_task : Identity → ℤ → Result Json
    read_task identity timestamp =
        get_task checks.show_int checks.sha256hex dumps show door request_id task_id limit
          (some identity) timestamp

    -- The request goes through as the identity's.
    get_task-answer :
        (identity : Identity) (timestamp : ℤ)
        → checks.is_timestamp_fresh timestamp ≡ ok true
        → checks.encode_error (statement_of checks identity timestamp (dumps body_of)) ≡ none
        → ((payload : String)
            → checks.verify_signature identity.public_key (identity.sign payload) payload ≡ ok true)
        → read_task identity timestamp ≡ (
            let payload = dispatcher.respond (
              on_get_task up core
                (some identity.public_key)
                at
                (dispatcher.read_params (dumps body_of))) in
            result_of show "GetTask" (get "error" payload) payload)
    unfolding get_task rpc presented
    get_task-answer identity timestamp fresh encodes signs =
        ap
          (λ (r : Result (Option String)). (r >>= answer (dumps body_of)) >>= λ payload.
            result_of show "GetTask" (get "error" payload) payload)
          (presented-Proves checks dumps body_of identity false timestamp fresh encodes signs)

    -- A task that the core's handler finds, and that the identity's key may read, comes back from
    -- `get_task` with its outstanding asks, as the dispatcher writes it, if the request is in its window
    -- and what the identity signs can be encoded and verifies.
    pub get_task-Shown :
        (identity : Identity) (timestamp : ℤ) (t : Task)
        → checks.is_timestamp_fresh timestamp ≡ ok true
        → checks.encode_error (statement_of checks identity timestamp (dumps body_of)) ≡ none
        → ((payload : String)
            → checks.verify_signature identity.public_key (identity.sign payload) payload ≡ ok true)
        → Shown up core (some identity.public_key) at (dispatcher.read_params (dumps body_of)) t
        → get "error" (dispatcher.respond (ok (some t))) ≡ null
        → read_task identity timestamp ≡ ok (get "result" (dispatcher.respond (ok (some t))))
    unfolding result_of
    get_task-Shown identity timestamp t fresh encodes signs shown fine =
        get_task-answer identity timestamp fresh encodes signs
        ∙ rw
            ((on_get_task_iff up core (some identity.public_key) at
                (dispatcher.read_params (dumps body_of)) t).1
              shown)
            (rw fine refl)

    -- The same request for a task of a thread that the identity's key may not read raises, with the
    -- error that the dispatcher makes of a task that there is not.
    pub get_task_hidden :
        (identity : Identity) (timestamp : ℤ) (found : Task) (error : Dict)
        → checks.is_timestamp_fresh timestamp ≡ ok true
        → checks.encode_error (statement_of checks identity timestamp (dumps body_of)) ≡ none
        → ((payload : String)
            → checks.verify_signature identity.public_key (identity.sign payload) payload ≡ ok true)
        → up.on_get_task (at 0) (dispatcher.read_params (dumps body_of)) ≡ ok (some found)
        → ¬ CanRead core (λ n. at (suc n)) found.context_id (some identity.public_key)
        → get "error" (dispatcher.respond (ok none)) ≡ obj error
        → read_task identity timestamp
          ≡ raise (record {
            class = ErrorClass.other;
            text = "GetTask" ++ (" failed: " ++ show (obj error));
          })
    unfolding result_of
    get_task_hidden identity timestamp found error fresh encodes signs u barred e =
        get_task-answer identity timestamp fresh encodes signs
        ∙ rw
            (task_hidden up core (some identity.public_key) at
              (dispatcher.read_params (dumps body_of)) found u barred)
            (rw e refl)
