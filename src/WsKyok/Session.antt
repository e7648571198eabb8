-- ===== src/WsKyok/Session.antt =====
-- `kyok_socket` around its read loop. A session is a list of events: a message read, a completion
-- that the core asks for, the reader of an answer stream taking its next item or giving up, or
-- anything else that changes the core.
pub mod Order
use funduq_server.Prelude.{
  ℕ, String, Bool, true, false, Option, none, some, List, [], ◌∷◌, if◌then◌else◌, ◌⊎◌, inl, inr,
  Result, ok, raise, Error, ErrorClass, invalid_registration,
}
use funduq_server.Json.{Dict, str, dict}
use funduq_server.Funduq.{LlmFunduq, Contract, Connect}
use funduq_server.WsCommon.{
  Message, Loop, running, Hello, proceed, refuse, gone, raised, receive_hello,
}
use funduq_server.WsKyok.Link.{new_link, put_frame, complete, pull, time_out, fail_pending}
use funduq_server.WsKyok.Link.Queue.{pulled_link}
use funduq_server.WsKyok.Hello.{read_hello}
use funduq_server.WsKyok.Socket.{Conn, read_message}

pub data Opened (S : Type 0) : Type 0 where
  closed : String → Opened S
  abandoned : Opened S
  broken_off : Error → Opened S
  opened : Conn S → Opened S

-- `except (InvalidRegistration, ValueError)`
unfoldable pub is_refusal : Contract → ErrorClass → Bool
is_refusal contract invalid_registration = true
is_refusal contract class = contract.is_value_error class

unfoldable pub welcome : String → String → Dict
welcome funduq_key answer =
    dict
      (("type", str "welcome") ∷ ("funduqPublicKey", str funduq_key) ∷ ("answer", str answer) ∷ [])

pub data Event (S : Type 0) : Type 0 where
  receive : Message → Event S
  core_completes : String → Dict → Event S
  stream_pulls : String → Event S
  stream_times_out : String → Event S
  core_changes : S → Event S

is_running : Loop → Bool
is_running running = true
is_running _ = false

module _ {S : Type 0} (core : LlmFunduq S) (contract : Contract) where
  unfoldable pub after_attach : ℕ → Connect → Result String × S → Opened S
  unfolding is_refusal welcome new_link put_frame
  after_attach id hello (raise e, s) =
      if is_refusal contract e.class then closed e.text else broken_off e
  after_attach id hello (ok answer, s) = opened (record {
    id = id;
    core = s;
    link = put_frame (welcome core.identity_public_key answer) (new_link hello.public_key);
    loop = running;
  })

  unfoldable pub attach : ℕ → S → String ⊎ Connect → Opened S
  unfolding after_attach
  attach id s (inl problem) = closed problem
  attach id s (inr hello) = after_attach id hello (core.attach_llm_provider s id hello)

  unfoldable pub after_hello : ℕ → S → Hello → Opened S
  unfolding attach
  after_hello id s (refuse reason) = closed reason
  after_hello id s gone = abandoned
  after_hello id s (raised e) = broken_off e
  after_hello id s (proceed hello) = attach id s (read_hello contract hello)

  unfoldable pub open_socket : ℕ → S → Option Message → Opened S
  unfolding after_hello
  open_socket id s first = after_hello id s (receive_hello first)

  unfoldable pub step : Event S → Conn S → Conn S
  step (receive message) conn = read_message core contract message conn
  step (core_completes request_id request) conn = record conn {
    link = complete request_id request conn.link;
  }
  step (stream_pulls request_id) conn = record conn {
    link = pulled_link conn.link (pull contract request_id conn.link);
  }
  step (stream_times_out request_id) conn = record conn { link = (time_out request_id conn.link).0 }
  step (core_changes s) conn = record conn { core = s }

  unfoldable pub serve : List (Event S) → Conn S → Conn S
  unfolding is_running
  serve [] conn = conn
  serve (e ∷ es) conn =
      let rest = serve es (step e conn) in if is_running conn.loop then rest else conn

  -- `finally`
  unfoldable pub teardown : Conn S → Conn S
  unfolding fail_pending
  teardown conn = record conn {
    core = core.detach_llm_provider conn.core conn.link.public_key conn.id;
    link = fail_pending conn.link;
  }
