-- ===== src/WsProvider/Session.antt =====
-- `provider_socket` around its read loop, and `_watch_registration`. A session is a list of
-- events, each run to its next wait: a message read, a query task that ends, the watcher waking, a
-- call of the core on the link, or anything else that changes the core.
pub mod Roster
pub mod Wire
use funduq_server.Prelude.{
  ℕ, suc, zero, String, Bool, true, false, not, ◌&&◌, ◌||◌, Option, none, some, List, [], ◌∷◌, ◌++◌,
  if◌then◌else◌, ◌⊎◌, inl, inr, Result, ok, raise, Error, ErrorClass, invalid_registration,
}
use funduq_server.Text.{sorted}
use funduq_server.Json.{Dict, str, dict, get}
use funduq_server.Funduq.{Funduq, Contract, Connect, AgentRef}
use funduq_server.WsCommon.{
  Message, Loop, running, ended, failed, close_frame, policy_violation, Hello, proceed, refuse,
  gone, raised, receive_hello,
}
use funduq_server.WsProvider.Link.{Link, new_link, put_frame, deliver, cancel}
use funduq_server.WsProvider.Query.{answer_query}
use funduq_server.WsProvider.Hello.{read_hello}
use funduq_server.WsProvider.Socket.{Conn, read_message, put}

-- How the opening of a socket ends: closed with a reason, left alone as the peer is gone, broken
-- off by an exception that nothing caught, or open.
pub data Opened (S : Type 0) : Type 0 where
  closed : String → Opened S
  abandoned : Opened S
  broken : Error → Opened S
  opened : Conn S → Opened S

-- A class test of `except (InvalidRegistration, ValueError)`.
unfoldable pub is_refusal : Contract → ErrorClass → Bool
is_refusal contract invalid_registration = true
is_refusal contract class = contract.is_value_error class

unfoldable pub welcome : String → String → Dict
welcome funduq_key answer =
    dict
      (("type", str "welcome") ∷ ("funduqPublicKey", str funduq_key) ∷ ("answer", str answer) ∷ [])

-- The other tasks of a session.
pub data Event (S : Type 0) : Type 0 where
  receive : Message → Event S
  query_ends : ℕ → (ℕ → S) → Event S
  watcher_wakes : (ℕ → S) → Event S
  core_delivers : Dict → Event S
  core_cancels : String → Event S
  core_changes : S → Event S

abbrev pub task_at : ℕ → List Dict → Option Dict
task_at n [] = none
task_at zero (t ∷ ts) = some t
task_at (suc n) (t ∷ ts) = task_at n ts

abbrev pub remove_at : ℕ → List Dict → List Dict
remove_at n [] = []
remove_at zero (t ∷ ts) = ts
remove_at (suc n) (t ∷ ts) = t ∷ remove_at n ts

has_names : List String → Bool
has_names [] = false
has_names (name ∷ names) = true

abbrev lost_message : String
lost_message = "funduq no longer lists these agents; re-register"

is_running : Loop → Bool
is_running running = true
is_running _ = false

module _ {S : Type 0} (core : Funduq S) (contract : Contract) where
  unfoldable pub after_attach : ℕ → Connect → Result String × S → Opened S
  unfolding is_refusal welcome new_link put_frame
  after_attach id hello (raise e, s) =
      if is_refusal contract e.class then closed e.text else broken e
  after_attach id hello (ok answer, s) = opened (record {
    id = id;
    core = s;
    link =
        put_frame (welcome core.identity_public_key answer)
          (new_link hello.public_key hello.max_concurrent_runs);
    tasks = [];
    watching = true;
    loop = running;
  })

  unfoldable pub attach : ℕ → S → String ⊎ Connect → Opened S
  unfolding after_attach
  attach id s (inl problem) = closed problem
  attach id s (inr hello) = after_attach id hello (core.attach_provider s id hello)

  unfoldable pub after_hello : ℕ → S → Hello → Opened S
  unfolding attach
  after_hello id s (refuse reason) = closed reason
  after_hello id s gone = abandoned
  after_hello id s (raised e) = broken e
  after_hello id s (proceed hello) = attach id s (read_hello contract hello)

  -- From `accept` to the welcome; `none` is the timeout of `receive_hello`.
  unfoldable pub open_socket : ℕ → S → Option Message → Opened S
  unfolding after_hello
  open_socket id s first = after_hello id s (receive_hello first)

  -- `any([await funduq.get_agent(ref) is not None for ref in refs])`, `at n` at the n-th await
  listed : (ℕ → S) → String → List String → Bool
  listed at key [] = false
  listed at key (name ∷ names) =
      core.get_agent (at 0) (record { provider_key = key; name = name })
      || listed (λ n. at (suc n)) key names

  -- whether a round of the watcher finds names published, and none of them listed any more
  asks_close : (ℕ → S) → Conn S → Bool
  unfolding listed has_names
  asks_close at conn =
      conn.watching
      && (has_names (sorted conn.link.registered_names)
          && not (listed at conn.link.public_key (sorted conn.link.registered_names)))

  -- One round of the watcher's loop. Once it has asked for the close it returns.
  unfoldable pub watch : (ℕ → S) → Conn S → Conn S
  unfolding asks_close
  watch at conn =
      if asks_close at conn
      then put (close_frame policy_violation lost_message) (record conn { watching = false })
      else conn

  -- A query task that raises ends with nothing said on the wire.
  reply_query : Result Dict → Conn S → Conn S
  unfolding put
  reply_query (ok reply) conn = put reply conn
  reply_query (raise e) conn = conn

  end_query : (ℕ → S) → Conn S → Option Dict → Conn S
  unfolding reply_query
  end_query at conn none = conn
  end_query at conn (some frame) =
      reply_query (answer_query core contract at conn.link.public_key frame) conn

  unfoldable pub step : Event S → Conn S → Conn S
  unfolding watch end_query deliver cancel
  step (receive message) conn = read_message core contract message conn
  step (query_ends n at) conn =
      end_query at (record conn { tasks = remove_at n conn.tasks }) (task_at n conn.tasks)
  step (watcher_wakes at) conn = watch at conn
  step (core_delivers run) conn = record conn { link = deliver run conn.link }
  step (core_cancels run_id) conn = record conn { link = (cancel run_id conn.link).0 }
  step (core_changes s) conn = record conn { core = s }

  -- Once the read loop has ended, `finally` detaches the link and stops the other tasks.
  unfoldable pub serve : List (Event S) → Conn S → Conn S
  unfolding is_running
  serve [] conn = conn
  serve (e ∷ es) conn =
      let rest = serve es (step e conn) in if is_running conn.loop then rest else conn

  unfoldable pub teardown : Conn S → S
  teardown conn = core.detach_provider conn.core conn.link.public_key conn.id
