-- ===== src/WsProvider/Socket/Failures.antt =====
-- How the read loop stands after a message.
use funduq_server.Prelude.{
  ℕ, String, Bool, true, false, ◌||◌, ◌≡◌, refl, ◌≢◌, Option, none, some, List, Result, ok, raise,
  Error, ErrorClass, if◌then◌else◌,
}
use funduq_server.Json.{
  Json, null, bool, int, float, str, arr, obj, Dict, get, is_hashable, nonempty_str, as_dict,
}
use funduq_server.Funduq.{Funduq, Contract, Registration, Validation, Verdict, valid, invalid}
use funduq_server.WsCommon.{
  Message, Loop, ended, failed, disconnect, binary, text, unloadable, parse_frame,
}
use funduq_server.WsProvider.Link.{declare_interjections, takes_interjections}
use funduq_server.WsProvider.Registration.{parse_registration}
use funduq_server.WsProvider.Verdict.{parse_verdict}
use funduq_server.WsProvider.Socket.{
  Conn, Inbound, register, delete_agent, ack, event, finish, query, known, as_kind, inbound_type,
  kind_of, catch, after_register, register_agents, after_delete, delete_named, answer_verdict,
  report, dispatch, read_parsed, read_loaded, read_message,
}

-- A core that raises from these calls only what the read loop catches.
pub record IsCivil {S : Type 0} (core : Funduq S) (contract : Contract) : Type 0 where
  pub registering :
      (s : S) (id : ℕ) (asks : String → Bool) (rs : List Registration) (name : Json) (e : Error)
      → (core.register_agents s id asks rs name).0 ≡ raise e
      → (contract.is_funduq_error e.class || contract.is_value_error e.class) ≡ true
  pub deleting :
      (s : S) (id : ℕ) (name : String) (e : Error)
      → (core.delete_agent s id name).0 ≡ raise e
      → contract.is_funduq_error e.class ≡ true
  pub reporting :
      (s : S) (run event : Json) (key : String) (e : Error)
      → (core.report_event s run event key).0 ≢ raise e
  pub finishing :
      (s : S) (run : Json) (key : String) (e : Error) → (core.finish_run s run key).0 ≢ raise e

unhashable_type : Error
unhashable_type = record { class = ErrorClass.type_error; text = "unhashable type" }

-- How the loop stands after a message, told from the message alone.
abbrev loop_after_frame : Option Dict → Loop → Loop
loop_after_frame none loop = loop
loop_after_frame (some frame) loop =
    if is_hashable (get "type" frame)
    then loop
    else failed (record { class = ErrorClass.type_error; text = "unhashable type" })

abbrev pub loop_after : Message → Loop → Loop
loop_after disconnect loop = ended
loop_after binary loop = loop
loop_after (text none) loop = loop
loop_after (text (some j)) loop = loop_after_frame (as_dict j) loop
loop_after (unloadable e) loop = failed e

module _ {S : Type 0} (core : Funduq S) (contract : Contract) (civil : IsCivil core contract) where
  catch_loop :
      (b : Bool) (e : Error) (frame : Dict) (conn : Conn S)
      → b ≡ true
      → (catch b e frame conn).loop ≡ conn.loop
  unfolding catch
  catch_loop true e frame conn h = refl
  catch_loop false e frame conn h = cc

  register_loop :
      (frame : Dict) (r : Result (List Registration)) (conn : Conn S)
      → (register_agents core contract frame r conn).loop ≡ conn.loop
  unfolding register_agents
  register_loop frame (raise e) conn = refl
  register_loop frame (ok agents) conn =
      let link = declare_interjections agents conn.link in
      go
        (core.register_agents conn.core conn.id (takes_interjections link) agents
          (get "providerName" frame)).0
        (record conn {
          link = link;
          core =
              (core.register_agents conn.core conn.id (takes_interjections link) agents
                (get "providerName" frame)).1;
        })
        (civil.registering conn.core conn.id (takes_interjections link) agents
          (get "providerName" frame))
    where
      go :
          (r : Result (List String)) (c : Conn S)
          → ((e : Error)
              → r ≡ raise e
              → (contract.is_funduq_error e.class || contract.is_value_error e.class) ≡ true)
          → (after_register contract r c).loop ≡ c.loop
      go (ok names) c h = refl
      go (raise e) c h = catch_loop _ e _ c (h e refl)

  delete_loop :
      (o : Option String) (conn : Conn S) → (delete_named core contract o conn).loop ≡ conn.loop
  unfolding delete_named
  delete_loop none conn = refl
  delete_loop (some name) conn =
      go (core.delete_agent conn.core conn.id name).0
        (record conn { core = (core.delete_agent conn.core conn.id name).1 })
        (civil.deleting conn.core conn.id name)
    where
      go :
          (r : Result (Unit {0})) (c : Conn S)
          → ((e : Error) → r ≡ raise e → contract.is_funduq_error e.class ≡ true)
          → (after_delete contract name r c).loop ≡ c.loop
      go (ok _) c h = refl
      go (raise e) c h = catch_loop _ e _ c (h e refl)

  verdict_loop :
      (frame : Dict) (v : Validation Verdict) (conn : Conn S)
      → (answer_verdict core frame v conn).loop ≡ conn.loop
  unfolding answer_verdict
  verdict_loop frame (valid verdict) conn = refl
  verdict_loop frame (invalid e) conn = refl

  report_loop :
      (run_id : Json) (message : String) (r : Result Bool × S) (conn : Conn S)
      → ((e : Error) → r.0 ≢ raise e)
      → (report run_id message r conn).loop ≡ conn.loop
  unfolding report
  report_loop run_id message (ok true, s) conn h = refl
  report_loop run_id message (ok false, s) conn h = refl
  report_loop run_id message (raise e, s) conn h = absurd (h e refl)

  known_loop :
      (frame : Dict) (kind : Inbound) (conn : Conn S)
      → (dispatch core contract frame (known kind) conn).loop ≡ conn.loop
  unfolding dispatch
  known_loop frame register conn = register_loop frame (parse_registration contract frame) conn
  known_loop frame delete_agent conn = delete_loop (nonempty_str (get "name" frame)) conn
  known_loop frame ack conn = verdict_loop frame (parse_verdict contract frame) conn
  known_loop frame event conn =
      report_loop _ _
        (core.report_event conn.core (get "runId" frame) (get "event" frame) conn.link.public_key)
        conn
        (civil.reporting conn.core (get "runId" frame) (get "event" frame) conn.link.public_key)
  known_loop frame finish conn =
      report_loop _ _ (core.finish_run conn.core (get "runId" frame) conn.link.public_key) conn
        (civil.finishing conn.core (get "runId" frame) conn.link.public_key)
  known_loop frame query conn = refl

  kind_loop :
      (frame : Dict) (j : Json) (conn : Conn S)
      → (dispatch core contract frame (kind_of j) conn).loop
        ≡ (if is_hashable j then conn.loop else failed unhashable_type)
  unfolding dispatch kind_of unhashable_type
  kind_loop frame (str name) conn = named (inbound_type name)
    where
      named :
          (o : Option Inbound) → (dispatch core contract frame (as_kind o) conn).loop ≡ conn.loop
      named none = refl
      named (some kind) = known_loop frame kind conn
  kind_loop frame (arr items) conn = refl
  kind_loop frame (obj d) conn = refl
  kind_loop frame null conn = refl
  kind_loop frame (bool b) conn = refl
  kind_loop frame (int n) conn = refl
  kind_loop frame (float n t) conn = refl

  parsed_loop :
      (o : Option Dict) (conn : Conn S)
      → (read_parsed core contract o conn).loop ≡ loop_after_frame o conn.loop
  unfolding read_parsed unhashable_type
  parsed_loop none conn = refl
  parsed_loop (some frame) conn = kind_loop frame (get "type" frame) conn

  -- With a core that raises only what the read loop catches, a message breaks the loop off exactly
  -- when it is a JSON object whose `type` is an array or an object, or a text of which `json.loads`
  -- raises other than a `JSONDecodeError`; a disconnect ends the loop, and every other message,
  -- well formed or not, leaves it as it stood.
  pub read_message-loop :
      (message : Message) (conn : Conn S)
      → (read_message core contract message conn).loop ≡ loop_after message conn.loop
  unfolding read_message read_loaded parse_frame
  read_message-loop disconnect conn = refl
  read_message-loop binary conn = parsed_loop none conn
  read_message-loop (text none) conn = parsed_loop none conn
  read_message-loop (text (some j)) conn = parsed_loop (as_dict j) conn
  read_message-loop (unloadable e) conn = refl
