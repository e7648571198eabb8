-- ===== src/WsProvider/Socket.antt =====
-- The read loop of `provider_socket`: the state of one connection, and what one message does to it.
pub mod Roster
pub mod Growth
pub mod Failures
use Prim.Native.String.{◌++◌ as ◌<>◌}
use funduq_server.Prelude.{
  ℕ, suc, zero, String, Bool, true, false, ◌||◌, Option, none, some, List, [], ◌∷◌, ◌++◌, map, ◌==◌,
  if◌then◌else◌, ◌⊎◌, inl, inr, Result, ok, raise, Error, ErrorClass, invalid_registration,
}
use funduq_server.Text.{sorted}
use funduq_server.Json.{Json, Dict, str, arr, obj, of_list, get, dict, is_hashable, nonempty_str}
use funduq_server.Funduq.{
  Funduq, Contract, Connect, AgentRef, valid, invalid, Registration, Verdict, Validation,
}
use funduq_server.WsCommon.{
  Message, Loop, running, ended, failed, disconnect, parse_frame, error_frame, close_frame,
  policy_violation, Hello, proceed, refuse, gone, receive_hello,
}
use funduq_server.WsProvider.Link.{
  Link, new_link, put_frame, declare_interjections, takes_interjections, deliver, cancel,
  discard_name,
}
use funduq_server.WsProvider.Query.{answer_query}
use funduq_server.WsProvider.Hello.{read_hello}
use funduq_server.WsProvider.Registration.{parse_registration}
use funduq_server.WsProvider.Verdict.{parse_verdict, answer_of}

-- `tasks` are the query frames whose tasks were spawned and have not ended.
pub record Conn (S : Type 0) : Type 0 where
  pub id : ℕ
  pub core : S
  pub link : Link
  pub tasks : List Dict
  pub watching : Bool
  pub loop : Loop

-- `INBOUND_FRAME_TYPES`
pub data Inbound : Type 0 where
  register delete_agent ack event finish query : Inbound

unfoldable pub inbound_type : String → Option Inbound
inbound_type name =
    if name == "register"
    then some register
    else if name == "deleteAgent"
    then some delete_agent
    else if name == "ack"
    then some ack
    else if name == "event"
    then some event
    else if name == "finish"
    then some finish
    else if name == "query"
    then some query
    else none

pub data Kind : Type 0 where
  known : Inbound → Kind
  unexpected unhashable : Kind

as_kind : Option Inbound → Kind
as_kind none = unexpected
as_kind (some k) = known k

-- `kind not in INBOUND_FRAME_TYPES`, a test of a set
unfoldable pub kind_of : Json → Kind
unfolding as_kind inbound_type
kind_of (str name) = as_kind (inbound_type name)
kind_of (arr _) = unhashable
kind_of (obj _) = unhashable
kind_of _ = unexpected

module _ {S : Type 0} where
  unfoldable pub put : Dict → Conn S → Conn S
  unfolding put_frame
  put frame conn = record conn { link = put_frame frame conn.link }

  unfoldable pub fail : Error → Conn S → Conn S
  fail e conn = record conn { loop = failed e }

  -- what an `except` clause does with an exception: answer the frame, or let it pass
  catch : Bool → Error → Dict → Conn S → Conn S
  unfolding put fail
  catch true e frame conn = put frame conn
  catch false e frame conn = fail e conn

  -- `elif kind == "register"`
  registered : List String → Conn S → Conn S
  unfolding put
  registered names conn =
      put
        (dict (("type", str "registered") ∷ ("names", arr (of_list (map str (sorted names)))) ∷ []))
        (record conn { link = record conn.link { registered_names = sorted names } })

  after_register : Contract → Result (List String) → Conn S → Conn S
  unfolding registered catch
  after_register contract (ok names) conn = registered names conn
  after_register contract (raise e) conn =
      catch (contract.is_funduq_error e.class || contract.is_value_error e.class) e
        (error_frame e.text) conn

  register_agents : Funduq S → Contract → Dict → Result (List Registration) → Conn S → Conn S
  unfolding after_register catch
  register_agents core contract frame (raise e) conn = put (error_frame e.text) conn
  register_agents core contract frame (ok agents) conn =
      let link = declare_interjections agents conn.link in
      let (r, s) =
        core.register_agents conn.core conn.id (takes_interjections link) agents
          (get "providerName" frame) in
      after_register contract r (record conn { link = link; core = s })

  -- `elif kind == "deleteAgent"`
  after_delete : Contract → String → Result (Unit {0}) → Conn S → Conn S
  unfolding put catch
  after_delete contract name (ok _) conn =
      put (dict (("type", str "deleted") ∷ ("name", str name) ∷ []))
        (record conn { link = discard_name name conn.link })
  after_delete contract name (raise e) conn =
      catch (contract.is_funduq_error e.class) e
        (dict (("type", str "error") ∷ ("name", str name) ∷ ("message", str e.text) ∷ [])) conn

  delete_named : Funduq S → Contract → Option String → Conn S → Conn S
  unfolding after_delete
  delete_named core contract none conn = put (error_frame "deleteAgent needs a name") conn
  delete_named core contract (some name) conn =
      let (r, s) = core.delete_agent conn.core conn.id name in
      after_delete contract name r (record conn { core = s })

  -- `elif kind == "ack"`
  answer_verdict : Funduq S → Dict → Validation Verdict → Conn S → Conn S
  unfolding put
  answer_verdict core frame (invalid e) conn = put (error_frame ("invalid ack: " <> e)) conn
  answer_verdict core frame (valid verdict) conn = record conn {
    core = core.answer_offer conn.core (get "runId" frame) (answer_of verdict) conn.link.public_key;
  }

  -- `elif kind == "event"` and `"finish"`: `message` answers a `False`
  after_report : Json → String → Result Bool → Conn S → Conn S
  unfolding put fail
  after_report run_id message (raise e) conn = fail e conn
  after_report run_id message (ok true) conn = conn
  after_report run_id message (ok false) conn =
      put (dict (("type", str "error") ∷ ("runId", run_id) ∷ ("message", str message) ∷ [])) conn

  report : Json → String → Result Bool × S → Conn S → Conn S
  unfolding after_report
  report run_id message (r, s) conn = after_report run_id message r (record conn { core = s })

  -- the body of the read loop on a frame that parsed
  dispatch : Funduq S → Contract → Dict → Kind → Conn S → Conn S
  unfolding put fail register_agents delete_named answer_verdict report
  dispatch core contract frame unexpected conn =
      put (error_frame ("unexpected frame " <> contract.repr (get "type" frame))) conn
  dispatch core contract frame unhashable conn =
      fail (record { class = ErrorClass.type_error; text = "unhashable type" }) conn
  dispatch core contract frame (known register) conn =
      register_agents core contract frame (parse_registration contract frame) conn
  dispatch core contract frame (known delete_agent) conn =
      delete_named core contract (nonempty_str (get "name" frame)) conn
  dispatch core contract frame (known ack) conn =
      answer_verdict core frame (parse_verdict contract frame) conn
  dispatch core contract frame (known event) conn =
      report (get "runId" frame) "event refused"
        (core.report_event conn.core (get "runId" frame) (get "event" frame) conn.link.public_key)
        conn
  dispatch core contract frame (known finish) conn =
      report (get "runId" frame) "finish refused"
        (core.finish_run conn.core (get "runId" frame) conn.link.public_key) conn
  dispatch core contract frame (known query) conn = record conn { tasks = conn.tasks ++ frame ∷ [] }

  read_parsed : Funduq S → Contract → Option Dict → Conn S → Conn S
  unfolding dispatch
  read_parsed core contract none conn = put (error_frame "unparseable frame") conn
  read_parsed core contract (some frame) conn =
      dispatch core contract frame (kind_of (get "type" frame)) conn

  read_loaded : Funduq S → Contract → Result (Option Dict) → Conn S → Conn S
  unfolding read_parsed
  read_loaded core contract (raise e) conn = record conn { loop = failed e }
  read_loaded core contract (ok frame) conn = read_parsed core contract frame conn

  unfoldable pub read_message : Funduq S → Contract → Message → Conn S → Conn S
  unfolding read_loaded
  read_message core contract disconnect conn = record conn { loop = ended }
  read_message core contract message conn = read_loaded core contract (parse_frame message) conn
