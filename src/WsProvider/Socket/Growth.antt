-- ===== src/WsProvider/Socket/Growth.antt =====
-- What reading a message does to the queue of frames.
use funduq_server.Prelude.{
  String, Bool, true, false, Option, none, some, List, [], ◌∷◌, ◌++◌, ◌||◌, Error, Result, ok,
  raise,
}
use funduq_server.Json.{Json, Dict, str, get, dict, nonempty_str}
use funduq_server.Funduq.{Funduq, Contract, valid, invalid, Registration, Validation, Verdict}
use funduq_server.WsCommon.{Message, disconnect, parse_frame, error_frame}
use funduq_server.WsProvider.Link.{
  put_frame, discard_name, declare_interjections, takes_interjections,
}
use funduq_server.WsProvider.Registration.{parse_registration}
use funduq_server.WsProvider.Verdict.{parse_verdict}
use funduq_server.WsProvider.Socket.{
  Conn, register, delete_agent, ack, event, finish, query, Kind, known, unexpected, unhashable, put,
  catch, registered, after_register, register_agents, after_delete, delete_named, answer_verdict,
  report, dispatch, read_parsed, read_loaded, read_message, kind_of,
}

module _ {S : Type 0} {P : List Dict → Type 0}
    (grow : (frames : List Dict) (frame : Dict) → P frames → P (frames ++ frame ∷ [])) where
  pub put-Grows :
      (frame : Dict) (conn : Conn S) → P conn.link.outbound → P (put frame conn).link.outbound
  unfolding put put_frame
  put-Grows frame conn h = grow conn.link.outbound frame h

  catch-Grows :
      (b : Bool) (e : Error) (frame : Dict) (conn : Conn S)
      → P conn.link.outbound
      → P (catch b e frame conn).link.outbound
  unfolding catch
  catch-Grows true e frame conn h = put-Grows frame conn h
  catch-Grows false e frame conn h = h

  registered-Grows :
      (names : List String) (conn : Conn S)
      → P conn.link.outbound
      → P (registered names conn).link.outbound
  unfolding registered put_frame
  registered-Grows names conn h = grow conn.link.outbound _ h

  register_agents-Grows :
      (core : Funduq S) (contract : Contract) (frame : Dict) (r : Result (List Registration))
      (conn : Conn S)
      → P conn.link.outbound
      → P (register_agents core contract frame r conn).link.outbound
  unfolding register_agents declare_interjections
  register_agents-Grows core contract frame (raise e) conn h = put-Grows (error_frame e.text) conn h
  register_agents-Grows core contract frame (ok agents) conn h =
      let link = declare_interjections agents conn.link in
      let (r, s) =
        core.register_agents conn.core conn.id (takes_interjections link) agents
          (get "providerName" frame) in
      after r (record conn { link = link; core = s }) h
    where
      after :
          (r : Result (List String)) (conn : Conn S)
          → P conn.link.outbound
          → P (after_register contract r conn).link.outbound
      after (ok names) conn h = registered-Grows names conn h
      after (raise e) conn h =
          catch-Grows (contract.is_funduq_error e.class || contract.is_value_error e.class) e
            (error_frame e.text) conn h

  after_delete-Grows :
      (contract : Contract) (name : String) (r : Result (Unit {0})) (conn : Conn S)
      → P conn.link.outbound
      → P (after_delete contract name r conn).link.outbound
  unfolding after_delete put_frame discard_name
  after_delete-Grows contract name (ok _) conn h = grow conn.link.outbound _ h
  after_delete-Grows contract name (raise e) conn h =
      catch-Grows (contract.is_funduq_error e.class) e _ conn h

  report-Grows :
      (run_id : Json) (message : String) (r : Result Bool × S) (conn : Conn S)
      → P conn.link.outbound
      → P (report run_id message r conn).link.outbound
  unfolding report
  report-Grows run_id message (raise e, s) conn h = h
  report-Grows run_id message (ok true, s) conn h = h
  report-Grows run_id message (ok false, s) conn h =
      put-Grows (dict (("type", str "error") ∷ ("runId", run_id) ∷ ("message", str message) ∷ []))
        (record conn { core = s }) h

  delete_named-Grows :
      (core : Funduq S) (contract : Contract) (name : Option String) (conn : Conn S)
      → P conn.link.outbound
      → P (delete_named core contract name conn).link.outbound
  unfolding delete_named
  delete_named-Grows core contract none conn h = put-Grows _ conn h
  delete_named-Grows core contract (some name) conn h =
      let (r, s) = core.delete_agent conn.core conn.id name in
      after_delete-Grows contract name r (record conn { core = s }) h

  answer_verdict-Grows :
      (core : Funduq S) (frame : Dict) (v : Validation Verdict) (conn : Conn S)
      → P conn.link.outbound
      → P (answer_verdict core frame v conn).link.outbound
  unfolding answer_verdict
  answer_verdict-Grows core frame (invalid e) conn h = put-Grows _ conn h
  answer_verdict-Grows core frame (valid verdict) conn h = h

  dispatch-Grows :
      (core : Funduq S) (contract : Contract) (frame : Dict) (kind : Kind) (conn : Conn S)
      → P conn.link.outbound
      → P (dispatch core contract frame kind conn).link.outbound
  unfolding dispatch
  dispatch-Grows core contract frame unexpected conn h = put-Grows _ conn h
  dispatch-Grows core contract frame unhashable conn h = h
  dispatch-Grows core contract frame (known register) conn h =
      register_agents-Grows core contract frame (parse_registration contract frame) conn h
  dispatch-Grows core contract frame (known delete_agent) conn h =
      delete_named-Grows core contract (nonempty_str (get "name" frame)) conn h
  dispatch-Grows core contract frame (known ack) conn h =
      answer_verdict-Grows core frame (parse_verdict contract frame) conn h
  dispatch-Grows core contract frame (known event) conn h = report-Grows _ _ _ conn h
  dispatch-Grows core contract frame (known finish) conn h = report-Grows _ _ _ conn h
  dispatch-Grows core contract frame (known query) conn h = h

  read_parsed-Grows :
      (core : Funduq S) (contract : Contract) (frame : Option Dict) (conn : Conn S)
      → P conn.link.outbound
      → P (read_parsed core contract frame conn).link.outbound
  unfolding read_parsed
  read_parsed-Grows core contract none conn h = put-Grows _ conn h
  read_parsed-Grows core contract (some frame) conn h =
      dispatch-Grows core contract frame (kind_of (get "type" frame)) conn h

  read_loaded-Grows :
      (core : Funduq S) (contract : Contract) (frame : Result (Option Dict)) (conn : Conn S)
      → P conn.link.outbound
      → P (read_loaded core contract frame conn).link.outbound
  unfolding read_loaded
  read_loaded-Grows core contract (raise e) conn h = h
  read_loaded-Grows core contract (ok frame) conn h = read_parsed-Grows core contract frame conn h

  pub read_message-Grows :
      (core : Funduq S) (contract : Contract) (message : Message) (conn : Conn S)
      → P conn.link.outbound
      → P (read_message core contract message conn).link.outbound
  unfolding read_message
  read_message-Grows core contract disconnect conn h = h
  read_message-Grows core contract message conn h =
      read_loaded-Grows core contract (parse_frame message) conn h
