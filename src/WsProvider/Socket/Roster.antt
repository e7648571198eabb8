-- ===== src/WsProvider/Socket/Roster.antt =====
-- The roster of the link, and the one that the frames of one message tell the provider.
use mathlib.Core.List.{foldl, foldl-append}
use funduq_server.Prelude.{
  String, Bool, true, false, not, ◌≡◌, refl, ◌∙◌, ap, Option, none, some, List, [], ◌∷◌, ◌++◌, map,
  keep, ◌==◌, ◌||◌, Error, if◌then◌else◌, Result, ok, raise,
}
use funduq_server.Json.{Json, Dict, str, arr, of_list, to_list, get, dict, nonempty_str}
use funduq_server.Text.{sorted}
use funduq_server.Funduq.{Funduq, Contract, valid, invalid, Registration, Validation, Verdict}
use funduq_server.WsCommon.{Message, disconnect, parse_frame, is_type, error_frame}
use funduq_server.WsProvider.Link.{
  put_frame, discard_name, declare_interjections, takes_interjections,
}
use funduq_server.WsProvider.Registration.{parse_registration}
use funduq_server.WsProvider.Verdict.{parse_verdict}
use funduq_server.WsProvider.Socket.{
  Conn, register, delete_agent, ack, event, finish, query, Kind, known, unexpected, unhashable, put,
  catch, registered, after_register, register_agents, after_delete, delete_named, answer_verdict,
  report, dispatch, read_parsed, read_loaded, read_message, kind_of,
}

abbrev texts : List Json → List String
texts [] = []
texts (str s ∷ rest) = s ∷ texts rest
texts (_ ∷ rest) = texts rest

abbrev names_of : Json → List String
names_of (arr items) = texts (to_list items)
names_of _ = []

abbrev name_of : Json → String
name_of (str s) = s
name_of _ = ""

-- What one frame tells a provider that believed `names` to be listed.
abbrev pub hear : List String → Dict → List String
hear names frame =
    if is_type "registered" (get "type" frame)
    then names_of (get "names" frame)
    else if is_type "deleted" (get "type" frame)
    then keep (λ n. not (n == name_of (get "name" frame))) names
    else names

-- What the frames have told it.
abbrev pub told : List Dict → List String
told = foldl hear []

-- A frame of neither type.
abbrev pub IsSilent : Dict → Type 0
IsSilent frame =
    (is_type "registered" (get "type" frame) ≡ false)
    × (is_type "deleted" (get "type" frame) ≡ false)

hear-IsSilent : (names : List String) (frame : Dict) → IsSilent frame → hear names frame ≡ names
hear-IsSilent names frame h = rw (h.0, h.1)

pub told-IsSilent :
    (frames : List Dict) (frame : Dict) → IsSilent frame → told (frames ++ frame ∷ []) ≡ told frames
told-IsSilent frames frame silent = rw foldl-append (hear-IsSilent (told frames) frame silent)

texts-map-str : (ns : List String) → texts (to_list (of_list (map str ns))) ≡ ns
texts-map-str [] = refl
texts-map-str (n ∷ ns) = ap (λ (r : List String). n ∷ r) (texts-map-str ns)

module _ {S : Type 0} where
  abbrev pub IsTold : Conn S → Type 0
  IsTold conn = told conn.link.outbound ≡ conn.link.registered_names

  pub put-IsTold :
      (frame : Dict) (conn : Conn S) → IsSilent frame → IsTold conn → IsTold (put frame conn)
  unfolding put put_frame
  put-IsTold frame conn silent h = told-IsSilent conn.link.outbound frame silent ∙ h

  catch-IsTold :
      (b : Bool) (e : Error) (frame : Dict) (conn : Conn S)
      → IsSilent frame
      → IsTold conn
      → IsTold (catch b e frame conn)
  unfolding catch
  catch-IsTold true e frame conn silent h = put-IsTold frame conn silent h
  catch-IsTold false e frame conn silent h = h

  registered-IsTold : (names : List String) (conn : Conn S) → IsTold (registered names conn)
  unfolding registered put_frame
  registered-IsTold names conn = rw foldl-append (texts-map-str (sorted names))

  register_agents-IsTold :
      (core : Funduq S) (contract : Contract) (frame : Dict) (r : Result (List Registration))
      (conn : Conn S)
      → IsTold conn
      → IsTold (register_agents core contract frame r conn)
  unfolding register_agents declare_interjections
  register_agents-IsTold core contract frame (raise e) conn h =
      put-IsTold (error_frame e.text) conn (refl, refl) h
  register_agents-IsTold core contract frame (ok agents) conn h =
      let link = declare_interjections agents conn.link in
      let (r, s) =
        core.register_agents conn.core conn.id (takes_interjections link) agents
          (get "providerName" frame) in
      after r (record conn { link = link; core = s }) h
    where
      after :
          (r : Result (List String)) (conn : Conn S)
          → IsTold conn
          → IsTold (after_register contract r conn)
      after (ok names) conn h = registered-IsTold names conn
      after (raise e) conn h =
          catch-IsTold (contract.is_funduq_error e.class || contract.is_value_error e.class) e
            (error_frame e.text) conn (refl, refl) h

  after_delete-IsTold :
      (contract : Contract) (name : String) (r : Result (Unit {0})) (conn : Conn S)
      → IsTold conn
      → IsTold (after_delete contract name r conn)
  unfolding after_delete put_frame discard_name
  after_delete-IsTold contract name (ok _) conn h =
      rw foldl-append (ap (keep (λ n. not (n == name))) h)
  after_delete-IsTold contract name (raise e) conn h =
      catch-IsTold (contract.is_funduq_error e.class) e _ conn (refl, refl) h

  report-IsTold :
      (run_id : Json) (message : String) (r : Result Bool × S) (conn : Conn S)
      → IsTold conn
      → IsTold (report run_id message r conn)
  unfolding report
  report-IsTold run_id message (raise e, s) conn h = h
  report-IsTold run_id message (ok true, s) conn h = h
  report-IsTold run_id message (ok false, s) conn h =
      put-IsTold (dict (("type", str "error") ∷ ("runId", run_id) ∷ ("message", str message) ∷ []))
        (record conn { core = s }) (refl, refl) h

  delete_named-IsTold :
      (core : Funduq S) (contract : Contract) (name : Option String) (conn : Conn S)
      → IsTold conn
      → IsTold (delete_named core contract name conn)
  unfolding delete_named
  delete_named-IsTold core contract none conn h = put-IsTold _ conn (refl, refl) h
  delete_named-IsTold core contract (some name) conn h =
      let (r, s) = core.delete_agent conn.core conn.id name in
      after_delete-IsTold contract name r (record conn { core = s }) h

  answer_verdict-IsTold :
      (core : Funduq S) (frame : Dict) (v : Validation Verdict) (conn : Conn S)
      → IsTold conn
      → IsTold (answer_verdict core frame v conn)
  unfolding answer_verdict
  answer_verdict-IsTold core frame (invalid e) conn h = put-IsTold _ conn (refl, refl) h
  answer_verdict-IsTold core frame (valid verdict) conn h = h

  dispatch-IsTold :
      (core : Funduq S) (contract : Contract) (frame : Dict) (kind : Kind) (conn : Conn S)
      → IsTold conn
      → IsTold (dispatch core contract frame kind conn)
  unfolding dispatch
  dispatch-IsTold core contract frame unexpected conn h = put-IsTold _ conn (refl, refl) h
  dispatch-IsTold core contract frame unhashable conn h = h
  dispatch-IsTold core contract frame (known register) conn h =
      register_agents-IsTold core contract frame (parse_registration contract frame) conn h
  dispatch-IsTold core contract frame (known delete_agent) conn h =
      delete_named-IsTold core contract (nonempty_str (get "name" frame)) conn h
  dispatch-IsTold core contract frame (known ack) conn h =
      answer_verdict-IsTold core frame (parse_verdict contract frame) conn h
  dispatch-IsTold core contract frame (known event) conn h = report-IsTold _ _ _ conn h
  dispatch-IsTold core contract frame (known finish) conn h = report-IsTold _ _ _ conn h
  dispatch-IsTold core contract frame (known query) conn h = h

  read_parsed-IsTold :
      (core : Funduq S) (contract : Contract) (frame : Option Dict) (conn : Conn S)
      → IsTold conn
      → IsTold (read_parsed core contract frame conn)
  unfolding read_parsed
  read_parsed-IsTold core contract none conn h = put-IsTold _ conn (refl, refl) h
  read_parsed-IsTold core contract (some frame) conn h =
      dispatch-IsTold core contract frame (kind_of (get "type" frame)) conn h

  read_loaded-IsTold :
      (core : Funduq S) (contract : Contract) (frame : Result (Option Dict)) (conn : Conn S)
      → IsTold conn
      → IsTold (read_loaded core contract frame conn)
  unfolding read_loaded
  read_loaded-IsTold core contract (raise e) conn h = h
  read_loaded-IsTold core contract (ok frame) conn h = read_parsed-IsTold core contract frame conn h

  pub read_message-IsTold :
      (core : Funduq S) (contract : Contract) (message : Message) (conn : Conn S)
      → IsTold conn
      → IsTold (read_message core contract message conn)
  unfolding read_message
  read_message-IsTold core contract disconnect conn h = h
  read_message-IsTold core contract message conn h =
      read_loaded-IsTold core contract (parse_frame message) conn h
