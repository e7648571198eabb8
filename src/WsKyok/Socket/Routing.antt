-- ===== src/WsKyok/Socket/Routing.antt =====
-- Where the items of a message go.
use mathlib.Core.List.{append-nil}
use funduq_server.Prelude.{
  String, Bool, true, false, ◌||◌, ◌≡◌, refl, sym, ◌∙◌, Option, none, some, List, [], ◌∷◌, ◌++◌,
  ◌==◌, eq_iff, if◌then◌else◌, Result, ok, raise, Error, arith, Bool-cases, inl, inr,
}
use funduq_server.Json.{Json, str, Dict, get, dict, as_str, as_list, nonempty_str}
use funduq_server.Funduq.{LlmFunduq, Contract}
use funduq_server.WsCommon.{Message, disconnect, parse_frame, error_frame}
use funduq_server.WsKyok.Link.{Item, put_frame, feed}
use funduq_server.WsKyok.Socket.{
  Conn, register, delete_model, Kind, known, unexpected, unhashable, kind_of, item_of,
  request_error, put, catch, after_register, register_models, read_models, is_bad_metadata,
  after_delete, delete_named, after_feed, answer_request, dispatch, read_parsed, read_loaded,
  read_message,
}

abbrev one : Option Item → List Item
one none = []
one (some item) = item ∷ []

abbrev for_id : String → Option String → Option Item → List Item
for_id id none item = []
for_id id (some request_id) item = if request_id == id then one item else []

-- The items that a frame carries for the completion `id`.
abbrev items_of : String → Dict → Kind → List Item
items_of id frame (known register) = []
items_of id frame (known delete_model) = []
items_of id frame (known kind) = for_id id (as_str (get "requestId" frame)) (item_of kind frame)
items_of id frame _ = []

abbrev items_in : String → Result (Option Dict) → List Item
items_in id (raise e) = []
items_in id (ok none) = []
items_in id (ok (some frame)) = items_of id frame (kind_of (get "type" frame))

abbrev pub addressed : String → Message → List Item
addressed id disconnect = []
addressed id message = items_in id (parse_frame message)

-- Only a completion in flight on this connection gets them.
abbrev pub let_in : Bool → List Item → List Item
let_in true items = items
let_in false items = []

-- The tables of one connection, as far as `id` is concerned, after these items came for it.
pub record Grew {S : Type 0} (id : String) (items : List Item) (before after : Conn S)
    : Type 0 where
  pub queue : after.link.queues id ≡ before.link.queues id ++ let_in (before.link.is_open id) items
  pub same_open : after.link.is_open id ≡ before.link.is_open id
  pub same_over : after.link.is_over id ≡ before.link.is_over id

let_in-nil : (b : Bool) → let_in b [] ≡ []
let_in-nil true = refl
let_in-nil false = refl

module _ {S : Type 0} (id : String) where
  -- a step that leaves the tables alone
  still :
      (before after : Conn S)
      → after.link.queues id ≡ before.link.queues id
      → after.link.is_open id ≡ before.link.is_open id
      → after.link.is_over id ≡ before.link.is_over id
      → Grew id [] before after
  still before after q o v = record {
    queue = q ∙ sym (rw let_in-nil (append-nil (before.link.queues id)));
    same_open = o;
    same_over = v;
  }

  put-Grew : (frame : Dict) (conn : Conn S) → Grew id [] conn (put frame conn)
  unfolding put put_frame
  put-Grew frame conn = still conn (put frame conn) refl refl refl

  catch-Grew :
      (b : Bool) (e : Error) (frame : Dict) (conn : Conn S) → Grew id [] conn (catch b e frame conn)
  unfolding catch
  catch-Grew true e frame conn = put-Grew frame conn
  catch-Grew false e frame conn = still conn _ refl refl refl

  register-Grew :
      (core : LlmFunduq S) (contract : Contract) (metadata : Json) (o : Option (List String))
      (conn : Conn S)
      → Grew id [] conn (register_models core contract metadata o conn)
  unfolding register_models put_frame
  register-Grew core contract metadata none conn = still conn _ refl refl refl
  register-Grew core contract metadata (some models) conn =
      elim (Bool-cases (is_bad_metadata metadata)) [
        | inl bad ↦ rw bad (still conn _ refl refl refl)
        | inr good ↦ rw good (
            published (core.register_llm_providers conn.core conn.id models metadata).0
              (core.register_llm_providers conn.core conn.id models metadata).1)
      ]
    where
      published :
          (r : Result (List String)) (s : S)
          → Grew id [] conn (after_register contract r (record conn { core = s }))
      published (ok names) s = still conn _ refl refl refl
      published (raise e) s =
          let g =
            catch-Grew (contract.is_funduq_error e.class || contract.is_value_error e.class) e
              (error_frame e.text) (record conn { core = s }) in
          record { queue = g.queue; same_open = g.same_open; same_over = g.same_over }

  delete-Grew :
      (core : LlmFunduq S) (contract : Contract) (o : Option String) (conn : Conn S)
      → Grew id [] conn (delete_named core contract o conn)
  unfolding delete_named put_frame
  delete-Grew core contract none conn = still conn _ refl refl refl
  delete-Grew core contract (some name) conn =
      deleted (core.delete_llm_offering conn.core conn.id name).0
        (core.delete_llm_offering conn.core conn.id name).1
    where
      deleted :
          (r : Result (Unit {0})) (s : S)
          → Grew id [] conn (after_delete contract name r (record conn { core = s }))
      deleted (ok _) s = still conn _ refl refl refl
      deleted (raise e) s =
          let g =
            catch-Grew (contract.is_funduq_error e.class) e
              (dict (("type", str "error") ∷ ("name", str name) ∷ ("message", str e.text) ∷ []))
              (record conn { core = s }) in
          record { queue = g.queue; same_open = g.same_open; same_over = g.same_over }

  -- The heart of it: `feed` looks the id up in this connection's table.
  feed-Grew :
      (request_id : String) (item : Item) (conn : Conn S)
      → Grew id
          (if request_id == id then item ∷ [] else [])
          conn
          (after_feed request_id (feed request_id item conn.link) conn)
  unfolding after_feed feed put_frame
  feed-Grew request_id item conn = record {
    queue = ground (arith, eq_iff request_id id, append-nil (conn.link.queues id));
    same_open = ground arith;
    same_over = ground arith;
  }

  answer-Grew :
      (o : Option String) (item : Option Item) (conn : Conn S)
      → Grew id (for_id id o item) conn (answer_request o item conn)
  unfolding answer_request put_frame
  answer-Grew none item conn = put-Grew (error_frame "frame needs a requestId") conn
  answer-Grew (some request_id) none conn =
      let g = put-Grew (request_error request_id "chunk data must be an object") conn in
      elim (Bool-cases (request_id == id)) [ inl same ↦ rw same g | inr other ↦ rw other g ]
  answer-Grew (some request_id) (some item) conn = feed-Grew request_id item conn

  dispatch-Grew :
      (core : LlmFunduq S) (contract : Contract) (frame : Dict) (kind : Kind) (conn : Conn S)
      → Grew id (items_of id frame kind) conn (dispatch core contract frame kind conn)
  unfolding dispatch
  dispatch-Grew core contract frame unexpected conn = put-Grew _ conn
  dispatch-Grew core contract frame unhashable conn = still conn _ refl refl refl
  dispatch-Grew core contract frame (known register) conn =
      register-Grew core contract (get "metadata" frame)
        (read_models (as_list (get "models" frame))) conn
  dispatch-Grew core contract frame (known delete_model) conn =
      delete-Grew core contract (nonempty_str (get "name" frame)) conn
  dispatch-Grew core contract frame (known kind) conn =
      answer-Grew (as_str (get "requestId" frame)) (item_of kind frame) conn

  parsed-Grew :
      (core : LlmFunduq S) (contract : Contract) (o : Option Dict) (conn : Conn S)
      → Grew id (items_in id (ok o)) conn (read_parsed core contract o conn)
  unfolding read_parsed
  parsed-Grew core contract none conn = put-Grew _ conn
  parsed-Grew core contract (some frame) conn =
      dispatch-Grew core contract frame (kind_of (get "type" frame)) conn

  loaded-Grew :
      (core : LlmFunduq S) (contract : Contract) (frame : Result (Option Dict)) (conn : Conn S)
      → Grew id (items_in id frame) conn (read_loaded core contract frame conn)
  unfolding read_loaded
  loaded-Grew core contract (raise e) conn = still conn _ refl refl refl
  loaded-Grew core contract (ok frame) conn = parsed-Grew core contract frame conn

  -- Whatever message a connection reads, the queue of each completion gets exactly the items that
  -- the message addresses to it, at the end, and only if the completion is in flight on that very
  -- connection; no message opens, closes or ends a completion.
  pub read_message-Grew :
      (core : LlmFunduq S) (contract : Contract) (message : Message) (conn : Conn S)
      → Grew id (addressed id message) conn (read_message core contract message conn)
  unfolding read_message
  read_message-Grew core contract disconnect conn = still conn _ refl refl refl
  read_message-Grew core contract message conn =
      loaded-Grew core contract (parse_frame message) conn
