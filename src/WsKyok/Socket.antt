-- ===== src/WsKyok/Socket.antt =====
-- `kyok_socket`: one connection of an LLM provider, and its read loop.
pub mod Routing
use Prim.Native.String.{◌++◌}
use funduq_server.Prelude.{
  ℕ, String, Bool, true, false, ◌||◌, Option, none, some, List, [], ◌∷◌, map, ◌==◌, if◌then◌else◌,
  Result, ok, raise, Error, ErrorClass,
}
use funduq_server.Text.{sorted}
use funduq_server.Json.{
  Json, null, str, arr, obj, of_list, Dict, get, dict, truthy, nonempty_str, as_list, as_dict,
  as_str,
}
use funduq_server.Funduq.{LlmFunduq, Contract}
use funduq_server.WsCommon.{
  Message, Loop, running, ended, failed, disconnect, parse_frame, error_frame,
}
use funduq_server.WsKyok.Link.{Link, Item, chunk, done, refused, broken, put_frame, feed}

pub record Conn (S : Type 0) : Type 0 where
  pub id : ℕ
  pub core : S
  pub link : Link
  pub loop : Loop

-- `INBOUND_FRAME_TYPES`
pub data Inbound : Type 0 where
  register delete_model chunk_frame done_frame error_report : Inbound

unfoldable pub inbound_type : String → Option Inbound
inbound_type name =
    if name == "register"
    then some register
    else if name == "deleteModel"
    then some delete_model
    else if name == "chunk"
    then some chunk_frame
    else if name == "done"
    then some done_frame
    else if name == "error"
    then some error_report
    else none

pub data Kind : Type 0 where
  known : Inbound → Kind
  unexpected unhashable : Kind

as_kind : Option Inbound → Kind
as_kind none = unexpected
as_kind (some k) = known k

unfoldable pub kind_of : Json → Kind
unfolding as_kind inbound_type
kind_of (str name) = as_kind (inbound_type name)
kind_of (arr _) = unhashable
kind_of (obj _) = unhashable
kind_of _ = unexpected

abbrev cons_name : Option String → Option (List String) → Option (List String)
cons_name none rest = none
cons_name (some m) none = none
cons_name (some m) (some ms) = some (m ∷ ms)

-- `all(isinstance(m, str) and m for m in models)`
all_names : List Json → Option (List String)
all_names [] = some []
all_names (j ∷ js) = cons_name (nonempty_str j) (all_names js)

-- the `models` of a register frame: a list that is not empty, of texts that are not
read_models : Option (List Json) → Option (List String)
unfolding all_names
read_models none = none
read_models (some []) = none
read_models (some (j ∷ js)) = all_names (j ∷ js)

-- `metadata is not None and not isinstance(metadata, dict)`
is_bad_metadata : Json → Bool
is_bad_metadata null = false
is_bad_metadata (obj _) = false
is_bad_metadata _ = true

abbrev pub request_error : String → String → Dict
request_error request_id message =
    dict (("type", str "error") ∷ ("requestId", str request_id) ∷ ("message", str message) ∷ [])

abbrev pub no_such_completion : String
no_such_completion = "no such in-flight completion on this connection"

-- the exception that an error frame stands for
abbrev error_item : Json → Json → Item
error_item (obj refusal) message = refused refusal
error_item _ message =
    broken (if truthy message then message else str "LLM provider reported an error")

-- What a frame of a request feeds to its completion: `none` for a chunk whose data is no object.
unfoldable pub item_of : Inbound → Dict → Option Item
item_of chunk_frame frame = go (as_dict (get "data" frame))
  where
    go : Option Dict → Option Item
    go none = none
    go (some d) = some (chunk d)
item_of done_frame frame = some done
item_of _ frame = some (error_item (get "refusal" frame) (get "message" frame))

module _ {S : Type 0} where
  put : Dict → Conn S → Conn S
  unfolding put_frame
  put frame conn = record conn { link = put_frame frame conn.link }

  catch : Bool → Error → Dict → Conn S → Conn S
  unfolding put
  catch true e frame conn = put frame conn
  catch false e frame conn = record conn { loop = failed e }

  unfoldable pub after_register : Contract → Result (List String) → Conn S → Conn S
  unfolding put catch
  after_register contract (ok names) conn =
      put
        (dict (("type", str "registered") ∷ ("names", arr (of_list (map str (sorted names)))) ∷ []))
        conn
  after_register contract (raise e) conn =
      catch (contract.is_funduq_error e.class || contract.is_value_error e.class) e
        (error_frame e.text) conn

  unfoldable pub register_models :
      LlmFunduq S → Contract → Json → Option (List String) → Conn S → Conn S
  unfolding after_register is_bad_metadata
  register_models core contract metadata none conn =
      put (error_frame "register needs a non-empty 'models' list of strings") conn
  register_models core contract metadata (some models) conn =
      let (r, s) = core.register_llm_providers conn.core conn.id models metadata in
      let published = after_register contract r (record conn { core = s }) in
      if is_bad_metadata metadata
      then put (error_frame "metadata must be an object") conn
      else published

  after_delete : Contract → String → Result (Unit {0}) → Conn S → Conn S
  unfolding put catch
  after_delete contract name (ok _) conn =
      put (dict (("type", str "deleted") ∷ ("name", str name) ∷ [])) conn
  after_delete contract name (raise e) conn =
      catch (contract.is_funduq_error e.class) e
        (dict (("type", str "error") ∷ ("name", str name) ∷ ("message", str e.text) ∷ [])) conn

  delete_named : LlmFunduq S → Contract → Option String → Conn S → Conn S
  unfolding after_delete
  delete_named core contract none conn = put (error_frame "deleteModel needs a name") conn
  delete_named core contract (some name) conn =
      let (r, s) = core.delete_llm_offering conn.core conn.id name in
      after_delete contract name r (record conn { core = s })

  -- a frame of a request, after `feed` has said whether the completion is in flight here
  after_feed : String → Link × Bool → Conn S → Conn S
  unfolding put
  after_feed request_id (link, true) conn = record conn { link = link }
  after_feed request_id (link, false) conn =
      put (request_error request_id no_such_completion) (record conn { link = link })

  feed_item : String → Option Item → Conn S → Conn S
  unfolding after_feed
  feed_item request_id none conn =
      put (request_error request_id "chunk data must be an object") conn
  feed_item request_id (some item) conn =
      after_feed request_id (feed request_id item conn.link) conn

  answer_request : Option String → Option Item → Conn S → Conn S
  unfolding feed_item
  answer_request none item conn = put (error_frame "frame needs a requestId") conn
  answer_request (some request_id) item conn = feed_item request_id item conn

  dispatch : LlmFunduq S → Contract → Dict → Kind → Conn S → Conn S
  unfolding put register_models delete_named answer_request read_models
  dispatch core contract frame unexpected conn =
      put (error_frame ("unknown frame type " ++ contract.repr (get "type" frame))) conn
  dispatch core contract frame unhashable conn = record conn {
    loop = failed (record { class = ErrorClass.type_error; text = "unhashable type" });
  }
  dispatch core contract frame (known register) conn =
      register_models core contract (get "metadata" frame)
        (read_models (as_list (get "models" frame))) conn
  dispatch core contract frame (known delete_model) conn =
      delete_named core contract (nonempty_str (get "name" frame)) conn
  dispatch core contract frame (known kind) conn =
      answer_request (as_str (get "requestId" frame)) (item_of kind frame) conn

  read_parsed : LlmFunduq S → Contract → Option Dict → Conn S → Conn S
  unfolding dispatch
  read_parsed core contract none conn = put (error_frame "unparseable frame") conn
  read_parsed core contract (some frame) conn =
      dispatch core contract frame (kind_of (get "type" frame)) conn

  read_loaded : LlmFunduq S → Contract → Result (Option Dict) → Conn S → Conn S
  unfolding read_parsed
  read_loaded core contract (raise e) conn = record conn { loop = failed e }
  read_loaded core contract (ok frame) conn = read_parsed core contract frame conn

  unfoldable pub read_message : LlmFunduq S → Contract → Message → Conn S → Conn S
  unfolding read_loaded
  read_message core contract disconnect conn = record conn { loop = ended }
  read_message core contract message conn = read_loaded core contract (parse_frame message) conn
