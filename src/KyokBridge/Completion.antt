-- ===== src/KyokBridge/Completion.antt =====
-- `_serve_one`: the frames that answer one completion request. What the handler's stream does is
-- the handler's: the chunks that it gives, each as the dict that `_to_chunk_dict` makes, and how
-- it ends.
pub mod Own
use funduq_server.Prelude.{String, List, [], ◌∷◌, ◌++◌, map}
use funduq_server.Json.{Dict, str, obj, dict, without}
use funduq_server.Funduq.{Validation, valid, invalid}

-- The end of a stream: it is exhausted, it raises `CompletionRefused`, or it raises anything else.
-- A cancelled task is the end of the connection, where nothing more is sent.
pub data Ending : Type 0 where
  finished : Ending
  refuses : Dict → Ending
  fails : String → Ending

pub record Stream : Type 0 where
  pub chunks : List Dict
  pub ending : Ending

abbrev pub chunk_frame : String → Dict → Dict
chunk_frame request_id data_ =
    dict (("type", str "chunk") ∷ ("requestId", str request_id) ∷ ("data", obj data_) ∷ [])

unfoldable pub ending_frame : String → Ending → Dict
ending_frame request_id finished = dict (("type", str "done") ∷ ("requestId", str request_id) ∷ [])
ending_frame request_id (refuses refusal) = dict (
    ("type", str "error")
    ∷ ("requestId", str request_id)
    ∷ ("message", str "refused by the LLM provider")
    ∷ ("refusal", obj refusal)
    ∷ [])
ending_frame request_id (fails message) =
    dict (("type", str "error") ∷ ("requestId", str request_id) ∷ ("message", str message) ∷ [])

-- `payload`: the frame without the transport's own keys
unfoldable pub payload : Dict → Dict
payload frame = without "requestId" (without "type" frame)

module _ {Delivered : Type 0} (validate : Dict → Validation Delivered)
    (handler : Delivered → Stream) where
  answer_valid : String → Validation Delivered → List Dict
  unfolding ending_frame
  answer_valid request_id (invalid e) =
      dict (
        ("type", str "error")
        ∷ ("requestId", str request_id)
        ∷ ("message", str "malformed completionRequest")
        ∷ [])
      ∷ []
  answer_valid request_id (valid delivered) =
      map (chunk_frame request_id) (handler delivered).chunks
      ++ ending_frame request_id (handler delivered).ending ∷ []

  unfoldable pub serve_one : String → Dict → List Dict
  unfolding answer_valid payload
  serve_one request_id frame = answer_valid request_id (validate (payload frame))
