-- ===== src/Wire/Completion.antt =====
-- A completion from the core's request down the KYOK socket, through the bridge's handler, and
-- back as the answer stream that the core reads.
use funduq_server.Prelude.{String, some, List, [], ◌∷◌, ◌++◌, map, if◌then◌else◌}
use funduq_server.Json.{Json, Dict, str, obj, dict, merge, truthy}
use funduq_server.Funduq.{LlmFunduq, Contract}
use funduq_server.WsCommon.{text}
use funduq_server.WsKyok.Link.{Item, chunk, done, refused, broken}
use funduq_server.WsKyok.Socket.{Conn, read_message}
use funduq_server.WsKyok.Socket.Routing.{addressed}
use funduq_server.KyokBridge.Completion.{Ending, finished, refuses, fails, Stream}

-- The frame that `complete` queues for a request.
abbrev pub request_frame : String → Dict → Dict
request_frame request_id request =
    merge (dict (("type", str "completionRequest") ∷ ("requestId", str request_id) ∷ [])) request

-- The bridge's socket gives the frames to the server in order.
abbrev pub read_all : {S : Type 0} → LlmFunduq S → Contract → List Dict → Conn S → Conn S
read_all core contract [] conn = conn
read_all core contract (frame ∷ rest) conn =
    read_all core contract rest (read_message core contract (text (some (obj frame))) conn)

-- What each part of the handler's stream is for the server.
abbrev item_of_ending : Ending → Item
item_of_ending finished = done
item_of_ending (refuses refusal) = refused refusal
item_of_ending (fails message) =
    broken (if truthy (str message) then str message else str "LLM provider reported an error")

abbrev sent_items : Stream → List Item
sent_items stream = map chunk stream.chunks ++ item_of_ending stream.ending ∷ []

module _ {S : Type 0} (core : LlmFunduq S) (contract : Contract) (id : String) where
  abbrev come : List Dict → List Item
  come [] = []
  come (frame ∷ rest) = addressed id (text (some (obj frame))) ++ come rest
