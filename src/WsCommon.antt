-- ===== src/WsCommon.antt =====
-- souk_server/ws_common.py: the frames that both sockets share. A text message is modelled by what
-- `json.loads` makes of it: the JSON value that it stands for, `none` for a `JSONDecodeError`, or
-- any other exception, as of too long a number or too deep a nesting.
use funduq_server.Prelude.{
  ℕ, String, Bool, false, Option, none, some, List, [], ◌∷◌, ◌==◌, Error, if◌then◌else◌, Result, ok,
  raise,
}
use funduq_server.Json.{Json, Dict, str, int, pos, get, dict, as_dict}

pub data Message : Type 0 where
  disconnect : Message
  binary : Message
  text : Option Json → Message
  unloadable : Error → Message

abbrev pub policy_violation : ℕ
policy_violation = 1008

abbrev pub close_type : String
close_type = "_close"

abbrev pub close_frame : ℕ → String → Dict
close_frame code reason =
    dict (("type", str close_type) ∷ ("code", int (pos code)) ∷ ("reason", str reason) ∷ [])

abbrev pub error_frame : String → Dict
error_frame message = dict (("type", str "error") ∷ ("message", str message) ∷ [])

abbrev pub loaded : Option Json → Option Dict
loaded none = none
loaded (some j) = as_dict j

unfoldable pub parse_frame : Message → Result (Option Dict)
parse_frame disconnect = ok none
parse_frame binary = ok none
parse_frame (text t) = ok (loaded t)
parse_frame (unloadable e) = raise e

abbrev pub is_type : String → Json → Bool
is_type name (str s) = s == name
is_type name _ = false

-- How the wait for `hello` ended: a frame to go on with, a close with its reason, a peer that has
-- gone, or an exception that nothing caught. `none` for the message is the five-second timeout.
pub data Hello : Type 0 where
  proceed : Dict → Hello
  refuse : String → Hello
  gone : Hello
  raised : Error → Hello

unfoldable pub check_hello : Result (Option Dict) → Hello
check_hello (raise e) = raised e
check_hello (ok none) = refuse "first frame must be hello"
check_hello (ok (some frame)) =
    if is_type "hello" (get "type" frame) then proceed frame else refuse "first frame must be hello"

unfoldable pub receive_hello : Option Message → Hello
unfolding check_hello parse_frame
receive_hello none = refuse "no hello frame"
receive_hello (some disconnect) = gone
receive_hello (some message) = check_hello (parse_frame message)

-- How a read loop stands: `ended` by a disconnect, `failed` by an exception that nothing caught.
pub data Loop : Type 0 where
  running ended : Loop
  failed : Error → Loop

-- What the writer does with the socket.
pub data Sent : Type 0 where
  send : Dict → Sent
  close : Json → Json → Sent

-- The frames of the queue in order, up to the first close.
unfoldable pub write_loop : List Dict → List Sent
write_loop [] = []
write_loop (frame ∷ rest) =
    let later = write_loop rest in
    if is_type close_type (get "type" frame)
    then close (get "code" frame) (get "reason" frame) ∷ []
    else send frame ∷ later
