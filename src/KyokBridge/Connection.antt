-- ===== src/KyokBridge/Connection.antt =====
-- `_serve_connection` after the handshake, with `deregister`. Each completion is a task of its own,
-- which puts one frame at a time on the queue of the socket; the tasks take turns in any order. A
-- request's id is a text, as souk sends it; any other value is read here as a missing one.
pub mod Turns
pub mod Serving
use Prim.Native.Nat.{zero}
use funduq_server.Prelude.{
  ℕ, suc, String, Bool, true, false, Option, none, some, List, [], ◌∷◌, ◌++◌, if◌then◌else◌, Result,
  ok, raise, ErrorClass,
}
use funduq_server.Json.{Json, str, Dict, get, lookup, dict}
use funduq_server.Funduq.{Validation}
use funduq_server.WsCommon.{is_type}
use funduq_server.KyokBridge.Completion.{Stream, serve_one}

-- A task of `_serve_one`: its request, and the frames that it has still to put.
pub record Running : Type 0 where
  pub request_id : String
  pub rest : List Dict

pub record Bridge : Type 0 where
  pub attached : Bool
  pub is_deleted : Bool
  pub outbound : List Dict
  pub in_flight : List Running

-- The bridge as a connection is attached.
abbrev pub attach : Bool → Bridge
attach is_deleted = record {
  attached = true;
  is_deleted = is_deleted;
  outbound = [];
  in_flight = [];
}

put_next : Running → List Dict → List Running → List Dict × List Running
put_next task [] others = ([], others)
put_next task (frame ∷ rest) others = (frame ∷ [], record task { rest = rest } ∷ others)

-- One turn of the task at this place: the frame that it puts, or its end.
unfoldable pub advance : ℕ → List Running → List Dict × List Running
unfolding put_next
advance n [] = ([], [])
advance zero (task ∷ others) = put_next task task.rest others
advance (suc n) (task ∷ others) =
    let (frames, others') = advance n others in (frames, task ∷ others')

-- What can happen on a connection between two awaits.
pub data Happening : Type 0 where
  received : Dict → Happening
  turn : ℕ → Happening
  deregistered : Happening

unfoldable pub text_id : Option Json → Option String
text_id (some (str id)) = some id
text_id _ = none

module _ {Delivered : Type 0} (validate : Dict → Validation Delivered)
    (handler : Delivered → Stream) (offering : String) where
  begin_task : Dict → Bridge → Option String → Result Bridge
  begin_task frame b none = raise (record { class = ErrorClass.key_error; text = "'requestId'" })
  begin_task frame b (some id) = ok (record b {
    in_flight =
        b.in_flight ++ record { request_id = id; rest = serve_one validate handler id frame } ∷ [];
  })

  -- the body of the loop over the frames
  unfoldable pub read_frame : Dict → Bridge → Result Bridge
  unfolding begin_task text_id
  read_frame frame b =
      if is_type "completionRequest" (get "type" frame)
      then begin_task frame b (text_id (lookup "requestId" frame))
      else if is_type "deleted" (get "type" frame)
      then ok (record b { is_deleted = true })
      else ok b

  withdraw : Bridge → Bool → Bridge
  withdraw b false = b
  withdraw b true = record b {
    is_deleted = false;
    outbound = b.outbound ++ dict (("type", str "deleteModel") ∷ ("name", str offering) ∷ []) ∷ [];
  }

  -- `deregister` up to its wait, on an open link
  unfoldable pub deregister : Bridge → Bridge
  unfolding withdraw
  deregister b = withdraw b b.attached

  after_turn : Bridge → List Dict × List Running → Bridge
  after_turn b (frames, in_flight) = record b {
    outbound = b.outbound ++ frames;
    in_flight = in_flight;
  }

  unfoldable pub happen : Happening → Bridge → Result Bridge
  unfolding read_frame deregister after_turn
  happen (received frame) b = read_frame frame b
  happen (turn n) b = ok (after_turn b (advance n b.in_flight))
  happen deregistered b = ok (deregister b)

  or_break : Bridge → (Bridge → Bridge) → Result Bridge → Bridge
  or_break b next (ok b') = next b'
  or_break b next (raise e) = b

  -- The happenings of one connection, up to the first that raises.
  unfoldable pub happenings : List Happening → Bridge → Bridge
  unfolding happen or_break
  happenings [] b = b
  happenings (h ∷ rest) b = or_break b (happenings rest) (happen h b)

  -- the `finally`: the link is gone, and the tasks in flight are cancelled
  unfoldable pub drop_link : Bridge → Bridge
  drop_link b = record b { attached = false; outbound = []; in_flight = [] }
