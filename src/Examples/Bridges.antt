-- ===== src/Examples/Bridges.antt =====
-- A bridge in the small world: its opening and its completions; and a run that is relayed.
use funduq_server.Prelude.{◌≡◌, refl, String, List, [], ◌∷◌, ◌++◌, none, some, false}
use funduq_server.Json.{null, obj, str, Dict, dict}
use funduq_server.WsCommon.{text, Loop}
use funduq_server.WsKyok.Link.{put_frame, new_link}
use funduq_server.WsKyok.Socket.{Conn, read_message}
use funduq_server.WsKyok.Session.{opened, welcome, open_socket}
use funduq_server.KyokBridge.Handshake.{
  go, hello_frame, check_welcome, register_frame, check_registered,
}
use funduq_server.Funduq.{valid}
use funduq_server.KyokBridge.Completion.{Stream, finished, serve_one}
use funduq_server.KyokBridge.Connection.{
  Happening, received, turn, deregistered, attach, happenings,
}
use funduq_server.KyokBridge.Connection.Turns.{frames_for, rest_for}
use funduq_server.KyokBridge.Connection.Serving.{Idle, happenings-serve_one}
use funduq_server.OpenaiCompat.{
  Sse, sentinel, run_started, text_message_start, text_message_content, text_message_end,
  run_finished, run_stream,
}
use funduq_server.OpenaiCompat.Brackets.{run_stream-told}
use funduq_server.Wire.Bridge.{greeted, bridge-opens, bridge-registers}
use funduq_server.Examples.{Journal, toy_llm_core, toy_contract, toy_keys}

bridge-opens_example :
    (open_socket toy_llm_core toy_contract 0 []
        (some (text (some (obj (hello_frame toy_keys "tk" "souk" "nc")))))
      ≡ opened (greeted 0 ("attach" ∷ []) "pk" (welcome "souk" "counter-signed")))
    × (check_welcome toy_keys "tk" "souk" "nc" (welcome "souk" "counter-signed") ≡ go tt)
bridge-opens_example =
    bridge-opens toy_llm_core toy_contract 0 [] ("attach" ∷ []) toy_keys "tk" "souk" "nc"
      "counter-signed" refl refl refl refl refl

abbrev fresh : Conn Journal
fresh = record { id = 0; core = []; link = new_link "pk"; loop = Loop.running }

bridge-registers_example :
    (echo : Dict) × (read_message toy_llm_core toy_contract
        (text (some (obj (register_frame "kyok"))))
        fresh
      ≡ record fresh { core = "register" ∷ []; link = put_frame echo fresh.link })
    × (check_registered "kyok" echo ≡ go tt)
bridge-registers_example =
    bridge-registers toy_llm_core toy_contract fresh ("register" ∷ []) "kyok" ("kyok" ∷ []) refl
      refl

abbrev echo_handler : Dict → Stream
echo_handler d = record { chunks = d ∷ d ∷ []; ending = finished }

abbrev request : String → Dict
request id =
    dict (("type", str "completionRequest") ∷ ("requestId", str id) ∷ ("body", str "hi") ∷ [])

-- Two completions at once, taking turns.
abbrev turns : List Happening
turns = turn 0 ∷ received (request "c2") ∷ turn 1 ∷ deregistered ∷ turn 0 ∷ turn 1 ∷ []

idle : Idle "c1" (attach false)
idle = record { own = tt; free = tt; quiet = refl }

happenings-serve_one_example :
    (let b =
        happenings {Delivered = Dict} valid echo_handler "kyok"
          (received (request "c1") ∷ turns)
          (attach false) in
      frames_for "c1" b.outbound ++ rest_for "c1" b.in_flight
      ≡ serve_one {Delivered = Dict} valid echo_handler "c1" (request "c1"))
happenings-serve_one_example =
    happenings-serve_one {Delivered = Dict} valid echo_handler "kyok" "c1" (request "c1") turns
      (attach false) refl refl refl idle

abbrev spoken : List Sse
spoken = Sse.chunk (str "" ∷ str "Hel" ∷ []) ∷ Sse.chunk (null ∷ str "lo" ∷ []) ∷ sentinel ∷ []

run_stream-told_example : run_stream spoken none ≡ (
    run_started
    ∷ text_message_start
    ∷ text_message_content (str "Hel")
    ∷ text_message_content (str "lo")
    ∷ text_message_end
    ∷ run_finished
    ∷ [])
run_stream-told_example = run_stream-told spoken none
