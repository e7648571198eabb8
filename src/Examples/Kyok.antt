-- ===== src/Examples/Kyok.antt =====
-- One connection of an LLM provider in the small world.
use funduq_server.Prelude.{String, ◌≡◌, refl, List, [], ◌∷◌, ◌++◌, some, true, false, arith}
use funduq_server.Json.{str, obj, Dict, dict}
use funduq_server.WsCommon.{Message, text, Loop, parse_frame}
use funduq_server.WsKyok.Link.{
  Link, complete, new_link, chunk, done, broken, yields, raises, fail_pending,
}
use funduq_server.WsKyok.Link.Drain.{drain, fail_pending-drain}
use funduq_server.WsKyok.Socket.{Conn, read_message, kind_of, item_of}
use funduq_server.WsKyok.Socket.Routing.{Grew, read_message-Grew}
use funduq_server.WsKyok.Session.{Event, receive, stream_pulls, serve}
use funduq_server.WsKyok.Session.Order.{all_fed, all_taken, serve-queue}
use funduq_server.Examples.{Journal, toy_llm_core, toy_contract}

abbrev word : Dict
word = dict (("text", str "hi") ∷ [])

-- Two completions in flight.
abbrev busy : Conn Journal
busy = record {
  id = 0;
  core = [];
  link = complete "c2" word (complete "c1" word (new_link "pk"));
  loop = Loop.running;
}

abbrev chunk_message : String → Message
chunk_message id =
    text
      (some (obj (dict (("type", str "chunk") ∷ ("requestId", str id) ∷ ("data", obj word) ∷ []))))

abbrev done_message : String → Message
done_message id = text (some (obj (dict (("type", str "done") ∷ ("requestId", str id) ∷ []))))

abbrev events : List (Event Journal)
events =
    receive (chunk_message "c1")
    ∷ receive (chunk_message "c2")
    ∷ stream_pulls "c1"
    ∷ receive (done_message "c1")
    ∷ []

read_message-Grew_example :
    Grew "c1"
      (chunk word ∷ [])
      busy
      (read_message toy_llm_core toy_contract (chunk_message "c1") busy)
unfolding read_message parse_frame kind_of item_of
read_message-Grew_example =
    read_message-Grew "c1" toy_llm_core toy_contract (chunk_message "c1") busy

serve-queue_example :
    busy.link.queues "c1" ++ all_fed toy_llm_core toy_contract "c1" events busy
    ≡ all_taken toy_llm_core toy_contract "c1" events busy
      ++ (serve toy_llm_core toy_contract events busy).link.queues "c1"
serve-queue_example =
    serve-queue toy_llm_core toy_contract "c1" events busy (tt, (tt, (tt, (tt, tt))))

abbrev filled : Link
filled = record {
  public_key = "pk";
  outbound = [];
  queues = λ id. chunk word ∷ chunk word ∷ done ∷ [];
  is_open = λ id. true;
  is_over = λ id. false;
}

abbrev broken_off : Link
broken_off = record filled { queues = λ id. chunk word ∷ [] }

fail_pending-drain_example :
    drain toy_contract "c1" 9 (fail_pending broken_off)
    ≡ yields (obj word) ∷ raises (broken (str "LLM provider disconnected mid-response")) ∷ []
fail_pending-drain_example =
    fail_pending-drain toy_contract "c1" 9 broken_off (word ∷ []) (obj word ∷ []) (omega arith) refl
      refl refl (refl, tt)
