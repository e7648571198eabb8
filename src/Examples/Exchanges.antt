-- ===== src/Examples/Exchanges.antt =====
-- Runs, questions and completions across the wire, in the small world.
use funduq_server.Prelude.{String, ◌≡◌, refl, List, [], ◌∷◌, ok, none, some, true, false, arith}
use funduq_server.Json.{null, str, arr, of_list, Dict, dict, get, Json}
use funduq_server.Funduq.{valid, refusal}
use funduq_server.WsProvider.Session.{opened, open_socket, welcome}
use funduq_server.WsProvider.Socket.{Conn}
use funduq_server.AgentSdk.Offers.{Runtime}
use funduq_server.AgentSdk.Handshake.{go, check_welcome, fetch_ticket}
use funduq_server.Wire.Offer.{offer_back, offer-heard, decision}
use funduq_server.Wire.Handshake.{greeted, claim, hello_message, handshake-opens, handshake-pinned}
use funduq_server.Wire.Query.{Newest, exchange, asked_limit, exchange-granted, exchange-barred}
use funduq_server.AgentSdk.Queries.{Waiters, waiting, result, query_failed, query_frame, ask}
use funduq_server.WsProvider.Query.{not_yours}
use funduq_server.WsProvider.Query.Access.{CanQuery}
use funduq_server.KyokBridge.Completion.{Stream, refuses}
use funduq_server.WsKyok.Link.{new_link}
use funduq_server.WsCommon.{Loop}
use funduq_server.WsKyok.Socket.{Conn as KyokConn}
use funduq_server.Examples.{Journal, toy_core, toy_contract, toy_keys, run_dict}

abbrev pub toy_runtime : Runtime Journal Dict
toy_runtime = record {
  validate_run = valid;
  deliver = λ r run. (refusal "too busy", "delivered" ∷ r);
  cancel = λ r run_id. r;
}

abbrev open_conn : Conn Journal
open_conn = greeted 0 [] (claim toy_keys "tk" "souk" "nc" null) (dict [])

offer-heard_example :
    offer_back toy_core toy_contract toy_runtime ("helper" ∷ []) run_dict [] open_conn
    ≡ ok (record open_conn { core = "r1 refused: too busy" ∷ [] }, "delivered" ∷ [])
unfolding decision
offer-heard_example =
    offer-heard toy_core toy_contract toy_runtime ("helper" ∷ []) "helper" "r1" run_dict []
      open_conn (refl, (refl, (refl, tt))) refl refl refl (λ v id. refl)

handshake-opens_example :
    (open_socket toy_core toy_contract 0 [] (hello_message toy_keys "tk" "souk" "nc" null)
      ≡ opened (
          greeted 0
            ("attach" ∷ [])
            (claim toy_keys "tk" "souk" "nc" null)
            (welcome "souk" "counter-signed")))
    × (check_welcome toy_keys "tk" "souk" "nc" (welcome "souk" "counter-signed") ≡ go tt)
handshake-opens_example =
    handshake-opens toy_core toy_contract 0 [] ("attach" ∷ []) toy_keys "tk" "souk" "nc"
      "counter-signed" null (refl, refl, refl, refl) refl refl

abbrev tickets : Dict
tickets = dict (("ticket", str "tk") ∷ ("funduqPublicKey", str "souk") ∷ [])

abbrev welcome_dict : Dict
welcome_dict = dict (("type", str "welcome") ∷ ("answer", str "counter-signed") ∷ [])

handshake-pinned_example :
    (◌≡◌ {A = String} "souk" "souk")
    × ((answer : String) × (get "answer" welcome_dict ≡ str answer)
        × (toy_keys.verify_signature "souk" answer "tknc" ≡ true))
unfolding fetch_ticket check_welcome
handshake-pinned_example =
    handshake-pinned toy_keys "souk" "tk" "souk" "nc" tickets welcome_dict refl refl

abbrev pub no_waiters : Waiters
no_waiters = record { futures = λ id. waiting; is_pending = λ id. false }

abbrev pub show : Json → String
show j = "?"

may_query : CanQuery toy_core (λ n. []) "t1" "pk"
may_query = record {
  row = record { provider_key = "pk" };
  found = refl;
  owner = refl;
  reader = record { thread = record { provider_key = "pk" }; exists = refl; party = ground arith };
}

may_not : ¬ CanQuery toy_core (λ n. []) "t2" "pk"
may_not can = absurd (ground arith)

exchange-granted_example :
    (w' : Waiters) × (ms : List Json) × Newest
      (some 2)
      (str "one" ∷ str "two" ∷ str "three" ∷ [])
      ms
    × (exchange toy_core toy_contract
          (λ n. [])
          "pk"
          show
          (query_frame "q" "t1" (asked_limit (some 2)))
          (ask "q" no_waiters)
        ≡ ok w')
    × (w'.futures "q" ≡ result (arr (of_list ms)))
exchange-granted_example =
    exchange-granted toy_core toy_contract (λ n. []) "pk" show "q" "t1" (some 2) no_waiters refl
      refl (omega arith) may_query

exchange-barred_example :
    (w' : Waiters) × (exchange toy_core toy_contract
        (λ n. [])
        "pk"
        show
        (query_frame "q" "t2" (asked_limit none))
        (ask "q" no_waiters)
      ≡ ok w')
    × (w'.futures "q" ≡ query_failed not_yours)
exchange-barred_example =
    exchange-barred toy_core toy_contract (λ n. []) "pk" show "q" "t2" none no_waiters refl refl tt
      may_not

abbrev kyok_conn : KyokConn Journal
kyok_conn = record { id = 0; core = []; link = new_link "pk"; loop = Loop.running }

abbrev request : Dict
request = dict (("model", str "m") ∷ [])

abbrev handler : Dict → Stream
handler d = record { chunks = d ∷ d ∷ []; ending = refuses (dict (("code", str "full") ∷ [])) }
