-- ===== src/Examples/Provider.antt =====
-- One connection of a provider in the small world.
use funduq_server.Prelude.{
  String, ◌≡◌, refl, List, [], ◌∷◌, some, none, true, arith, ◌↔◌, Option, sym, ap, ◌∙◌, eq_iff,
  ◌==◌, if◌then◌else◌,
}
use funduq_server.Text.{codes}
use funduq_server.Json.{null, pos, str, obj, Dict, get, Json, as_list}
use funduq_server.Funduq.{Funduq, Registration, Thread}
use mathlib.Core.Path.{subst}
use mathlib.Core.Option.{some-injective}
use funduq_server.Reads.{may_read}
use funduq_server.Reads.Rule.{CanRead, may_read_iff}
use funduq_server.WsCommon.{receive_hello, Message, text, write_loop}
use funduq_server.WsProvider.Query.{
  answer_query, query_answer, read_limit, read_params, answer_thread_messages,
}
use funduq_server.WsProvider.Query.Access.{Reply, CanQuery, answer_query-Reply}
use funduq_server.WsProvider.Query.Secrecy.{answer_query-barred}
use funduq_server.WsProvider.Hello.{read_hello}
use funduq_server.WsProvider.Registration.{
  match_name, parse_registration, parse_entries, parse_entry,
}
use funduq_server.WsProvider.Registration.Names.{
  AcceptedAll, IsAgentName, match_name_iff, parse_registration-Accepted,
}
use funduq_server.WsProvider.Socket.{Conn, read_message}
use funduq_server.WsProvider.Socket.Roster.{told}
use funduq_server.WsProvider.Socket.Failures.{IsCivil, loop_after, read_message-loop}
use funduq_server.WsProvider.Session.{
  Event, receive, core_delivers, watcher_wakes, open_socket, serve, welcome,
}
use funduq_server.WsProvider.Session.Roster.{serve-roster}
use funduq_server.WsProvider.Session.Wire.{Admitted, SentFirst, open_socket-welcome}
use funduq_server.AgentSdk.Queries.{query_frame}
use funduq_server.Wire.Handshake.{greeted, claim}
use funduq_server.Examples.{
  Journal, toy_core, toy_contract, toy_keys, hello_dict, register_dict, run_dict,
}

abbrev question : Dict
question = query_frame "q" "t1" (some (pos 2))

abbrev strange_question : Dict
strange_question = query_frame "q" "t2" none

answer_query-Reply_example :
    Reply toy_core toy_contract
      (λ n. [])
      "pk"
      question
      (query_answer "q" (str "two" ∷ str "three" ∷ []))
unfolding answer_query query_frame read_limit answer_thread_messages may_read
answer_query-Reply_example =
    answer_query-Reply toy_core toy_contract (λ n. []) "pk" question
      (query_answer "q" (str "two" ∷ str "three" ∷ [])) refl

-- Here `t2` is a thread of another provider's; in the small world itself it is none.
abbrev other_core : Funduq Journal
other_core = record toy_core {
  get_thread = λ s id. if id == "t2" then some (record { provider_key = "other" }) else none;
}

not_there :
    (id : String)
    → ◌≡◌ {A = Option String} (some "t2") (some id)
    → ¬ CanQuery toy_core (λ n. []) id "pk"
not_there id e can =
    let found : toy_core.get_thread [] "t2" ≡ some can.row =
      subst (λ i. toy_core.get_thread [] i ≡ some can.row) (sym (some-injective "t2" id e))
        can.found in
    absurd (ground arith)

not_mine :
    (id : String)
    → ◌≡◌ {A = Option String} (some "t2") (some id)
    → ¬ CanQuery other_core (λ n. []) id "pk"
not_mine id e can =
    let found : other_core.get_thread [] "t2" ≡ some can.row =
      subst (λ i. other_core.get_thread [] i ≡ some can.row) (sym (some-injective "t2" id e))
        can.found in
    let owner : ◌≡◌ {A = String} "other" "pk" =
      ap (λ (t : Thread). t.provider_key)
        (some-injective (record { provider_key = "other" }) can.row found)
      ∙ can.owner in
    let same : ("other" == "pk") ≡ true = (eq_iff "other" "pk").1 owner in absurd (cc)

answer_query-barred_example :
    answer_query toy_core toy_contract (λ n. []) "pk" strange_question
    ≡ answer_query other_core toy_contract (λ n. []) "pk" strange_question
unfolding query_frame read_params
answer_query-barred_example =
    answer_query-barred toy_core other_core toy_contract (λ n. []) (λ n. []) "pk" strange_question
      not_there not_mine

may_read_iff_example :
    (may_read toy_core (λ n. []) "t1" (some "user") ≡ true)
    ↔ CanRead toy_core (λ n. []) "t1" (some "user")
may_read_iff_example = may_read_iff toy_core (λ n. []) "t1" (some "user")

match_name_iff_example : (match_name (codes "agent-7\n") ≡ true) ↔ IsAgentName (codes "agent-7\n")
match_name_iff_example = match_name_iff (codes "agent-7\n")

abbrev helper : Registration
helper = record { name = "helper"; takes_interjections = null }

parse_registration-Accepted_example :
    (j : Json) × (js : List Json) × (as_list (get "agents" register_dict) ≡ some (j ∷ js))
    × AcceptedAll toy_contract (j ∷ js) (helper ∷ [])
unfolding parse_registration match_name parse_entries parse_entry
parse_registration-Accepted_example =
    parse_registration-Accepted toy_contract register_dict (helper ∷ []) refl

civil : IsCivil toy_core toy_contract
civil = record {
  registering = λ s id asks rs name e h. absurd (cc);
  deleting = λ s id name e h. absurd (cc);
  reporting = λ s run event key e h. absurd (cc);
  finishing = λ s run key e h. absurd (cc);
}

abbrev first : Message
first = text (some (obj hello_dict))

abbrev conn : Conn Journal
conn =
    greeted 0 ("attach" ∷ []) (claim toy_keys "tk" "souk" "nc" null)
      (welcome "souk" "counter-signed")

abbrev session : List (Event Journal)
session =
    receive (text (some (obj register_dict)))
    ∷ core_delivers run_dict
    ∷ watcher_wakes (λ n. [])
    ∷ []

read_message-loop_example :
    (read_message toy_core toy_contract first conn).loop ≡ loop_after first conn.loop
read_message-loop_example = read_message-loop toy_core toy_contract civil first conn

serve-roster_example :
    told (serve toy_core toy_contract session conn).link.outbound
    ≡ (serve toy_core toy_contract session conn).link.registered_names
unfolding open_socket welcome receive_hello read_hello
serve-roster_example =
    serve-roster toy_core toy_contract 0 [] (some first) conn session refl (tt, (refl, (tt, tt)))

open_socket-welcome_example :
    (a : Admitted toy_core toy_contract 0 [] (some first)) × SentFirst
      (welcome "souk" a.answer)
      (write_loop (serve toy_core toy_contract session conn).link.outbound)
unfolding open_socket welcome receive_hello read_hello
open_socket-welcome_example =
    open_socket-welcome toy_core toy_contract 0 [] (some first) conn session refl
