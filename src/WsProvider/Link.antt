-- ===== src/WsProvider/Link.antt =====
-- `class SocketProvider`: the state of one link. `outbound` lists every frame that was put on the
-- queue, oldest first. The check of `_PROTOCOL_SURFACE` in the constructor is about the class and
-- not about a value, and has no counterpart here.
use funduq_server.Prelude.{
  String, Bool, true, false, List, [], ◌∷◌, ◌++◌, map, ◌==◌, if◌then◌else◌, keep, not,
}
use funduq_server.Json.{Json, Dict, str, truthy, dict, merge}
use funduq_server.Funduq.{Registration}

pub record Link : Type 0 where
  pub public_key : String
  pub max_concurrent_runs : Json
  pub outbound : List Dict
  pub registered_names : List String
  pub interjections : List (String × Bool)

-- `__init__`
unfoldable pub new_link : String → Json → Link
new_link key max_runs = record {
  public_key = key;
  max_concurrent_runs = max_runs;
  outbound = [];
  registered_names = [];
  interjections = [];
}

-- `outbound.put_nowait(frame)`
unfoldable pub put_frame : Dict → Link → Link
put_frame frame link = record link { outbound = link.outbound ++ frame ∷ [] }

abbrev table : List Registration → List (String × Bool)
table rs = map (λ r. (r.name, truthy r.takes_interjections)) rs

-- A dict built from these pairs keeps the last entry of a key.
abbrev last_entry : String → Bool → List (String × Bool) → Bool
last_entry name found [] = found
last_entry name found ((k, b) ∷ rest) = last_entry name (if k == name then b else found) rest

unfoldable pub declare_interjections : List Registration → Link → Link
declare_interjections registrations link = record link { interjections = table registrations }

unfoldable pub takes_interjections : Link → String → Bool
takes_interjections link agent_name = last_entry agent_name false link.interjections

-- The frame of `deliver`: the dump of the run, after the type.
abbrev pub run_frame : Dict → Dict
run_frame run = merge (dict (("type", str "run") ∷ [])) run

unfoldable pub deliver : Dict → Link → Link
unfolding put_frame
deliver run link = put_frame (run_frame run) link

-- `cancel` returns `True` always, the receipt.
unfoldable pub cancel : String → Link → Link × Bool
unfolding put_frame
cancel run_id link =
    (put_frame (dict (("type", str "cancel") ∷ ("runId", str run_id) ∷ [])) link, true)

-- `registered_names.discard(name)`
unfoldable pub discard_name : String → Link → Link
discard_name name link = record link {
  registered_names = keep (λ n. not (n == name)) link.registered_names;
}
