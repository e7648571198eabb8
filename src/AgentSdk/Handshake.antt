-- ===== src/AgentSdk/Handshake.antt =====
-- `_fetch_ticket`, `_handshake` and `_register`. What is signed and how a signature is checked are
-- the contract package's.
use funduq_server.Prelude.{
  ℕ, String, Bool, Option, none, some, List, [], ◌∷◌, map, ◌==◌, if◌then◌else◌,
}
use funduq_server.Json.{
  Json, bool, int, pos, str, arr, of_list, obj, Dict, get, dict, nonempty_str, as_str, put,
}
use funduq_server.WsCommon.{is_type}

-- `funduq_provider_sdk`: what an identity signs, and what verifies.
pub record Keys : Type 0 where
  pub public_key : String
  pub sign_connect : String → String → String → String
  pub funduq_connect_payload : String → String → String
  pub verify_signature : String → String → String → Bool

abbrev pub handshake_version : ℕ
handshake_version = 4

-- `SoukIdentityMismatch`, and the `RuntimeError`s of a souk that does not work
pub data Refused : Type 0 where
  identity_mismatch runtime_error : Refused

pub data Opening (A : Type 0) : Type 0 where
  go : A → Opening A
  stop : Refused → Opening A

unfoldable pub check_pin : Option String → String → String → Opening (String × String)
check_pin none ticket key = go (ticket, key)
check_pin (some pinned) ticket key =
    if key == pinned then go (ticket, key) else stop identity_mismatch

unfoldable pub check_ticket :
    Option String → Option String → Option String → Opening (String × String)
unfolding check_pin
check_ticket pin none key = stop runtime_error
check_ticket pin (some ticket) none = stop runtime_error
check_ticket pin (some ticket) (some key) = check_pin pin ticket key

-- `_fetch_ticket`, on the body of the answer to `POST /tickets`
unfoldable pub fetch_ticket : Option String → Dict → Opening (String × String)
unfolding check_ticket
fetch_ticket pin answer =
    check_ticket pin (nonempty_str (get "ticket" answer))
      (nonempty_str (get "funduqPublicKey" answer))

-- The hello frame of `_handshake`.
unfoldable pub hello_frame : Keys → String → String → String → Json → Dict
hello_frame keys ticket funduq_key nonce max_runs = dict (
    ("type", str "hello")
    ∷ ("version", int (pos handshake_version))
    ∷ ("publicKey", str keys.public_key)
    ∷ ("ticket", str ticket)
    ∷ ("nonce", str nonce)
    ∷ ("maxConcurrentRuns", max_runs)
    ∷ ("proof", str (keys.sign_connect funduq_key ticket nonce))
    ∷ [])

unfoldable pub check_answer : Keys → String → String → String → Option String → Opening (Unit {0})
check_answer keys ticket funduq_key nonce none = stop identity_mismatch
check_answer keys ticket funduq_key nonce (some answer) =
    if keys.verify_signature funduq_key answer (keys.funduq_connect_payload ticket nonce)
    then go tt
    else stop identity_mismatch

-- The rest of `_handshake`, on the first frame that comes back.
unfoldable pub check_welcome : Keys → String → String → String → Dict → Opening (Unit {0})
unfolding check_answer
check_welcome keys ticket funduq_key nonce welcome =
    if is_type "welcome" (get "type" welcome)
    then check_answer keys ticket funduq_key nonce (as_str (get "answer" welcome))
    else stop runtime_error

-- The agents of a register frame: each handle's registration as a frame, with the capability that
-- the runtime answers for its name.
pub record Agent : Type 0 where
  pub name : String
  pub registration : Dict

abbrev pub agent_entry : (String → Bool) → Agent → Json
agent_entry takes agent =
    obj (put "takesInterjections" (bool (takes agent.name)) agent.registration)

provider_entry : Option String → List (String × Json)
provider_entry none = []
provider_entry (some name) = ("providerName", str name) ∷ []

-- The frame of `_register`.
unfoldable pub register_frame : (String → Bool) → List Agent → Option String → Dict
unfolding provider_entry
register_frame takes agents provider_name = dict (
    ("type", str "register")
    ∷ ("agents", arr (of_list (map (agent_entry takes) agents)))
    ∷ provider_entry provider_name)

-- The rest of `_register`, on the frame that answers it.
unfoldable pub check_registered : Dict → Opening (Unit {0})
check_registered answer =
    if is_type "registered" (get "type" answer) then go tt else stop runtime_error
