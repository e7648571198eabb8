-- ===== src/KyokBridge/Handshake.antt =====
-- `_fetch_ticket`, `_handshake`, `_register_on_link` and `run_metadata` of the bridge. What is
-- signed and how a signature is checked are the contract package's.
use Prim.Native.Char.{code}
use funduq_server.Prelude.{
  ℕ, String, Bool, true, false, ◌||◌, Option, none, some, [], ◌∷◌, any, is_some, nat_eq,
  if◌then◌else◌,
}
use funduq_server.Json.{
  Json, int, pos, str, arr, nil, of_list, to_list, obj, Dict, dict, get, lookup, or_else, as_str,
}
use funduq_server.WsCommon.{is_type}
use funduq_server.AgentSdk.Handshake.{Keys}

abbrev pub handshake_version : ℕ
handshake_version = 4

-- `WrongFunduq`, a `RuntimeError`, a `KeyError` and a `TypeError`
pub data Refused : Type 0 where
  wrong_funduq runtime_error key_error type_error : Refused

pub data Opening (A : Type 0) : Type 0 where
  go : A → Opening A
  stop : Refused → Opening A

with_ticket : Json → Option Json → Opening (Json × Json)
with_ticket key none = stop key_error
with_ticket key (some ticket) = go (ticket, key)

check_pin : Option String → Option Json → Json → Opening (Json × Json)
unfolding with_ticket
check_pin none ticket key = with_ticket key ticket
check_pin (some pinned) ticket key =
    if is_type pinned key then with_ticket key ticket else stop wrong_funduq

check_ticket : Option String → Option Json → Option Json → Opening (Json × Json)
unfolding check_pin
check_ticket pin ticket none = stop key_error
check_ticket pin ticket (some key) = check_pin pin ticket key

-- `_fetch_ticket`, on the body of the answer: the ticket and the key
unfoldable pub fetch_ticket : Option String → Dict → Opening (Json × Json)
unfolding check_ticket
fetch_ticket pin answer =
    check_ticket pin (lookup "ticket" answer) (lookup "funduqPublicKey" answer)

unfoldable pub hello_frame : Keys → String → String → String → Dict
hello_frame keys ticket funduq_key nonce = dict (
    ("type", str "hello")
    ∷ ("version", int (pos handshake_version))
    ∷ ("publicKey", str keys.public_key)
    ∷ ("ticket", str ticket)
    ∷ ("nonce", str nonce)
    ∷ ("proof", str (keys.sign_connect funduq_key ticket nonce))
    ∷ [])

check_answer : Keys → String → String → String → Option String → Opening (Unit {0})
check_answer keys ticket funduq_key nonce none = stop wrong_funduq
check_answer keys ticket funduq_key nonce (some answer) =
    if keys.verify_signature funduq_key answer (keys.funduq_connect_payload ticket nonce)
    then go tt
    else stop wrong_funduq

-- The rest of `_handshake`, on the first frame that comes back.
unfoldable pub check_welcome : Keys → String → String → String → Dict → Opening (Unit {0})
unfolding check_answer
check_welcome keys ticket funduq_key nonce welcome =
    if is_type "welcome" (get "type" welcome)
    then check_answer keys ticket funduq_key nonce (as_str (get "answer" welcome))
    else stop runtime_error

-- The frame of `_register_on_link`.
unfoldable pub register_frame : String → Dict
register_frame offering =
    dict (("type", str "register") ∷ ("models", arr (of_list (str offering ∷ []))) ∷ [])

starts_with : String → String → Bool
starts_with String.[] s = true
starts_with (String.◌∷◌ c p) String.[] = false
starts_with (String.◌∷◌ c p) (String.◌∷◌ d s) =
    let rest = starts_with p s in if nat_eq (code c) (code d) then rest else false

has_substring : String → String → Bool
unfolding starts_with
has_substring p String.[] = starts_with p String.[]
has_substring p (String.◌∷◌ d s) =
    let later = has_substring p s in starts_with p (String.◌∷◌ d s) || later

-- `offering in names`: an item of a list, a key of a dict, or a part of a text; nothing else can
-- be asked, which `none` stands for.
contains : String → Json → Option Bool
unfolding has_substring
contains offering (arr items) = some (any (is_type offering) (to_list items))
contains offering (obj d) = some (is_some (lookup offering d))
contains offering (str s) = some (has_substring offering s)
contains offering _ = none

listed : Option Bool → Opening (Unit {0})
listed none = stop type_error
listed (some true) = go tt
listed (some false) = stop runtime_error

-- The rest of `_register_on_link`, on the frame that answers it.
unfoldable pub check_registered : String → Dict → Opening (Unit {0})
unfolding contains listed
check_registered offering reply =
    if is_type "error" (get "type" reply)
    then stop runtime_error
    else if is_type "registered" (get "type" reply)
    then listed (contains offering (or_else (lookup "names" reply) (arr nil)))
    else stop runtime_error

provider_entry : String → String → Json
provider_entry key offering = obj (dict (("providerKey", str key) ∷ ("name", str offering) ∷ []))

-- `run_metadata`
unfoldable pub run_metadata : String → String → Option Json → Dict
unfolding provider_entry
run_metadata key offering none =
    dict (("kyok", obj (dict (("llmProvider", provider_entry key offering) ∷ []))) ∷ [])
run_metadata key offering (some context) = dict (
    ("kyok", obj (dict (("llmProvider", provider_entry key offering) ∷ ("context", context) ∷ [])))
    ∷ [])
