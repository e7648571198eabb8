-- ===== src/Wire/Handshake.antt =====
-- The handshake of a provider: the SDK's hello at the gateway's socket, and the gateway's welcome
-- at the SDK.
use funduq_server.Prelude.{
  ℕ, String, true, false, ◌≡◌, refl, sym, Option, none, some, [], ◌∷◌, ok, ◌==◌, eq_iff, arith,
  if◌then◌else◌, Bool-cases, inl, inr, ◌⊎◌,
}
use funduq_server.Json.{
  Json, null, bool, int, float, arr, str, obj, Dict, get, nonempty_str, as_str,
}
use funduq_server.Funduq.{Funduq, Contract, Connect, valid}
use funduq_server.WsCommon.{Loop, Message, text, receive_hello, parse_frame, is_type}
use funduq_server.WsProvider.Link.{new_link, put_frame}
use funduq_server.WsProvider.Hello.{read_hello, require, check_connect}
use funduq_server.WsProvider.Socket.{Conn}
use funduq_server.WsProvider.Session.{
  opened, welcome, open_socket, after_hello, attach, after_attach,
}
use funduq_server.AgentSdk.Handshake.{
  Keys, go, stop, identity_mismatch, hello_frame, check_welcome, check_answer, fetch_ticket,
  check_ticket, check_pin,
}

-- What the SDK claims and signs, as the gateway hands it to the core.
abbrev pub claim : Keys → String → String → String → Json → Connect
claim keys ticket key nonce max_runs = record {
  public_key = keys.public_key;
  ticket = ticket;
  nonce = nonce;
  proof = keys.sign_connect key ticket nonce;
  max_concurrent_runs = max_runs;
}

-- None of the four texts of a claim is empty.
abbrev pub IsFilled : Connect → Type 0
IsFilled hello =
    ((hello.public_key == "") ≡ false)
    × ((hello.ticket == "") ≡ false)
    × ((hello.nonce == "") ≡ false)
    × ((hello.proof == "") ≡ false)

abbrev pub hello_message : Keys → String → String → String → Json → Option Message
hello_message keys ticket key nonce max_runs =
    some (text (some (obj (hello_frame keys ticket key nonce max_runs))))

-- The connection as it opens, with the welcome as its one frame.
abbrev pub greeted : {S : Type 0} → ℕ → S → Connect → Dict → Conn S
greeted id s hello frame = record {
  id = id;
  core = s;
  link = record {
    public_key = hello.public_key;
    max_concurrent_runs = hello.max_concurrent_runs;
    outbound = frame ∷ [];
    registered_names = [];
    interjections = [];
  };
  tasks = [];
  watching = true;
  loop = Loop.running;
}

pub require-filled :
    {A : Type 0} {s : String} {r : String ⊎ A} (message : String) (next : String → String ⊎ A)
    → (s == "") ≡ false
    → next s ≡ r
    → require (str s) message next ≡ r
require-filled message next filled rest = rw (require, filled) rest

check_connect-valid :
    (contract : Contract) (hello : Connect)
    → contract.validate_connect hello ≡ valid tt
    → check_connect contract hello ≡ inr hello
unfolding check_connect
check_connect-valid contract hello h = rw (check_connect, h) refl

read_hello-filled :
    (contract : Contract) (keys : Keys) (ticket key nonce : String) (max_runs : Json)
    → (keys.public_key == "") ≡ false
    → (ticket == "") ≡ false
    → (nonce == "") ≡ false
    → (keys.sign_connect key ticket nonce == "") ≡ false
    → contract.validate_connect (claim keys ticket key nonce max_runs) ≡ valid tt
    → read_hello contract (hello_frame keys ticket key nonce max_runs)
      ≡ inr (claim keys ticket key nonce max_runs)
unfolding read_hello hello_frame
read_hello-filled contract keys ticket key nonce max_runs k t n p h = require-filled _ _ k (
    require-filled _ _ t (
      require-filled _ _ n (
        require-filled _ _ p
          (check_connect-valid contract (claim keys ticket key nonce max_runs) h))))

-- A provider's hello, made by the SDK with nothing left empty and well-formed for the contract, is
-- put to the core as the claim that the SDK signed, no field changed. If the core accepts with an
-- answer, the socket opens with one frame sent, the welcome, and the SDK goes past it exactly if
-- that answer verifies under the key it opened the ticket with; else it stops for an
-- identity mismatch.
pub handshake-opens :
    {S : Type 0} (core : Funduq S) (contract : Contract) (id : ℕ) (s s' : S) (keys : Keys)
    (ticket key nonce answer : String) (max_runs : Json)
    → IsFilled (claim keys ticket key nonce max_runs)
    → contract.validate_connect (claim keys ticket key nonce max_runs) ≡ valid tt
    → core.attach_provider s id (claim keys ticket key nonce max_runs) ≡ (ok answer, s')
    → (open_socket core contract id s (hello_message keys ticket key nonce max_runs)
        ≡ opened (
            greeted id s'
              (claim keys ticket key nonce max_runs)
              (welcome core.identity_public_key answer)))
      × (check_welcome keys ticket key nonce (welcome core.identity_public_key answer) ≡ (
          if keys.verify_signature key answer (keys.funduq_connect_payload ticket nonce)
          then go tt
          else stop identity_mismatch))
unfolding open_socket receive_hello parse_frame check_welcome check_answer welcome new_link
    put_frame after_hello attach after_attach hello_frame
handshake-opens core contract id s s' keys ticket key nonce answer max_runs filled fits accepts = (
  rw
      (
        read_hello-filled contract keys ticket key nonce max_runs filled.0 filled.1 filled.2
            filled.3 fits,
        accepts,
      )
      refl,
  refl,
)

check_pin-go :
    (pinned ticket key t k : String) → check_pin (some pinned) t k ≡ go (ticket, key) → key ≡ pinned
unfolding check_pin
check_pin-go pinned ticket key t k h = ground (arith, eq_iff k pinned)

check_ticket-go :
    (pinned ticket key : String) (t k : Option String)
    → check_ticket (some pinned) t k ≡ go (ticket, key)
    → key ≡ pinned
unfolding check_ticket
check_ticket-go pinned ticket key none k h = absurd (cc)
check_ticket-go pinned ticket key (some t) none h = absurd (cc)
check_ticket-go pinned ticket key (some t) (some k) h = check_pin-go pinned ticket key t k h

as_str-some : (j : Json) (s : String) → as_str j ≡ some s → j ≡ str s
as_str-some (str t) s h = cc
as_str-some null s h = absurd (cc)
as_str-some (bool b) s h = absurd (cc)
as_str-some (int i) s h = absurd (cc)
as_str-some (float i t) s h = absurd (cc)
as_str-some (arr items) s h = absurd (cc)
as_str-some (obj d) s h = absurd (cc)

check_answer-go :
    (keys : Keys) (ticket key nonce : String) (o : Option String)
    → check_answer keys ticket key nonce o ≡ go tt
    → (answer : String) × (o ≡ some answer)
      × (keys.verify_signature key answer (keys.funduq_connect_payload ticket nonce) ≡ true)
unfolding check_answer
check_answer-go keys ticket key nonce none h = absurd (cc)
check_answer-go keys ticket key nonce (some answer) h = (answer, refl, ground arith)

check_welcome-go :
    (keys : Keys) (ticket key nonce : String) (frame : Dict)
    → check_welcome keys ticket key nonce frame ≡ go tt
    → (answer : String) × (get "answer" frame ≡ str answer)
      × (keys.verify_signature key answer (keys.funduq_connect_payload ticket nonce) ≡ true)
unfolding check_welcome
check_welcome-go keys ticket key nonce frame h =
    elim (Bool-cases (is_type "welcome" (get "type" frame))) [
      | inl is ↦
          let (answer, found, verified) =
            check_answer-go keys ticket key nonce (as_str (get "answer" frame)) (rw is at h) in
          (answer, as_str-some (get "answer" frame) answer found, verified)
      | inr other ↦ let wrong = rw other at h in absurd (cc)
    ]

-- A provider that pinned the key of its souk goes past the handshake only if the key that came with
-- the ticket is the pinned one, and the welcome carries an answer that verifies under the pinned key for this
-- ticket and nonce.
pub handshake-pinned :
    (keys : Keys) (pinned ticket key nonce : String) (tickets frame : Dict)
    → fetch_ticket (some pinned) tickets ≡ go (ticket, key)
    → check_welcome keys ticket key nonce frame ≡ go tt
    → (key ≡ pinned)
      × ((answer : String) × (get "answer" frame ≡ str answer)
          × (keys.verify_signature pinned answer (keys.funduq_connect_payload ticket nonce) ≡ true))
unfolding fetch_ticket
handshake-pinned keys pinned ticket key nonce tickets frame fetched went =
    let same =
      check_ticket-go pinned ticket key (nonempty_str (get "ticket" tickets))
        (nonempty_str (get "funduqPublicKey" tickets)) fetched in
    let (answer, found, verified) = check_welcome-go keys ticket key nonce frame went in
    (same, (answer, found, rw (sym same) verified))
