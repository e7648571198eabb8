-- ===== src/WsProvider/Hello.antt =====
-- `_hello_error`: what a hello must carry to be handed to `attach_provider`.
pub mod Complete
use Prim.Native.String.{◌++◌}
use funduq_server.Prelude.{ℕ, String, none, some, if◌then◌else◌, ◌⊎◌, inl, inr}
use funduq_server.Json.{Json, null, Dict, get, nonempty_str, equals_nat}
use funduq_server.Funduq.{Contract, Connect, valid, invalid}

-- handshake.py: `WIRE_VERSION`
abbrev pub wire_version : ℕ
wire_version = 4

version_error : Contract → Json → String
version_error contract null =
    "hello has no version: this souk speaks wire v4, the ticket handshake. Upgrade souk-agent-sdk."
version_error contract version =
    "unsupported wire version " ++ (contract.repr version ++ "; this souk speaks v4")

-- The loop over the four fields stops at the first that is not a text or is empty. What it leaves
-- is the hello as the handshake's own record.
abbrev pub require {ℓ} : {A : Type ℓ} → Json → String → (String → String ⊎ A) → String ⊎ A
require value message next = elim (nonempty_str value) [ none ↦ inl message | some s ↦ next s ]

unfoldable pub check_connect : Contract → Connect → String ⊎ Connect
check_connect contract hello = elim (contract.validate_connect hello) [
  | valid _ ↦ inr hello
  | invalid e ↦ inl ("hello is not a valid connect: " ++ e)
]

unfoldable pub read_fields : Contract → Dict → String ⊎ Connect
unfolding check_connect
read_fields contract hello = require (get "publicKey" hello) "hello needs a publicKey" λ key.
    require (get "ticket" hello) "hello needs a ticket — POST /tickets issues one" λ ticket.
      require (get "nonce" hello) "hello needs a nonce" λ nonce.
        require (get "proof" hello) "hello needs a proof signed over the ticket" λ proof.
          check_connect contract (record {
            public_key = key;
            ticket = ticket;
            nonce = nonce;
            proof = proof;
            max_concurrent_runs = get "maxConcurrentRuns" hello;
          })

-- `_hello_error` returns the left side's message, or `None`; the right side is what its caller
-- then reads off the hello.
unfoldable pub read_hello : Contract → Dict → String ⊎ Connect
unfolding version_error read_fields
read_hello contract hello =
    if equals_nat wire_version (get "version" hello)
    then read_fields contract hello
    else inl (version_error contract (get "version" hello))
