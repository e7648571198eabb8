-- ===== src/WsKyok/Hello.antt =====
-- `_hello_error` of the LLM provider's socket: the checks of the other socket without the model.
use Prim.Native.String.{◌++◌}
use funduq_server.Prelude.{String, if◌then◌else◌, ◌⊎◌, inl, inr}
use funduq_server.Json.{Json, null, Dict, get, equals_nat}
use funduq_server.Funduq.{Contract, Connect}
use funduq_server.WsProvider.Hello.{wire_version, require}

version_error : Contract → Json → String
version_error contract null = "hello has no version: this souk speaks wire v4, the ticket handshake"
version_error contract version =
    "unsupported wire version " ++ (contract.repr version ++ "; this souk speaks v4")

read_fields : Dict → String ⊎ Connect
read_fields hello = require (get "publicKey" hello) "hello needs a publicKey" λ key.
    require (get "ticket" hello) "hello needs a ticket — POST /tickets issues one" λ ticket.
      require (get "nonce" hello) "hello needs a nonce" λ nonce.
        require (get "proof" hello) "hello needs a proof signed over the ticket" λ proof.
          inr (record {
            public_key = key;
            ticket = ticket;
            nonce = nonce;
            proof = proof;
            max_concurrent_runs = null;
          })

unfoldable pub read_hello : Contract → Dict → String ⊎ Connect
unfolding version_error read_fields
read_hello contract hello =
    if equals_nat wire_version (get "version" hello)
    then read_fields hello
    else inl (version_error contract (get "version" hello))
