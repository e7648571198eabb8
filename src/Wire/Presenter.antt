-- ===== src/Wire/Presenter.antt =====
-- The proof of a caller's request, made by the agent SDK and read by the gateway.
use funduq_server.Prelude.{String, Bool, true, ◌≡◌, refl, Option, none, some, Result, ok, ◌>>=◌}
use funduq_server.Json.{ℤ, Json, int, obj}
use funduq_server.Presenter.{Checks, presenter_key_of, to_int, presenter_payload as gateway_payload}
use funduq_server.Presenter.Proof.{presenter_key_of-Proves}
use funduq_server.AgentSdk.Presenter.{
  Identity, presenter_payload, presenter_proof, presenter_headers, presented,
}

-- The request as it goes out, and the key that the gateway reads for it.
abbrev pub read_presented :
    Checks → (Json → String) → Json → Option Identity → Bool → ℤ → Result (Option String)
read_presented checks dumps body identity actor_chain_present timestamp =
    presented checks.show_int checks.sha256hex dumps body identity actor_chain_present timestamp
    >>= λ request. presenter_key_of checks request.1 request.0

-- The text that an identity signs for the bytes of a body.
abbrev pub statement_of : Checks → Identity → ℤ → String → String
statement_of checks identity timestamp raw =
    presenter_payload checks.show_int identity.public_key timestamp (checks.sha256hex raw)

-- A request that the SDK sends with an identity, with or without a chain, is presented at the
-- gateway by the key of that identity, if its timestamp is in the window and what the identity
-- signs can be encoded and verifies under its key.
pub presented-Proves :
    (checks : Checks) (dumps : Json → String) (body : Json) (identity : Identity)
    (actor_chain_present : Bool) (timestamp : ℤ)
    → checks.is_timestamp_fresh timestamp ≡ ok true
    → checks.encode_error (statement_of checks identity timestamp (dumps body)) ≡ none
    → ((payload : String)
        → checks.verify_signature identity.public_key (identity.sign payload) payload ≡ ok true)
    → read_presented checks dumps body (some identity) actor_chain_present timestamp
      ≡ ok (some identity.public_key)
unfolding presented presenter_headers presenter_proof presenter_payload gateway_payload to_int
presented-Proves checks dumps body identity actor_chain_present timestamp fresh encodes signs =
    let raw = dumps body in
    let proof = presenter_proof checks.show_int checks.sha256hex identity raw timestamp in
    let payload = statement_of checks identity timestamp raw in
    (presenter_key_of-Proves checks raw identity.public_key (some (ok (obj proof)))).1 (record {
      timestamp = timestamp;
      signature = identity.sign payload;
      payload = payload;
      presents = record {
        proof = proof;
        raw = int timestamp;
        object = refl;
        named = refl;
        timed = refl;
        number = refl;
        signed = refl;
      };
      fresh = fresh;
      written = rw encodes refl;
      verifies = signs payload;
    })
