-- ===== src/AgentSdk/Presenter.antt =====
-- souk-agent-sdk/souk_agent_sdk/a2a_client.py: the proof that a caller sends with the body of a
-- request. `json.dumps` of the body, the hash, the clock and the signature are parameters.
use Prim.Native.String.{◌++◌}
use funduq_server.Prelude.{
  String, Bool, true, Option, none, some, [], ◌∷◌, Result, ok, raise, value_error,
}
use funduq_server.Json.{ℤ, Json, int, str, obj, Dict, dict}

-- `ProviderIdentity`
pub record Identity : Type 0 where
  pub public_key : String
  pub sign : String → String

-- The bytes stand as their text; the key of an identity is hex, which can be encoded.
unfoldable pub presenter_payload : (ℤ → String) → String → ℤ → String → String
presenter_payload show_int public_key timestamp body_hash =
    "funduq-server-presenter:"
    ++ (public_key ++ (":" ++ (show_int timestamp ++ (":" ++ body_hash))))

unfoldable pub presenter_proof : (ℤ → String) → (String → String) → Identity → String → ℤ → Dict
presenter_proof show_int sha256hex identity body timestamp = dict (
    ("publicKey", str identity.public_key)
    ∷ ("timestamp", int timestamp)
    ∷ (
      "signature",
      str (
          identity.sign
            (presenter_payload show_int identity.public_key timestamp (sha256hex body))),
    )
    ∷ [])

-- `presenter_headers`: the value of the one header, if there is an identity
unfoldable pub presenter_headers :
    (ℤ → String) → (String → String) → Option Identity → String → ℤ → Option (Result Json)
presenter_headers show_int sha256hex none body timestamp = none
presenter_headers show_int sha256hex (some identity) body timestamp =
    some (ok (obj (presenter_proof show_int sha256hex identity body timestamp)))

-- `_presented`: the bytes of the body, and the header over exactly those bytes; the other two
-- headers are constants
unfoldable pub presented :
    (ℤ → String)
    → (String → String)
    → (Json → String)
    → Json
    → Option Identity
    → Bool
    → ℤ
    → Result (String × Option (Result Json))
presented show_int sha256hex dumps body none true timestamp = raise (record {
  class = value_error;
  text =
      "actor_chain was given but identity was not: souk refuses a chain from a caller it cannot authenticate (PresenterRequired), so this call would be rejected. Pass identity= — the same ProviderIdentity whose key ends the chain — so the Funduq-Presenter header can be signed.";
})
presented show_int sha256hex dumps body identity actor_chain_present timestamp =
    ok (dumps body, presenter_headers show_int sha256hex identity (dumps body) timestamp)
