-- ===== src/ApiLlmBridge.antt =====
-- souk_server/api_llm_bridge.py: the route that looks like an OpenAI host. The relay behind it is
-- the core package's: what it answers, chunk by chunk, is a parameter.
pub mod Sse
use Prim.Native.Char.{code}
use funduq_server.Prelude.{
  String, Bool, true, false, Option, none, some, List, [], ◌∷◌, nat_eq, if◌then◌else◌, Result, ok,
  raise, Error,
}
use funduq_server.Json.{Json}

without_prefix : String → String → Option String
without_prefix String.[] s = some s
without_prefix (String.◌∷◌ c p) String.[] = none
without_prefix (String.◌∷◌ c p) (String.◌∷◌ d s) =
    let rest = without_prefix p s in if nat_eq (code c) (code d) then rest else none

stripped : String → Option String → String
stripped header none = header
stripped header (some rest) = rest

-- `_bearer`
unfoldable pub bearer : String → String
unfolding without_prefix stripped
bearer header = stripped header (without_prefix "Bearer " header)

-- What `CompletionRelay.stream()` gives: a chunk, as its dump, or a `CompletionFailure` with its
-- payload.
pub data Item : Type 0 where
  chunk : Json → Item
  failure : Json → Item

pub record Relay : Type 0 where
  pub stream_requested : Bool
  pub collapsed : Result Json
  pub items : List Item
  pub ending : Option Error

-- The lines of the stream: `data: {"error": …}`, `data: <chunk>` and the sentinel that closes a stream of OpenAI.
pub data Line : Type 0 where
  error_line : Json → Line
  chunk_line : Json → Line
  done_line : Line

-- `sse`: a stream that raises breaks the response off.
unfoldable pub sse : List Item → Option Error → List Line
sse [] none = done_line ∷ []
sse [] (some e) = []
sse (failure payload ∷ rest) ending = error_line payload ∷ []
sse (chunk c ∷ rest) ending = chunk_line c ∷ sse rest ending

pub data Response : Type 0 where
  json_response : Json → Response
  streaming_response : List Line → Response

respond : Relay → Result Response
respond relay =
    if relay.stream_requested
    then ok (streaming_response (sse relay.items relay.ending))
    else elim relay.collapsed [ ok j ↦ ok (json_response j) | raise e ↦ raise e ]

-- `chat_completions`: `complete` is `KyokAdapter(funduq).complete`, with the bearer, the body, the
-- timestamp and the signature.
unfoldable pub chat_completions :
    {S : Type 0}
    → (S → String → String → String → String → Result Relay)
    → S
    → String
    → String
    → String
    → String
    → Result Response
unfolding respond
chat_completions complete s authorization body timestamp signature =
    elim (complete s (bearer authorization) body timestamp signature) [
      | ok relay ↦ respond relay
      | raise e ↦ raise e
    ]
