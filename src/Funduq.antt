-- ===== src/Funduq.antt =====
-- What the program calls and does not implement: the core package `funduq`, and the pydantic
-- models of `funduq_contract` and `funduq_provider_sdk`. Each is a record of functions, a
-- parameter of the definitions that call it. `S` is the core's state. A call that reads takes the
-- state at the moment of its `await`; a call that acts returns the state that it leaves.
use Prim.Native.Nat.{ℕ}
use funduq_server.Prelude.{String, Bool, Option, List, Result, ErrorClass}
use funduq_server.Json.{Json, Dict}

-- The answer of a pydantic `model_validate`.
pub data Validation (A : Type 0) : Type 0 where
  valid : A → Validation A
  invalid : String → Validation A

-- `funduq_contract.Registration`: the fields that this program reads.
pub record Registration : Type 0 where
  pub name : String
  pub takes_interjections : Json

-- `funduq_contract.Verdict` has one of three names.
pub data VerdictName : Type 0 where
  accepted refused declined : VerdictName

pub record Verdict : Type 0 where
  pub id : Json
  pub verdict : VerdictName
  pub reason : Option String

-- What `Funduq.answer_offer` and `ProviderRuntime.deliver` call an answer: a Boolean or a
-- `Refusal`.
pub data Answer : Type 0 where
  taken : Bool → Answer
  refusal : String → Answer

-- `funduq_contract.Connect`
pub record Connect : Type 0 where
  pub public_key : String
  pub ticket : String
  pub nonce : String
  pub proof : String
  pub max_concurrent_runs : Json

pub record AgentRef : Type 0 where
  pub provider_key : String
  pub name : String

-- The row of a thread, as far as it is read.
pub record Thread : Type 0 where
  pub provider_key : String

-- `repr(x)` and the text of a validation error only ever stand in messages. The two tests say
-- which exception classes of the packages derive from `FunduqError` and from `ValueError`.
pub record Contract : Type 0 where
  pub repr : Json → String
  pub is_funduq_error : ErrorClass → Bool
  pub is_value_error : ErrorClass → Bool
  pub validate_registration : Dict → Validation Registration
  pub validate_connect : Connect → Validation (Unit {0})
  pub validate_verdict : Verdict → Validation (Unit {0})
  pub validate_chunk : Dict → Validation Json

-- `attach_provider` and its like take the number of the connection for the link object itself.
pub record Funduq (S : Type 0) : Type 0 where
  pub identity_public_key : String
  pub get_thread : S → String → Option Thread
  pub parties_of : S → String → Option (List String)
  pub get_thread_messages : S → String → List Json
  pub get_agent : S → AgentRef → Bool
  pub attach_provider : S → ℕ → Connect → Result String × S
  pub register_agents :
      S → ℕ → (String → Bool) → List Registration → Json → Result (List String) × S
  pub delete_agent : S → ℕ → String → Result (Unit {0}) × S
  pub answer_offer : S → Json → Answer → String → S
  pub report_event : S → Json → Json → String → Result Bool × S
  pub finish_run : S → Json → String → Result Bool × S
  pub detach_provider : S → String → ℕ → S

-- The calls of the socket of an LLM provider.
pub record LlmFunduq (S : Type 0) : Type 0 where
  pub identity_public_key : String
  pub attach_llm_provider : S → ℕ → Connect → Result String × S
  pub register_llm_providers : S → ℕ → List String → Json → Result (List String) × S
  pub delete_llm_offering : S → ℕ → String → Result (Unit {0}) × S
  pub detach_llm_provider : S → String → ℕ → S
