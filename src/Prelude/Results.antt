-- ===== src/Prelude/Results.antt =====
-- Python's exceptions as values. The classes that the source names in an `except` clause or in
-- the table of HTTP statuses have a constructor each; `str(e)` is carried beside the class.
use Prim.Native.String.{String}
use mathlib.Core.Path.{◌≡◌, refl}
use mathlib.Core.Logic.{◌⊎◌, inl, inr}

pub data ErrorClass : Type 0 where
  agent_not_found llm_provider_not_found thread_not_found run_not_found : ErrorClass
  thread_ownership_mismatch provider_fingerprint_taken agent_in_use : ErrorClass
  llm_offering_in_use invalid_registration invalid_chain presenter_required : ErrorClass
  stream_taken invalid_cancel invalid_resolution thread_membership_required : ErrorClass
  invalid_run_input thread_queue_full kyok_rejected funduq_error : ErrorClass
  value_error task_not_found type_error attribute_error : ErrorClass
  key_error overflow_error other : ErrorClass

pub record Error : Type 0 where
  pub class : ErrorClass
  pub text : String

pub data Result {ℓ} (A : Type ℓ) : Type ℓ where
  ok : A → Result A
  raise : Error → Result A

infixl 5 ◌>>=◌
abbrev pub ◌>>=◌ {ℓ κ} : {A : Type ℓ} {B : Type κ} → Result A → (A → Result B) → Result B
raise e >>= next = raise e
ok first >>= next = next first

pub ok-injective {ℓ} : {A : Type ℓ} {a b : A} → ◌≡◌ {A = Result A} (ok a) (ok b) → a ≡ b
ok-injective h = cc

module _ {ℓ κ} {A : Type ℓ} {B : Type κ} (next : A → Result B) where
  -- A chain that raised: its first part did, or the rest after it.
  pub >>=-eq-raise :
      {e : Error} (r : Result A)
      → (r >>= next) ≡ raise e
      → (r ≡ raise e) ⊎ ((first : A) × (r ≡ ok first) × (next first ≡ raise e))
  >>=-eq-raise (raise e) h = inl (cc)
  >>=-eq-raise (ok first) h = inr (first, refl, h)

  -- A chain that came to its end, with what its first part gave.
  pub >>=-eq-ok :
      {last : B} (r : Result A)
      → (r >>= next) ≡ ok last
      → (first : A) × (r ≡ ok first) × (next first ≡ ok last)
  >>=-eq-ok (raise e) h = absurd (cc)
  >>=-eq-ok (ok first) h = (first, refl, h)

-- What holds of every result that is not an exception.
abbrev pub Ensures {ℓ κ} : {A : Type ℓ} → (A → Type κ) → Result A → Type κ
Ensures P (ok a) = P a
Ensures P (raise e) = Unit
