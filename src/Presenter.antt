-- ===== src/Presenter.antt =====
-- souk_server/presenter.py: the key that a request's proof names. A header is modelled by what
-- `json.loads` makes of its text, the JSON value or the exception; no header and an empty one are
-- `none`.
pub mod Proof
pub mod Escape
use Prim.Native.String.{◌++◌}
use funduq_server.Prelude.{
  ℕ, String, Bool, true, false, ◌||◌, not, Option, none, some, List, [], ◌∷◌, if◌then◌else◌, Result,
  ok, raise, Error, ErrorClass, type_error, value_error, key_error, overflow_error, ◌>>=◌,
}
use funduq_server.Json.{ℤ, pos, Json, null, bool, int, float, str, arr, obj, Dict, lookup, as_str}

-- Python's `int` of a float and of a text, `hashlib.sha256(body).hexdigest()`, the text of a number,
-- what `encode` raises for a text, if it does, the clock's window of `is_timestamp_fresh`, and
-- `verify_signature`. The last two may raise, as on a number too large for the clock.
pub record Checks : Type 0 where
  pub int_of_float : Option ℤ → String → Result ℤ
  pub int_of_str : String → Result ℤ
  pub show_int : ℤ → String
  pub sha256hex : String → String
  pub encode_error : String → Option Error
  pub is_timestamp_fresh : ℤ → Result Bool
  pub verify_signature : String → String → String → Result Bool

-- `text.encode()`: the bytes stand as their text
encoded : String → Option Error → Result String
encoded text none = ok text
encoded text (some e) = raise e

encode : Checks → String → Result String
unfolding encoded
encode checks text = encoded text (checks.encode_error text)

-- `presenter_payload`
unfoldable pub presenter_payload : Checks → String → ℤ → String → Result String
unfolding encode
presenter_payload checks public_key timestamp body = encode checks (
    "funduq-server-presenter:"
    ++ (public_key ++ (":" ++ (checks.show_int timestamp ++ (":" ++ checks.sha256hex body)))))

fail {ℓ} : {A : Type ℓ} → ErrorClass → Result A
fail class = raise (record { class = class; text = "" })

-- `int(x)`
unfoldable pub to_int : Checks → Json → Result ℤ
unfolding fail
to_int checks (int n) = ok n
to_int checks (bool true) = ok (pos 1)
to_int checks (bool false) = ok (pos 0)
to_int checks (float whole text) = checks.int_of_float whole text
to_int checks (str s) = checks.int_of_str s
to_int checks _ = fail type_error

required : Option Json → Result Json
unfolding fail
required none = fail key_error
required (some v) = ok v

-- `d[k]`
unfoldable pub item : String → Dict → Result Json
unfolding required
item k d = required (lookup k d)

-- The three fields, in the order in which they are read.
pub record Fields : Type 0 where
  pub public_key : Json
  pub timestamp : ℤ
  pub signature : Json

unfoldable pub read_fields : Checks → Dict → Result Fields
unfolding item
read_fields checks proof = do
  public_key ← item "publicKey" proof
  raw ← item "timestamp" proof
  timestamp ← to_int checks raw
  signature ← item "signature" proof
  ok (record { public_key = public_key; timestamp = timestamp; signature = signature })

-- the body of the `try`, on text that is JSON; what is no object has no item of a text's name
unfoldable pub read_proof : Checks → Json → Result Fields
unfolding read_fields fail
read_proof checks (obj proof) = read_fields checks proof
read_proof checks _ = fail type_error

-- `except (TypeError, ValueError, KeyError)`
unfoldable pub is_malformed : ErrorClass → Bool
is_malformed type_error = true
is_malformed value_error = true
is_malformed key_error = true
is_malformed _ = false

signed_by : Checks → String → ℤ → String → String → Result (Option String)
unfolding presenter_payload
signed_by checks body timestamp key signature = do
  payload ← presenter_payload checks key timestamp body
  good ← checks.verify_signature key signature payload
  ok (if good then some key else none)

in_window : Bool → Result (Option String) → Result (Option String)
in_window true answer = answer
in_window false answer = ok none

-- what follows the `try`
unfoldable pub verified :
    Checks → String → ℤ → Option String → Option String → Result (Option String)
unfolding signed_by in_window
verified checks body timestamp none signature = ok none
verified checks body timestamp (some key) none = ok none
verified checks body timestamp (some key) (some signature) =
    checks.is_timestamp_fresh timestamp >>= λ fresh.
    in_window fresh (signed_by checks body timestamp key signature)

unfoldable pub judge : Checks → String → Result Fields → Result (Option String)
unfolding verified is_malformed
judge checks body (ok fields) =
    verified checks body fields.timestamp (as_str fields.public_key) (as_str fields.signature)
judge checks body (raise e) = if is_malformed e.class then ok none else raise e

-- `presenter_key_of`
unfoldable pub presenter_key_of : Checks → Option (Result Json) → String → Result (Option String)
unfolding judge read_proof
presenter_key_of checks none body = ok none
presenter_key_of checks (some loaded) body =
    judge checks body (loaded >>= λ proof. read_proof checks proof)
