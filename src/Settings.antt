-- ===== src/Settings.antt =====
-- souk_server/config.py: `core_settings_from_env`. `int`, `float` and the model of the settings are
-- not of this repository: `parse` is Python's parser of a kind, and the result is the values that
-- the model is given.
pub mod Env
use Prim.Native.String.{◌++◌}
use funduq_server.Prelude.{
  String, Option, none, some, List, [], ◌∷◌, ◌==◌, if◌then◌else◌, Result, ok, raise, ErrorClass,
  value_error, ◌>>=◌,
}
use funduq_server.Prelude as P
use funduq_server.Json.{Json}

pub data Kind : Type 0 where
  str int float : Kind

pub record Entry : Type 0 where
  pub field : String
  pub name : String
  pub kind : Kind

abbrev core_entry : String → String → Kind → Entry
core_entry field name kind = record { field = field; name = name; kind = kind }

-- `_CORE_ENV`
unfoldable pub core_env : List Entry
core_env =
    core_entry "database_url" "FUNDUQ_DATABASE_URL" str
    ∷ core_entry "db_schema" "FUNDUQ_DB_SCHEMA" str
    ∷ core_entry "token_signing_secret" "FUNDUQ_TOKEN_SIGNING_SECRET" str
    ∷ core_entry "identity_private_key" "FUNDUQ_IDENTITY_PRIVATE_KEY" str
    ∷ core_entry "stale_hidden_window_seconds" "FUNDUQ_STALE_HIDDEN_WINDOW_SECONDS" int
    ∷ core_entry "thread_queue_limit" "FUNDUQ_THREAD_QUEUE_LIMIT" int
    ∷ core_entry "provider_quality_tolerance" "FUNDUQ_PROVIDER_QUALITY_TOLERANCE" int
    ∷ core_entry "unserved_timeout_seconds" "FUNDUQ_UNSERVED_TIMEOUT_SECONDS" float
    ∷ core_entry "deliver_timeout_seconds" "FUNDUQ_DELIVER_TIMEOUT_SECONDS" float
    ∷ core_entry "undelivered_window_seconds" "FUNDUQ_UNDELIVERED_WINDOW_SECONDS" float
    ∷ []

kind_name : Kind → String
kind_name str = "str"
kind_name int = "int"
kind_name float = "float"

module _ (parse : Kind → String → Option Json) (repr : String → String) where
  parsed : Entry → String → Option Json → Result Json
  unfolding kind_name
  parsed e raw none = raise (record {
    class = value_error;
    text = e.name ++ (" is not a valid " ++ (kind_name e.kind ++ (": " ++ repr raw)));
  })
  parsed e raw (some value) = ok value

  value_of : Entry → Option String → Result (List (String × Json))
  unfolding parsed
  value_of e none = ok []
  value_of e (some raw) =
      if raw == ""
      then ok []
      else parsed e raw (parse e.kind raw) >>= λ value. ok ((e.field, value) ∷ [])

  unfoldable pub values_of : (String → Option String) → List Entry → Result (List (String × Json))
  unfolding value_of
  values_of environ [] = ok []
  values_of environ (e ∷ rest) = do
    first ← value_of e (environ e.name)
    others ← values_of environ rest
    ok (P.◌++◌ first others)

  -- `core_settings_from_env`, up to `CoreSettings(**values)`
  unfoldable pub core_settings_from_env : (String → Option String) → Result (List (String × Json))
  unfolding values_of core_env
  core_settings_from_env environ = values_of environ core_env
