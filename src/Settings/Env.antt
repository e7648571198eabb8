-- ===== src/Settings/Env.antt =====
-- An empty variable is an unset one.
use funduq_server.Prelude.{
  String, ◌≡◌, refl, Option, none, some, List, [], ◌∷◌, ◌==◌, Bool-cases, inl, inr, if◌then◌else◌,
}
use funduq_server.Json.{Json}
use funduq_server.Settings.{Kind, Entry, value_of, values_of, core_env, core_settings_from_env}

-- The environment without its empty variables.
abbrev given : Option String → Option String
given none = none
given (some raw) = if raw == "" then none else some raw

module _ (parse : Kind → String → Option Json) (repr : String → String) where
  value_of-given :
      (e : Entry) (raw : Option String)
      → value_of parse repr e (given raw) ≡ value_of parse repr e raw
  unfolding value_of
  value_of-given e none = refl
  value_of-given e (some raw) = elim (Bool-cases (raw == "")) [
    | inl empty ↦ rw empty refl
    | inr full ↦ rw (full, full) refl
  ]

  values_of-given :
      (environ : String → Option String) (entries : List Entry)
      → values_of parse repr (λ name. given (environ name)) entries
        ≡ values_of parse repr environ entries
  unfolding values_of
  values_of-given environ [] = refl
  values_of-given environ (e ∷ rest) =
      rw (value_of-given e (environ e.name), values_of-given environ rest) refl

  -- The settings are the same whether a variable is empty or not set at all.
  pub core_settings_from_env-given :
      (environ : String → Option String)
      → core_settings_from_env parse repr (λ name. given (environ name))
        ≡ core_settings_from_env parse repr environ
  unfolding core_settings_from_env
  core_settings_from_env-given environ = values_of-given environ core_env
