-- ===== src/WsProvider/Registration.antt =====
-- `_AGENT_NAME` and `_parse_registration`: the roster of a register frame.
pub mod Names
use Prim.Native.String.{◌++◌}
use funduq_server.Prelude.{
  ℕ, zero, suc, String, Bool, true, false, ◌&&◌, ◌||◌, Option, none, some, List, [], ◌∷◌, nat_eq,
  leb, if◌then◌else◌, Result, ok, raise, value_error, ◌>>=◌,
}
use funduq_server.Text.{codes}
use funduq_server.Json.{Json, str, obj, Dict, get, as_list}
use funduq_server.Funduq.{Contract, Registration, Validation, valid, invalid}

-- `[A-Za-z0-9_-]`
abbrev pub is_name_char : ℕ → Bool
is_name_char c =
    (leb b'A' c && leb c b'Z')
    || ((leb b'a' c && leb c b'z')
        || ((leb b'0' c && leb c b'9') || (nat_eq c b'_' || nat_eq c b'-')))

abbrev pub newline : ℕ
newline = 10

-- The greedy run of at most `room` characters of the class, what follows it, and its length.
unfoldable pub take_name : ℕ → ℕ → List ℕ → ℕ × List ℕ
take_name zero n cs = (n, cs)
take_name (suc room) n [] = (n, [])
take_name (suc room) n (c ∷ cs) =
    let rest = take_name room (suc n) cs in if is_name_char c then rest else (n, c ∷ cs)

-- `$` stands at the end of the text, and also before a newline that ends it.
at_end : List ℕ → Bool
at_end [] = true
at_end (c ∷ []) = nat_eq c newline
at_end (c ∷ d ∷ cs) = false

-- `re.compile(r"^[A-Za-z0-9_-]{1,128}$").match(name)`. The class holds no newline, so a shorter
-- run than the greedy one never ends at `$`.
unfoldable pub match_name : List ℕ → Bool
unfolding take_name at_end
match_name cs = let (n, rest) = take_name 128 0 cs in leb 1 n && at_end rest

fail {ℓ} : {A : Type ℓ} → String → Result A
fail message = raise (record { class = value_error; text = message })

check_name : Contract → Registration → Result Registration
unfolding fail
check_name contract registration =
    if match_name (codes registration.name)
    then ok registration
    else fail (
        "invalid agent name "
        ++ (contract.repr (str registration.name)
            ++ ": names are 1-128 characters of [A-Za-z0-9_-]"))

check_entry : Contract → Validation Registration → Result Registration
unfolding check_name fail
check_entry contract (valid registration) = check_name contract registration
check_entry contract (invalid e) = fail ("invalid agent registration: " ++ e)

unfoldable pub parse_entry : Contract → Json → Result Registration
unfolding check_entry fail
parse_entry contract (obj agent) = check_entry contract (contract.validate_registration agent)
parse_entry contract _ = fail "each agent must be an object"

unfoldable pub parse_entries : Contract → List Json → Result (List Registration)
parse_entries contract [] = ok []
parse_entries contract (j ∷ js) = do
  registration ← parse_entry contract j
  rest ← parse_entries contract js
  ok (registration ∷ rest)

parse_agents : Contract → Option (List Json) → Result (List Registration)
unfolding fail
parse_agents contract none = fail "register needs a non-empty 'agents' list"
parse_agents contract (some []) = fail "register needs a non-empty 'agents' list"
parse_agents contract (some (j ∷ js)) = parse_entries contract (j ∷ js)

unfoldable pub parse_registration : Contract → Dict → Result (List Registration)
unfolding parse_agents
parse_registration contract frame = parse_agents contract (as_list (get "agents" frame))
