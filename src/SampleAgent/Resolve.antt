-- ===== src/SampleAgent/Resolve.antt =====
-- resolve.py: a sub-agent's name as its address. The rows are those of the body of `GET /agents`,
-- with the three fields that are read of them as texts.
pub mod Pair
use Prim.Native.Char.{Char}
use Prim.Native.String as S
use funduq_server.Prelude.{
  String, Bool, true, false, not, ◌&&◌, ◌||◌, Option, none, some, List, [], ◌∷◌, keep, ◌==◌,
  if◌then◌else◌,
}
use mathlib.Core.List.{reverse}
use funduq_server.Text.{rstrip_slash}

-- the part of `SubAgentConfig` that is read here
pub record SubAgentConfig : Type 0 where
  pub name : String
  pub agent : Option String
  pub provider : Option String
  pub a2a_url : Option String

pub record Row : Type 0 where
  pub name : String
  pub provider_key : String
  pub fingerprint : String

pub record Address : Type 0 where
  pub url : String
  pub provider : Option String
  pub provider_key : Option String
  pub agent_name : Option String

-- An address, or `SubAgentUnresolvable`, whose text names the candidates if there are any.
pub data Resolved : Type 0 where
  found : Address → Resolved
  unlisted : Resolved
  several : List Row → Resolved

-- a text that is neither absent nor empty
abbrev pub given : Option String → Option String
given none = none
given (some s) = if s == "" then none else some s

cons_first : Char → List String → List String
cons_first c [] = S.◌∷◌ c "" ∷ []
cons_first c (part ∷ parts) = S.◌∷◌ c part ∷ parts

-- `s.split("/")`
unfoldable pub split_slash : String → List String
unfolding cons_first
split_slash S.[] = "" ∷ []
split_slash (S.◌∷◌ c s) =
    let rest = split_slash s in if S.◌∷◌ c "" == "/" then "" ∷ rest else cons_first c rest

no_pair : String → Address
no_pair url = record { url = url; provider = none; provider_key = none; agent_name = none }

-- the last four parts, the last one first
of_parts : String → List String → Address
unfolding no_pair
of_parts url (rpc ∷ agent_name ∷ provider ∷ a2a ∷ parts) =
    if (rpc == "rpc") && (a2a == "a2a")
    then record {
      url = url;
      provider = some provider;
      provider_key = none;
      agent_name = some agent_name;
    }
    else no_pair url
of_parts url parts = no_pair url

-- `_address_from_url`
unfoldable pub address_from_url : String → Address
unfolding of_parts
address_from_url url = of_parts url (reverse (split_slash (rstrip_slash url)))

abbrev pub pair_url : String → String → String → String
pair_url base fingerprint name =
    S.◌++◌ base (S.◌++◌ "/a2a/" (S.◌++◌ fingerprint (S.◌++◌ "/" (S.◌++◌ name "/rpc"))))

is_wanted : String → Option String → Row → Bool
is_wanted wanted none row = row.name == wanted
is_wanted wanted (some provider) row =
    row.name == wanted && (row.provider_key == provider || row.fingerprint == provider)

or_name : Option String → String → String
or_name none name = name
or_name (some agent) name = agent

-- the test of `candidates`
unfoldable pub is_candidate : SubAgentConfig → Row → Bool
unfolding is_wanted or_name
is_candidate sub row = is_wanted (or_name (given sub.agent) sub.name) (given sub.provider) row

of_candidates : String → List Row → Resolved
of_candidates base [] = unlisted
of_candidates base (row ∷ []) = found (record {
  url = pair_url base row.fingerprint row.name;
  provider = some row.fingerprint;
  provider_key = some row.provider_key;
  agent_name = some row.name;
})
of_candidates base (row ∷ other ∷ rest) = several (row ∷ other ∷ rest)

of_url : List Row → SubAgentConfig → String → Option String → Resolved
unfolding address_from_url of_candidates
of_url roster sub souk_http_url (some url) = found (address_from_url url)
of_url roster sub souk_http_url none =
    of_candidates (rstrip_slash souk_http_url) (keep (is_candidate sub) roster)

-- `resolve_address`, with the roster as it is listed at the call
unfoldable pub resolve_address : List Row → SubAgentConfig → String → Resolved
unfolding of_url
resolve_address roster sub souk_http_url = of_url roster sub souk_http_url (given sub.a2a_url)

keep_found : Resolved → Option Address
keep_found (found address) = some address
keep_found _ = none

-- `ResolvedAddress.get`: what it gives, and what it keeps for the next call
unfoldable pub resolved_get :
    List Row → SubAgentConfig → String → Option Address → Resolved × Option Address
unfolding keep_found
resolved_get roster sub souk_http_url (some address) = (found address, some address)
resolved_get roster sub souk_http_url none =
    let resolved = resolve_address roster sub souk_http_url in (resolved, keep_found resolved)
