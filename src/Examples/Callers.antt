-- ===== src/Examples/Callers.antt =====
-- Callers of the gateway in the small world.
use funduq_server.Prelude.{◌≡◌, refl, ◌↔◌, none, some, [], ◌∷◌, ok, true, ◌==◌}
use funduq_server.Json.{pos, null}
use funduq_server.Presenter.{Checks}
use funduq_server.AgentSdk.Presenter.{Identity}
use funduq_server.Wire.Presenter.{read_presented, presented-Proves}
use funduq_server.SoukClient.{Agent, found, ambiguous, matches, resolve}
use funduq_server.SoukClient.Lookup.{OnlyOne, resolve_iff}

abbrev pub signing_checks : Checks
signing_checks = record {
  int_of_float = λ whole text. ok (pos 0);
  int_of_str = λ s. ok (pos 0);
  show_int = λ n. "7";
  sha256hex = λ body. "ab";
  encode_error = λ text. none;
  is_timestamp_fresh = λ n. ok true;
  verify_signature = λ key signature payload. ok (key == "pk");
}

abbrev pub caller : Identity
caller = record { public_key = "pk"; sign = λ payload. "sig" }

presented-Proves_example :
    read_presented signing_checks (λ body. "{}") null (some caller) true (pos 7) ≡ ok (some "pk")
presented-Proves_example =
    presented-Proves signing_checks (λ body. "{}") null caller true (pos 7) refl refl
      (λ payload. refl)

abbrev one : Agent
one = record { provider = "f1"; name = "helper"; provider_key = "key1" }

abbrev other : Agent
other = record { provider = "f2"; name = "helper"; provider_key = "key2" }

resolve_iff_example :
    (resolve (one ∷ other ∷ []) "helper" (some "key2") ≡ found other)
    ↔ OnlyOne "helper" (some "key2") (one ∷ other ∷ []) other
resolve_iff_example = resolve_iff (one ∷ other ∷ []) "helper" (some "key2") other

-- A name that two providers offer is resolved to neither.
two_offer : resolve (one ∷ other ∷ []) "helper" none ≡ ambiguous (one ∷ other ∷ [])
unfolding resolve matches
two_offer = refl
