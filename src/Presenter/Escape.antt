-- ===== src/Presenter/Escape.antt =====
-- The exceptions that a header can bring out of `presenter_key_of`.
use funduq_server.Prelude.{
  String, Bool, true, false, ◌∙◌, ◌≡◌, refl, ap, ◌↔◌, inl, inr, Option, none, some, Result, ok,
  raise, Error, key_error, >>=-eq-raise, Bool-cases,
}
use mathlib.Core.Path.{subst}
use funduq_server.Json.{ℤ, Json, obj, Dict, lookup}
use funduq_server.Presenter.{
  Checks, Fields, item, required, read_fields, read_proof, to_int, judge, verified, in_window,
  signed_by, presenter_payload, presenter_key_of, is_malformed, fail,
}
use funduq_server.Presenter.Proof.{
  Presents, presenter_key_of-Presents, read_fields-Presents, item-some, item-eq,
}

-- What the checks after the `try` raise, at the first of them that does.
pub data Breaks (checks : Checks) (body key : String) (timestamp : ℤ) (signature : String)
    (e : Error) : Type 0 where
  clock :
      checks.is_timestamp_fresh timestamp ≡ raise e → Breaks checks body key timestamp signature e
  encoding :
      checks.is_timestamp_fresh timestamp ≡ ok true
      → presenter_payload checks key timestamp body ≡ raise e
      → Breaks checks body key timestamp signature e
  signing :
      (payload : String)
      → checks.is_timestamp_fresh timestamp ≡ ok true
      → presenter_payload checks key timestamp body ≡ ok payload
      → checks.verify_signature key signature payload ≡ raise e
      → Breaks checks body key timestamp signature e

-- The ways for an exception to come out: from `json.loads`, from `int` of the timestamp of an object
-- with a `publicKey`, neither one of the three kinds that count as malformed, or from a check of
-- what the header presents.
pub data Escapes (checks : Checks) (header : Option (Result Json)) (body : String) (e : Error)
    : Type 0 where
  loading : header ≡ some (raise e) → is_malformed e.class ≡ false → Escapes checks header body e
  timing :
      (proof : Dict) (key raw : Json)
      → header ≡ some (ok (obj proof))
      → lookup "publicKey" proof ≡ some key
      → lookup "timestamp" proof ≡ some raw
      → to_int checks raw ≡ raise e
      → is_malformed e.class ≡ false
      → Escapes checks header body e
  checking :
      (key signature : String) (timestamp : ℤ)
      → Presents checks header key timestamp signature
      → Breaks checks body key timestamp signature e
      → Escapes checks header body e

raise-injective : {A : Type 0} {e e' : Error} → ◌≡◌ {A = Result A} (raise e) (raise e') → e ≡ e'
raise-injective h = cc

missing-malformed :
    (o : Option Json) (e : Error) → required o ≡ raise e → is_malformed e.class ≡ true
unfolding required is_malformed fail
missing-malformed none e h =
    let same : record { class = key_error; text = "" } ≡ e = raise-injective h in
    subst (λ (x : Error). is_malformed x.class ≡ true) same refl
missing-malformed (some v) e h = absurd (cc)

-- A missing key is one of the three kinds.
item-malformed :
    (k : String) (d : Dict) (e : Error) → item k d ≡ raise e → is_malformed e.class ≡ true
unfolding item
item-malformed k d e h = missing-malformed (lookup k d) e h

module _ (checks : Checks) (body : String) (e : Error) where
  malformed-raise :
      (d : Error) → judge checks body (raise d) ≡ raise e → (d ≡ e) × (is_malformed e.class ≡ false)
  unfolding judge
  malformed-raise d h = elim (Bool-cases (is_malformed d.class)) [
    | inl known ↦ let bad = rw (judge, known) at h in absurd (cc)
    | inr other ↦
        let same : d ≡ e = raise-injective (rw (judge, other) at h) in
        (same, subst (λ (x : Error). is_malformed x.class ≡ false) same other)
  ]

  verified-Breaks :
      (timestamp : ℤ) (key signature : String)
      → verified checks body timestamp (some key) (some signature) ≡ raise e
      → Breaks checks body key timestamp signature e
  unfolding verified in_window signed_by
  verified-Breaks timestamp key signature h =
      elim (>>=-eq-raise _ (checks.is_timestamp_fresh timestamp) h) [
        | inl broken ↦ Breaks.clock broken
        | inr (fresh, f, h1) ↦ in_time fresh f h1
      ]
    where
      in_time :
          (fresh : Bool)
          → checks.is_timestamp_fresh timestamp ≡ ok fresh
          → in_window fresh (signed_by checks body timestamp key signature) ≡ raise e
          → Breaks checks body key timestamp signature e
      in_time false f h = absurd (cc)
      in_time true f h = elim (>>=-eq-raise _ (presenter_payload checks key timestamp body) h) [
        | inl broken ↦ Breaks.encoding f broken
        | inr (payload, w, h1) ↦
            elim (>>=-eq-raise _ (checks.verify_signature key signature payload) h1) [
              | inl broken ↦ Breaks.signing payload f w broken
              | inr (good, v, h2) ↦ absurd (cc)
            ]
      ]

  proof-Escapes :
      (proof : Dict)
      → read_fields checks proof ≡ raise e
      → is_malformed e.class ≡ false
      → Escapes checks (some (ok (obj proof))) body e
  unfolding read_fields
  proof-Escapes proof h unforeseen = elim (>>=-eq-raise _ (item "publicKey" proof) h) [
    | inl no_key ↦ let bad = item-malformed "publicKey" proof e no_key in absurd (cc)
    | inr (key, named, h1) ↦ elim (>>=-eq-raise _ (item "timestamp" proof) h1) [
      | inl no_time ↦ let bad = item-malformed "timestamp" proof e no_time in absurd (cc)
      | inr (raw, timed, h2) ↦ elim (>>=-eq-raise _ (to_int checks raw) h2) [
        | inl broken ↦
            Escapes.timing proof key raw refl (item-eq "publicKey" proof key named)
              (item-eq "timestamp" proof raw timed) broken unforeseen
        | inr (timestamp, number, h3) ↦ elim (>>=-eq-raise _ (item "signature" proof) h3) [
          | inl unsigned ↦ let bad = item-malformed "signature" proof e unsigned in absurd (cc)
          | inr (signature, signed, h4) ↦ absurd (cc)
        ]
      ]
    ]
  ]

  fields-Escapes :
      (proof : Dict) (r : Result Fields)
      → read_fields checks proof ≡ r
      → judge checks body r ≡ raise e
      → Escapes checks (some (ok (obj proof))) body e
  fields-Escapes proof (raise d) u h =
      let (same, unforeseen) = malformed-raise d h in
      proof-Escapes proof (u ∙ ap raise same) unforeseen
  fields-Escapes proof (ok fields) u h =
      let (key, signature, p, v) =
        read_fields-Presents checks body proof fields (raise e) u h (λ bad. absurd (cc)) in
      Escapes.checking key signature fields.timestamp p
        (verified-Breaks fields.timestamp key signature v)

  header-Escapes :
      (header : Option (Result Json))
      → presenter_key_of checks header body ≡ raise e
      → Escapes checks header body e
  unfolding presenter_key_of read_proof judge is_malformed fail
  header-Escapes none h = absurd (cc)
  header-Escapes (some (raise d)) h =
      let (same, unforeseen) = malformed-raise d h in
      Escapes.loading (ap (λ (x : Error). some (raise x)) same) unforeseen
  header-Escapes (some (ok (obj proof))) h = fields-Escapes proof (read_fields checks proof) refl h
  header-Escapes (some (ok _)) h = absurd (cc)

  Breaks-verified :
      (key signature : String) (timestamp : ℤ)
      → Breaks checks body key timestamp signature e
      → verified checks body timestamp (some key) (some signature) ≡ raise e
  unfolding verified in_window signed_by
  Breaks-verified key signature timestamp (Breaks.clock broken) = rw broken refl
  Breaks-verified key signature timestamp (Breaks.encoding f broken) = rw (f, broken) refl
  Breaks-verified key signature timestamp (Breaks.signing payload f w broken) =
      rw (f, w, broken) refl

  Escapes-header :
      (header : Option (Result Json))
      → Escapes checks header body e
      → presenter_key_of checks header body ≡ raise e
  unfolding presenter_key_of read_proof read_fields judge
  Escapes-header header (Escapes.loading loaded unforeseen) = rw (loaded, unforeseen) refl
  Escapes-header header (Escapes.timing proof key raw object named timed broken unforeseen) =
      rw
        (
          object,
          item-some "publicKey" proof key named,
          item-some "timestamp" proof raw timed,
          broken,
          unforeseen,
        )
        refl
  Escapes-header header (Escapes.checking key signature timestamp p b) =
      presenter_key_of-Presents checks body header key signature timestamp p
      ∙ Breaks-verified key signature timestamp b

  -- An exception leaves `presenter_key_of` exactly where `json.loads` of the header, or `int` of the
  -- timestamp of an object with a `publicKey`, raises one that is neither a `TypeError`, a
  -- `ValueError` nor a `KeyError`, or where the header presents a key and the test of the timestamp,
  -- the encoding of the payload or the check of the signature raises one: no other header, however
  -- malformed, brings one out.
  pub presenter_key_of-Escapes :
      (header : Option (Result Json))
      → (presenter_key_of checks header body ≡ raise e) ↔ Escapes checks header body e
  presenter_key_of-Escapes header = (header-Escapes header, Escapes-header header)
