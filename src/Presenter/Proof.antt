-- ===== src/Presenter/Proof.antt =====
-- What it takes to be the presenter of a request.
use funduq_server.Prelude.{
  String, Bool, true, false, ◌≡◌, ◌≢◌, refl, sym, if◌then◌else◌, ◌↔◌, Option, none, some, Result,
  ok, raise, >>=-eq-ok, ok-injective, arith, ap, ◌∙◌,
}
use mathlib.Core.Path.{subst}
use mathlib.Core.Option.{some-injective}
use funduq_server.Json.{ℤ, Json, str, obj, Dict, lookup, as_str}
use funduq_server.Presenter.{
  Checks, Fields, item, required, read_fields, read_proof, to_int, verified, in_window, signed_by,
  judge, presenter_key_of, presenter_payload,
}

-- A header that is an object with a key, a timestamp that stands for a number, and a signature; the
-- key and the signature are texts.
pub record Presents (checks : Checks) (header : Option (Result Json)) (key : String) (timestamp : ℤ)
    (signature : String) : Type 0 where
  pub proof : Dict
  pub raw : Json
  pub object : header ≡ some (ok (obj proof))
  pub named : lookup "publicKey" proof ≡ some (str key)
  pub timed : lookup "timestamp" proof ≡ some raw
  pub number : to_int checks raw ≡ ok timestamp
  pub signed : lookup "signature" proof ≡ some (str signature)

-- Such a header proves the key for the body: the timestamp is in the window, and the signature
-- verifies over the payload of this key, this timestamp and this body.
pub record Proves (checks : Checks) (header : Option (Result Json)) (body key : String)
    : Type 0 where
  pub timestamp : ℤ
  pub signature : String
  pub payload : String
  pub presents : Presents checks header key timestamp signature
  pub fresh : checks.is_timestamp_fresh timestamp ≡ ok true
  pub written : presenter_payload checks key timestamp body ≡ ok payload
  pub verifies : checks.verify_signature key signature payload ≡ ok true

required-eq : (o : Option Json) (v : Json) → required o ≡ ok v → o ≡ some v
unfolding required
required-eq none v h = absurd (cc)
required-eq (some w) v h = cc

pub item-eq : (k : String) (d : Dict) (v : Json) → item k d ≡ ok v → lookup k d ≡ some v
unfolding item
item-eq k d v h = required-eq (lookup k d) v h

as_str-eq : (j : Json) (s : String) → as_str j ≡ some s → j ≡ str s
as_str-eq (str t) s h = cc
as_str-eq _ s h = absurd (cc)

pub item-some : (k : String) (d : Dict) (v : Json) → lookup k d ≡ some v → item k d ≡ ok v
unfolding item required
item-some k d v h = rw h

read_fields-eq :
    (checks : Checks) (proof : Dict) (fields : Fields)
    → read_fields checks proof ≡ ok fields
    → (raw : Json) × (lookup "publicKey" proof ≡ some fields.public_key)
      × (lookup "timestamp" proof ≡ some raw)
      × (to_int checks raw ≡ ok fields.timestamp)
      × (lookup "signature" proof ≡ some fields.signature)
unfolding read_fields
read_fields-eq checks proof fields h =
    let (key, named, h1) = >>=-eq-ok _ (item "publicKey" proof) h in
    let (raw, timed, h2) = >>=-eq-ok _ (item "timestamp" proof) h1 in
    let (timestamp, number, h3) = >>=-eq-ok _ (to_int checks raw) h2 in
    let (signature, signed, h4) = >>=-eq-ok _ (item "signature" proof) h3 in
    let same = ok-injective h4 in
    (
      raw,
      item-eq "publicKey" proof key named ∙ ap (λ (f : Fields). some f.public_key) same,
      item-eq "timestamp" proof raw timed,
      number ∙ ap (λ (f : Fields). ok f.timestamp) same,
      item-eq "signature" proof signature signed ∙ ap (λ (f : Fields). some f.signature) same,
    )

module _ (checks : Checks) (body : String) where
  -- What a header that presents something comes to.
  pub presenter_key_of-Presents :
      (header : Option (Result Json)) (key signature : String) (timestamp : ℤ)
      → Presents checks header key timestamp signature
      → presenter_key_of checks header body
        ≡ verified checks body timestamp (some key) (some signature)
  unfolding presenter_key_of read_proof read_fields judge
  presenter_key_of-Presents header key signature timestamp p = rw (
    p.object,
    item-some "publicKey" p.proof (str key) p.named,
    item-some "timestamp" p.proof p.raw p.timed,
    p.number,
    item-some "signature" p.proof (str signature) p.signed,
  )

  -- And one whose fields can be read comes to `None` unless it presents something.
  pub read_fields-Presents :
      (proof : Dict) (fields : Fields) (answer : Result (Option String))
      → read_fields checks proof ≡ ok fields
      → judge checks body (ok fields) ≡ answer
      → answer ≢ ok none
      → (key : String) × (signature : String) × Presents checks
          (some (ok (obj proof)))
          key
          fields.timestamp
          signature
        × (verified checks body fields.timestamp (some key) (some signature) ≡ answer)
  unfolding judge
  read_fields-Presents proof fields answer u h some_key =
      go (as_str fields.public_key) (as_str fields.signature) refl refl h
    where
      go :
          (k s : Option String)
          → as_str fields.public_key ≡ k
          → as_str fields.signature ≡ s
          → verified checks body fields.timestamp k s ≡ answer
          → (key : String) × (signature : String) × Presents checks
              (some (ok (obj proof)))
              key
              fields.timestamp
              signature
            × (verified checks body fields.timestamp (some key) (some signature) ≡ answer)
      go none s ek es h = absurd (some_key (sym (unfold verified in h)))
      go (some key) none ek es h = absurd (some_key (sym (unfold verified in h)))
      go (some key) (some signature) ek es h =
          let (raw, named, timed, number, signed) = read_fields-eq checks proof fields u in
          (
            key,
            signature,
            record {
              proof = proof;
              raw = raw;
              object = refl;
              named = named ∙ ap some (as_str-eq fields.public_key key ek);
              timed = timed;
              number = number;
              signed = signed ∙ ap some (as_str-eq fields.signature signature es);
            },
            h,
          )

module _ (checks : Checks) (body key : String) where
  verified-Proves :
      (header : Option (Result Json)) (k signature : String) (timestamp : ℤ)
      → Presents checks header k timestamp signature
      → verified checks body timestamp (some k) (some signature) ≡ ok (some key)
      → Proves checks header body key
  unfolding verified in_window signed_by
  verified-Proves header k signature timestamp p h =
      let (fresh, f, h1) = >>=-eq-ok _ (checks.is_timestamp_fresh timestamp) h in in_time fresh f h1
    where
      in_time :
          (fresh : Bool)
          → checks.is_timestamp_fresh timestamp ≡ ok fresh
          → in_window fresh (signed_by checks body timestamp k signature) ≡ ok (some key)
          → Proves checks header body key
      in_time false f h = absurd (cc)
      in_time true f h =
          let (payload, w, h2) = >>=-eq-ok _ (presenter_payload checks k timestamp body) h in
          let (good, v, h3) = >>=-eq-ok _ (checks.verify_signature k signature payload) h2 in
          judged payload good w v h3
        where
          judged :
              (payload : String) (good : Bool)
              → presenter_payload checks k timestamp body ≡ ok payload
              → checks.verify_signature k signature payload ≡ ok good
              → ◌≡◌ {A = Result (Option String)}
                  (ok (if good then some k else none))
                  (ok (some key))
              → Proves checks header body key
          judged payload false w v h = absurd (cc)
          judged payload true w v h =
              subst (λ (x : String). Proves checks header body x)
                (some-injective k key (ok-injective h))
                (record {
                  timestamp = timestamp;
                  signature = signature;
                  payload = payload;
                  presents = p;
                  fresh = f;
                  written = w;
                  verifies = v;
                })

  header-Proves :
      (header : Option (Result Json))
      → presenter_key_of checks header body ≡ ok (some key)
      → Proves checks header body key
  unfolding presenter_key_of read_proof judge
  header-Proves none h = absurd (cc)
  header-Proves (some (raise e)) h = absurd (ground arith)
  header-Proves (some (ok (obj proof))) h = read (read_fields checks proof) refl h
    where
      read :
          (r : Result Fields)
          → read_fields checks proof ≡ r
          → judge checks body r ≡ ok (some key)
          → Proves checks (some (ok (obj proof))) body key
      read (raise e) u h = absurd (ground arith)
      read (ok fields) u h =
          let (k, signature, p, v) =
            read_fields-Presents checks body proof fields (ok (some key)) u h (λ e. absurd (cc)) in
          verified-Proves (some (ok (obj proof))) k signature fields.timestamp p v
  header-Proves (some (ok _)) h = absurd (cc)

  Proves-header :
      (header : Option (Result Json))
      → Proves checks header body key
      → presenter_key_of checks header body ≡ ok (some key)
  unfolding verified in_window signed_by
  Proves-header header p =
      presenter_key_of-Presents checks body header key p.signature p.timestamp p.presents
      ∙ rw (p.fresh, p.written, p.verifies) refl

  -- The presenter of a request is a key exactly if the header proves that key for the body.
  pub presenter_key_of-Proves :
      (header : Option (Result Json))
      → (presenter_key_of checks header body ≡ ok (some key)) ↔ Proves checks header body key
  presenter_key_of-Proves header = (header-Proves header, Proves-header header)
