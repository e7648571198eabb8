-- ===== src/WsProvider/Hello/Complete.antt =====
-- What a hello carried where the checks let it through.
use Prim.Native.String.{◌++◌}
use mathlib.Core.Path.{subst}
use funduq_server.Prelude.{
  String, true, false, ◌≡◌, refl, ap, Option, none, some, ◌==◌, Bool-cases, inl, inr, ◌⊎◌, eq_iff,
  ok,
}
use funduq_server.Json.{Json, str, obj, Dict, get, nonempty_str, equals_nat, as_dict}
use funduq_server.Funduq.{Contract, Connect, Validation, valid, invalid}
use funduq_server.WsCommon.{
  Message, disconnect, binary, text, unloadable, receive_hello, check_hello, parse_frame, proceed,
  is_type,
}
use funduq_server.WsProvider.Hello.{require, check_connect, read_fields, read_hello}

-- A text that is not empty.
pub record IsText (j : Json) (s : String) : Type 0 where
  pub same : j ≡ str s
  pub full : (s == "") ≡ false

-- The hello as the handshake reads it, of version 4, with its four texts and the contract's consent.
pub record IsComplete (contract : Contract) (frame : Dict) (hello : Connect) : Type 0 where
  pub version : equals_nat 4 (get "version" frame) ≡ true
  pub public_key : IsText (get "publicKey" frame) hello.public_key
  pub ticket : IsText (get "ticket" frame) hello.ticket
  pub nonce : IsText (get "nonce" frame) hello.nonce
  pub proof : IsText (get "proof" frame) hello.proof
  pub runs : hello.max_concurrent_runs ≡ get "maxConcurrentRuns" frame
  pub consent : contract.validate_connect hello ≡ valid tt

nonempty_str-IsText : (j : Json) (s : String) → nonempty_str j ≡ some s → IsText j s
nonempty_str-IsText (str t) s h = elim (Bool-cases (t == "")) [
  | inl empty ↦ let bad = rw (empty) at h in absurd (cc)
  | inr full ↦
      let same : ◌≡◌ {A = Option String} (some t) (some s) = rw (full) at h in
      let e : t ≡ s = cc in record { same = ap (λ (x : String). str x) e; full = rw (e) at full }
]
nonempty_str-IsText _ s h = absurd (cc)

require-inr :
    {A : Type 0} (j : Json) (message : String) (next : String → String ⊎ A) (a : A)
    → require j message next ≡ inr a
    → (s : String) × IsText j s × (next s ≡ inr a)
require-inr {A} j message next a h = go (nonempty_str j) refl h
  where
    go :
        (o : Option String)
        → nonempty_str j ≡ o
        → (elim o as (λ x. String ⊎ A) [ none ↦ inl message | some s ↦ next s ]) ≡ inr a
        → (s : String) × IsText j s × (next s ≡ inr a)
    go none e h = absurd (cc)
    go (some s) e h = (s, nonempty_str-IsText j s e, h)

check_connect-valid :
    (contract : Contract) (c hello : Connect)
    → check_connect contract c ≡ inr hello
    → (c ≡ hello) × (contract.validate_connect hello ≡ valid tt)
unfolding check_connect
check_connect-valid contract c hello h = go (contract.validate_connect c) refl h
  where
    go :
        (v : Validation (Unit {0}))
        → contract.validate_connect c ≡ v
        → (elim v as (λ x. String ⊎ Connect) [
          | valid _ ↦ inr c
          | invalid e ↦ inl ("hello is not a valid connect: " ++ e)
        ])
          ≡ inr hello
        → (c ≡ hello) × (contract.validate_connect hello ≡ valid tt)
    go (valid tt) e h = let same : c ≡ hello = cc in (same, rw (same) at e)
    go (invalid e') e h = absurd (cc)

read_fields-IsComplete :
    (contract : Contract) (frame : Dict) (hello : Connect)
    → equals_nat 4 (get "version" frame) ≡ true
    → read_fields contract frame ≡ inr hello
    → IsComplete contract frame hello
unfolding read_fields
read_fields-IsComplete contract frame hello version h =
    let (key, k, h1) = require-inr (get "publicKey" frame) _ _ hello h in
    let (ticket, t, h2) = require-inr (get "ticket" frame) _ _ hello h1 in
    let (nonce, n, h3) = require-inr (get "nonce" frame) _ _ hello h2 in
    let (proof, p, h4) = require-inr (get "proof" frame) _ _ hello h3 in
    let (same, consent) = check_connect-valid contract _ hello h4 in
    record {
      version = version;
      public_key = subst (λ (c : Connect). IsText (get "publicKey" frame) c.public_key) same k;
      ticket = subst (λ (c : Connect). IsText (get "ticket" frame) c.ticket) same t;
      nonce = subst (λ (c : Connect). IsText (get "nonce" frame) c.nonce) same n;
      proof = subst (λ (c : Connect). IsText (get "proof" frame) c.proof) same p;
      runs =
          subst (λ (c : Connect). c.max_concurrent_runs ≡ get "maxConcurrentRuns" frame) same refl;
      consent = consent;
    }

pub read_hello-IsComplete :
    (contract : Contract) (frame : Dict) (hello : Connect)
    → read_hello contract frame ≡ inr hello
    → IsComplete contract frame hello
unfolding read_hello
read_hello-IsComplete contract frame hello h =
    elim (Bool-cases (equals_nat 4 (get "version" frame))) [
      | inl four ↦ read_fields-IsComplete contract frame hello four (rw (read_hello, four) at h)
      | inr other ↦ let bad = rw (read_hello, other) at h in absurd (cc)
    ]

pub is_type-eq : (name : String) (j : Json) → is_type name j ≡ true → j ≡ str name
is_type-eq name (str s) h = ap (λ (x : String). str x) ((eq_iff s name).0 h)
is_type-eq name _ h = absurd (cc)

checked-eq :
    (o : Option Dict) (frame : Dict)
    → check_hello (ok o) ≡ proceed frame
    → (o ≡ some frame) × (get "type" frame ≡ str "hello")
unfolding check_hello
checked-eq none frame h = absurd (cc)
checked-eq (some d) frame h = elim (Bool-cases (is_type "hello" (get "type" d))) [
  | inr other ↦ let bad = rw (check_hello, other) at h in absurd (cc)
  | inl hello ↦
      let go_on : proceed d ≡ proceed frame = rw (check_hello, hello) at h in
      let same : d ≡ frame = cc in
      (ap some same, rw (same) at (is_type-eq "hello" (get "type" d) hello))
]

as_dict-eq : (j : Json) (d : Dict) → as_dict j ≡ some d → j ≡ obj d
as_dict-eq (obj e) d h = let same : e ≡ d = cc in ap (λ (x : Dict). obj x) same
as_dict-eq _ d h = absurd (cc)

-- The message that the wait for a hello goes on with.
pub proceed-first :
    (first : Option Message) (frame : Dict)
    → receive_hello first ≡ proceed frame
    → (first ≡ some (text (some (obj frame)))) × (get "type" frame ≡ str "hello")
unfolding receive_hello parse_frame check_hello
proceed-first none frame h = absurd (cc)
proceed-first (some disconnect) frame h = absurd (cc)
proceed-first (some binary) frame h = absurd (cc)
proceed-first (some (unloadable e)) frame h = absurd (cc)
proceed-first (some (text none)) frame h = absurd (cc)
proceed-first (some (text (some j))) frame h =
    let (e, kind) = checked-eq (as_dict j) frame h in
    (ap (λ (x : Json). some (text (some x))) (as_dict-eq j frame e), kind)
