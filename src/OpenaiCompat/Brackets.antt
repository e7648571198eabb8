-- ===== src/OpenaiCompat/Brackets.antt =====
-- What the caller of a relayed run sees.
use funduq_server.Prelude.{
  String, Bool, true, false, ◌≡◌, refl, ap, ◌∙◌, sym, Option, none, some, List, [], ◌∷◌, ◌++◌, map,
  keep, Bool-cases, inl, inr,
}
use funduq_server.Json.{Json, truthy}
use funduq_server.OpenaiCompat.{
  Sse, sentinel, chunk, Event, run_started, text_message_start, text_message_content,
  text_message_end, run_finished, on_deltas, at_end, at_failure, relay, run_stream,
}

-- all that is said before the sentinel, and whether the stream failed before it
abbrev pub said : List Sse → List Json
said [] = []
said (sentinel ∷ rest) = []
said (chunk deltas ∷ rest) = keep truthy deltas ++ said rest

abbrev pub failure_of : List Sse → Option String → Option String
failure_of [] ending = ending
failure_of (sentinel ∷ rest) ending = none
failure_of (chunk deltas ∷ rest) ending = failure_of rest ending

abbrev pub contents : List Json → List Event
contents ds = map (λ d. text_message_content d) ds

-- a message that goes on
abbrev going_on : List Json → Option String → List Event
going_on ds none = contents ds ++ text_message_end ∷ run_finished ∷ []
going_on ds (some e) = contents ds ++ at_failure e

-- A message is started by the first thing said, and ended where the stream ended well.
abbrev pub told : List Json → Option String → List Event
told [] none = run_finished ∷ []
told [] (some e) = at_failure e
told (d ∷ ds) ending = text_message_start ∷ going_on (d ∷ ds) ending

append_assoc : (xs ys zs : List Event) → (xs ++ ys) ++ zs ≡ xs ++ (ys ++ zs)
append_assoc [] ys zs = refl
append_assoc (x ∷ xs) ys zs = ap (λ (l : List Event). x ∷ l) (append_assoc xs ys zs)

contents-append : (xs ys : List Json) → contents (xs ++ ys) ≡ contents xs ++ contents ys
contents-append [] ys = refl
contents-append (x ∷ xs) ys =
    ap (λ (l : List Event). text_message_content x ∷ l) (contents-append xs ys)

going_on-append :
    (xs ys : List Json) (e : Option String) → contents xs ++ going_on ys e ≡ going_on (xs ++ ys) e
going_on-append xs ys none =
    sym (append_assoc (contents xs) (contents ys) (text_message_end ∷ run_finished ∷ []))
    ∙ ap (λ (l : List Event). l ++ text_message_end ∷ run_finished ∷ [])
        (sym (contents-append xs ys))
going_on-append xs ys (some e) =
    sym (append_assoc (contents xs) (contents ys) (at_failure e))
    ∙ ap (λ (l : List Event). l ++ at_failure e) (sym (contents-append xs ys))

on_deltas-started : (ds : List Json) → on_deltas true ds ≡ (contents (keep truthy ds), true)
unfolding on_deltas
on_deltas-started [] = refl
on_deltas-started (d ∷ ds) = elim (Bool-cases (truthy d)) [
  | inl something ↦ rw (something, on_deltas-started ds) refl
  | inr nothing ↦ rw (nothing, on_deltas-started ds) refl
]

-- the first thing that is said, if any, starts the message
abbrev Starts : List Json → List Event × Bool → Type 0
Starts [] result = result ≡ ([], false)
Starts (d ∷ ds) result = result ≡ (text_message_start ∷ contents (d ∷ ds), true)

on_deltas-Starts : (ds : List Json) → Starts (keep truthy ds) (on_deltas false ds)
unfolding on_deltas
on_deltas-Starts [] = refl
on_deltas-Starts (d ∷ ds) = elim (Bool-cases (truthy d)) [
  | inl something ↦ rw (something, on_deltas-started ds) refl
  | inr nothing ↦ rw nothing (on_deltas-Starts ds)
]

relay-started :
    (stream : List Sse) (ending : Option String)
    → relay true stream ending ≡ going_on (said stream) (failure_of stream ending)
unfolding relay at_end
relay-started [] none = refl
relay-started [] (some e) = refl
relay-started (sentinel ∷ rest) ending = refl
relay-started (chunk ds ∷ rest) ending =
    rw (on_deltas-started ds, relay-started rest ending)
      (going_on-append (keep truthy ds) (said rest) (failure_of rest ending))

relay-told :
    (stream : List Sse) (ending : Option String)
    → relay false stream ending ≡ told (said stream) (failure_of stream ending)
unfolding relay at_end
relay-told [] none = refl
relay-told [] (some e) = refl
relay-told (sentinel ∷ rest) ending = refl
relay-told (chunk ds ∷ rest) ending = by_first (relay-told rest ending) (keep truthy ds) refl
  where
    by_first :
        relay false rest ending ≡ told (said rest) (failure_of rest ending)
        → (kept : List Json) → keep truthy ds ≡ kept
        → relay false (chunk ds ∷ rest) ending
          ≡ told (keep truthy ds ++ said rest) (failure_of rest ending)
    by_first later [] e =
        let s : on_deltas false ds ≡ ([], false) = rw e at (on_deltas-Starts ds) in rw (s, e) later
    by_first later (k ∷ ks) e =
        let s : on_deltas false ds ≡ (text_message_start ∷ contents (k ∷ ks), true) =
          rw e at (on_deltas-Starts ds) in
        rw (s, e, relay-started rest ending)
          (ap (λ (l : List Event). text_message_start ∷ l)
            (going_on-append (k ∷ ks) (said rest) (failure_of rest ending)))

-- A relayed run starts, and tells what the endpoint said as one message, opened by the first thing
-- said and closed where the endpoint ended well. It then finishes; where the endpoint broke off it
-- ends with an error instead, and never with both.
pub run_stream-told :
    (stream : List Sse) (ending : Option String)
    → run_stream stream ending ≡ run_started ∷ told (said stream) (failure_of stream ending)
unfolding run_stream
run_stream-told stream ending = ap (λ (l : List Event). run_started ∷ l) (relay-told stream ending)
