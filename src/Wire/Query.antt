-- ===== src/Wire/Query.antt =====
-- A question that a provider asks through its SDK, answered by the gateway, and back in the SDK.
use Prim.Native.Nat.{min}
use funduq_server.Prelude.{
  ℕ, zero, suc, ◌≤◌, String, true, false, ◌≡◌, refl, Option, none, some, List, [], ◌∷◌, ◌++◌,
  length, length-drop, drop-suffix, Result, ok, ◌==◌, eq_refl, arith, ◌-◌, ◌>>=◌,
}
use funduq_server.Json.{ℤ, pos, Json, arr, Dict, of_list}
use funduq_server.Funduq.{Funduq, Contract}
use funduq_server.Reads.Rule.{may_read_iff}
use funduq_server.WsProvider.Query.{
  query_answer, query_error, not_yours, Limit, unlimited, at_most, read_limit, trim, is_owner,
  answer_thread_messages, answer_query,
}
use funduq_server.WsProvider.Query.Access.{CanQuery}
use funduq_server.WsProvider.Query.Secrecy.{messages_barred}
use funduq_server.AgentSdk.Queries.{
  Waiters, Future, result, query_failed, query_frame, ask, resolve_query, settle,
}

-- The newest of the stored messages: all of them, or as many as were asked for.
abbrev pub Newest : Option ℕ → List Json → List Json → Type 0
Newest none stored ms = ms ≡ stored
Newest (some n) stored ms =
    (before : List Json) × (stored ≡ before ++ ms) × (length ms ≡ min n (length stored))

-- The limit of `thread_messages`: none, or a positive number.
abbrev pub asked_limit : Option ℕ → Option ℤ
asked_limit none = none
asked_limit (some n) = some (pos n)

abbrev as_limit : Option ℕ → Limit
as_limit none = unlimited
as_limit (some n) = at_most n

abbrev pub IsPositive : Option ℕ → Type 0
IsPositive none = Unit
IsPositive (some n) = 1 ≤ n

trim-Newest :
    (limit : Option ℕ) (stored : List Json) → Newest limit stored (trim (as_limit limit) stored)
unfolding trim
trim-Newest none stored = refl
trim-Newest (some n) stored =
    let (before, e) = drop-suffix (length stored - n) stored in
    (before, e, omega (arith, length-drop (length stored - n) stored))

module _ {S : Type 0} (core : Funduq S) (contract : Contract) (at : ℕ → S) (key : String) where
  owner-true :
      (id : String) → CanQuery core at id key → is_owner key (core.get_thread (at 0) id) ≡ true
  unfolding is_owner
  owner-true id can = rw (can.found, can.owner, eq_refl)

  messages_granted :
      (q id : String) (limit : Limit)
      → CanQuery core at id key
      → answer_thread_messages core at key q id limit
        ≡ query_answer q (trim limit (core.get_thread_messages (at 3) id))
  unfolding answer_thread_messages
  messages_granted q id limit can =
      rw (owner-true id can, (may_read_iff core (λ n. at (suc n)) id (some key)).1 can.reader)

  -- The gateway reads the SDK's frame as it was meant.
  frame-answer :
      (q id : String) (limit : Option ℕ)
      → (q == "") ≡ false
      → (id == "") ≡ false
      → IsPositive limit
      → answer_query core contract at key (query_frame q id (asked_limit limit))
        ≡ ok (answer_thread_messages core at key q id (as_limit limit))
  unfolding answer_query query_frame read_limit
  frame-answer q id none hq hid h = rw (hq, hid)
  frame-answer q id (some zero) hq hid h = absurd (omega arith)
  frame-answer q id (some (suc n)) hq hid h = rw (hq, hid)

resolve-answer :
    (show : Json → String) (q : String) (ms : List Json) (w : Waiters)
    → resolve_query show (query_answer q ms) (ask q w)
      ≡ ok (settle q (result (arr (of_list ms))) (ask q w))
unfolding resolve_query ask
resolve-answer show q [] w = rw eq_refl
resolve-answer show q (m ∷ ms) w = rw eq_refl

resolve-error :
    (show : Json → String) (q message : String) (w : Waiters)
    → resolve_query show (query_error q message) (ask q w)
      ≡ ok (settle q (query_failed message) (ask q w))
unfolding resolve_query ask
resolve-error show q message w = rw eq_refl

settled : (q : String) (future : Future) (w : Waiters) → (settle q future w).futures q ≡ future
unfolding settle
settled q future w = rw eq_refl

-- The frame of a question, answered by the gateway, and the answer taken in by the asker.
abbrev pub exchange :
    {S : Type 0}
    → Funduq S
    → Contract
    → (ℕ → S)
    → String
    → (Json → String)
    → Dict
    → Waiters
    → Result Waiters
exchange core contract at key show frame w =
    answer_query core contract at key frame >>= λ reply. resolve_query show reply w

module _ {S : Type 0} (core : Funduq S) (contract : Contract) (at : ℕ → S) (key : String)
    (show : Json → String) (q id : String) (limit : Option ℕ) (w : Waiters) where
  -- A provider that asks for the messages of a thread that it serves and may read gets the newest
  -- of the messages that the core holds, oldest first: all of them, or exactly as many as it asked
  -- for where there are more.
  pub exchange-granted :
      (q == "") ≡ false
      → (id == "") ≡ false
      → IsPositive limit
      → CanQuery core at id key
      → (w' : Waiters) × (ms : List Json) × Newest limit (core.get_thread_messages (at 3) id) ms
        × (exchange core contract at key show (query_frame q id (asked_limit limit)) (ask q w)
            ≡ ok w')
        × (w'.futures q ≡ result (arr (of_list ms)))
  exchange-granted hq hid h can =
      let ms = trim (as_limit limit) (core.get_thread_messages (at 3) id) in
      (
        settle q (result (arr (of_list ms))) (ask q w),
        ms,
        trim-Newest limit (core.get_thread_messages (at 3) id),
        rw
            (
              frame-answer core contract at key q id limit hq hid h,
              messages_granted core contract at key q id (as_limit limit) can,
            )
            (resolve-answer show q ms w),
        settled q (result (arr (of_list ms))) (ask q w),
      )

  -- One that may not read the thread gets the one refusal, as an exception of its own call.
  pub exchange-barred :
      (q == "") ≡ false
      → (id == "") ≡ false
      → IsPositive limit
      → ¬ CanQuery core at id key
      → (w' : Waiters) × (exchange core contract at key show
            (query_frame q id (asked_limit limit))
            (ask q w)
          ≡ ok w')
        × (w'.futures q ≡ query_failed not_yours)
  exchange-barred hq hid h barred = (
    settle q (query_failed not_yours) (ask q w),
    rw
        (
          frame-answer core contract at key q id limit hq hid h,
          messages_barred core at key q id (as_limit limit) barred,
        )
        (resolve-error show q not_yours w),
    settled q (query_failed not_yours) (ask q w),
  )
