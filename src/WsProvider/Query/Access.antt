-- ===== src/WsProvider/Query/Access.antt =====
-- What a query reveals and to whom, and the shapes of its answer.
use Prim.Native.String.{◌++◌}
use mathlib.Core.Path.{subst}
use funduq_server.Prelude.{
  ℕ, suc, String, true, false, ◌≡◌, ◌≢◌, refl, ◌==◌, eq_refl, Ensures, Option, none, some, Result,
  ok, raise, Bool-cases, ◌>>=◌, inl, inr, eq_iff,
}
use funduq_server.Json.{Json, str, Dict, get, nonempty_str, is_hashable}
use funduq_server.Funduq.{Funduq, Contract, Thread}
use funduq_server.Reads.{may_read}
use funduq_server.Reads.Rule.{CanRead, may_read_iff}
use funduq_server.WsCommon.{error_frame, is_type}
use funduq_server.WsProvider.Hello.Complete.{is_type-eq}
use funduq_server.WsProvider.Query.{
  query_error, query_answer, Limit, read_limit, bad_limit, trim, is_owner, is_bad,
  answer_thread_messages, answer_params, read_params, answer_method, answer_thread, answer_id,
  answer_query,
}

-- The asking key serves the thread's agent, and the party rule lets it read.
pub record CanQuery {S : Type 0} (core : Funduq S) (at : ℕ → S) (id : String) (key : String)
    : Type 0 where
  pub row : Thread
  pub found : core.get_thread (at 0) id ≡ some row
  pub owner : row.provider_key ≡ key
  pub reader : CanRead core (λ n. at (suc n)) id (some key)

-- The frame has the id `q`, asks for a thread's messages, and has these parameters.
pub record Asks (parsed : Dict) (q : String) (params : Dict) : Type 0 where
  pub query_id : nonempty_str (get "queryId" parsed) ≡ some q
  pub method : get "method" parsed ≡ str "thread_messages"
  pub given : read_params (get "params" parsed) ≡ ok params

-- They name the thread `id`, with a limit that can be kept, if there is one.
pub record AsksFor (parsed : Dict) (q : String) (params : Dict) (id : String) : Type 0 where
  pub asks : Asks parsed q params
  pub thread : nonempty_str (get "threadId" params) ≡ some id
  pub limited : read_limit (get "limit" params) ≢ bad_limit

-- What may come back for a query frame of `key`, each with its own words. Where the frame asks for a
-- thread, these are one refusal, whatever there is to refuse, or the thread's messages.
pub data Reply {S : Type 0} (core : Funduq S) (contract : Contract) (at : ℕ → S) (key : String)
    (parsed reply : Dict) : Type 0 where
  no_id :
      nonempty_str (get "queryId" parsed) ≡ none
      → (reply ≡ error_frame "query needs a queryId")
      → Reply core contract at key parsed reply
  unknown :
      (q : String)
      → nonempty_str (get "queryId" parsed) ≡ some q
      → get "method" parsed ≢ str "thread_messages"
      → (reply ≡ query_error q ("unknown query method " ++ contract.repr (get "method" parsed)))
      → Reply core contract at key parsed reply
  no_thread :
      (q : String) (params : Dict)
      → Asks parsed q params
      → nonempty_str (get "threadId" params) ≡ none
      → (reply ≡ query_error q "thread_messages needs a threadId")
      → Reply core contract at key parsed reply
  no_limit :
      (q : String) (params : Dict)
      → Asks parsed q params
      → read_limit (get "limit" params) ≡ bad_limit
      → (reply ≡ query_error q "limit must be a positive integer")
      → Reply core contract at key parsed reply
  refused :
      (q : String) (params : Dict) (id : String)
      → AsksFor parsed q params id
      → ¬ CanQuery core at id key
      → (reply ≡ query_error q "no such thread for this provider")
      → Reply core contract at key parsed reply
  answered :
      (q : String) (params : Dict) (id : String)
      → AsksFor parsed q params id
      → CanQuery core at id key
      → (reply
          ≡ query_answer q
              (trim (read_limit (get "limit" params)) (core.get_thread_messages (at 3) id)))
      → Reply core contract at key parsed reply

pub owner_row :
    (key : String) (o : Option Thread)
    → is_owner key o ≡ true
    → (row : Thread) × (o ≡ some row) × (row.provider_key ≡ key)
unfolding is_owner
owner_row key none h = cc
owner_row key (some row) h = (row, refl, (eq_iff row.provider_key key).0 h)

not_type : (name : String) (j : Json) → is_type name j ≡ false → j ≢ str name
not_type name j h e =
    let bad : (name == name) ≡ false = rw (e) at h in
    let good : (name == name) ≡ true = eq_refl name in absurd (cc)

bad-eq : (limit : Limit) → is_bad limit ≡ true → limit ≡ bad_limit
unfolding is_bad
bad-eq bad_limit h = refl
bad-eq _ h = absurd (cc)

good-ne : (limit : Limit) → is_bad limit ≡ false → limit ≢ bad_limit
unfolding is_bad
good-ne limit h e = let bad = rw (e) at h in absurd (cc)

module _ {S : Type 0} (core : Funduq S) (contract : Contract) (at : ℕ → S) (key : String) where
  -- Either test that fails bars the key.
  CanQuery-tests :
      (id : String)
      → CanQuery core at id key
      → (is_owner key (core.get_thread (at 0) id) ≡ true)
        × (may_read core (λ n. at (suc n)) id (some key) ≡ true)
  unfolding is_owner
  CanQuery-tests id can = (
    rw (can.found) ((eq_iff can.row.provider_key key).1 can.owner),
    (may_read_iff core (λ n. at (suc n)) id (some key)).1 can.reader,
  )

  module _ (parsed : Dict) where
    messages-Reply :
        (q : String) (params : Dict) (id : String)
        → AsksFor parsed q params id
        → Reply core contract at key parsed
            (answer_thread_messages core at key q id (read_limit (get "limit" params)))
    unfolding answer_thread_messages
    messages-Reply q params id asks = elim (Bool-cases (is_owner key (core.get_thread (at 0) id))) [
      | inr other ↦ rw other (
          Reply.refused q params id asks
            (λ can. let mine = (CanQuery-tests id can).0 in absurd (cc)) refl)
      | inl mine ↦ elim (Bool-cases (may_read core (λ n. at (suc n)) id (some key))) [
        | inl may ↦
            rw (mine, may)
              (Reply.answered q params id asks
                (record {
                  row = (owner_row key _ mine).0;
                  found = (owner_row key _ mine).1;
                  owner = (owner_row key _ mine).2;
                  reader = (may_read_iff core (λ n. at (suc n)) id (some key)).0 may;
                })
                refl)
        | inr barred ↦
            rw (mine, barred)
              (Reply.refused q params id asks
                (λ can. let may = (CanQuery-tests id can).1 in absurd (cc)) refl)
      ]
    ]

    thread-Reply :
        (q : String) (params : Dict) (o : Option String)
        → Asks parsed q params
        → nonempty_str (get "threadId" params) ≡ o
        → Reply core contract at key parsed
            (answer_thread core at key q (read_limit (get "limit" params)) o)
    unfolding answer_thread
    thread-Reply q params none asks e = Reply.no_thread q params asks e refl
    thread-Reply q params (some id) asks e =
        elim (Bool-cases (is_bad (read_limit (get "limit" params)))) [
          | inl bad ↦ rw bad (Reply.no_limit q params asks (bad-eq _ bad) refl)
          | inr good ↦ rw good (
              messages-Reply q params id
                (record { asks = asks; thread = e; limited = good-ne _ good }))
        ]

    -- A statement about the frame that a computation may have returned.
    abbrev Replies : Result Dict → Type 0
    Replies = Ensures (Reply core contract at key parsed)

    params-Replies :
        (q : String) (r : Result Dict)
        → nonempty_str (get "queryId" parsed) ≡ some q
        → get "method" parsed ≡ str "thread_messages"
        → read_params (get "params" parsed) ≡ r
        → Replies (r >>= λ params. ok (answer_params core at key q params))
    unfolding answer_params
    params-Replies q (raise e) i m g = tt
    params-Replies q (ok params) i m g =
        thread-Reply q params (nonempty_str (get "threadId" params))
          (record { query_id = i; method = m; given = g }) refl

    method-Replies :
        (q : String)
        → nonempty_str (get "queryId" parsed) ≡ some q
        → Replies (answer_method core contract at key q parsed)
    unfolding answer_method
    method-Replies q i = elim (Bool-cases (is_hashable (get "method" parsed))) [
      | inr not_hashable ↦ rw not_hashable tt
      | inl hashable ↦ elim (Bool-cases (is_type "thread_messages" (get "method" parsed))) [
        | inl messages ↦
            rw (hashable, messages)
              (params-Replies q (read_params (get "params" parsed)) i
                (is_type-eq "thread_messages" _ messages) refl)
        | inr other ↦
            rw (hashable, other) (Reply.unknown q i (not_type "thread_messages" _ other) refl)
      ]
    ]

    id-Replies :
        (o : Option String)
        → nonempty_str (get "queryId" parsed) ≡ o
        → Replies (answer_id core contract at key parsed o)
    unfolding answer_id
    id-Replies none i = Reply.no_id i refl
    id-Replies (some q) i = method-Replies q i

    -- An answer to a query frame carries the frame's id, if it has one, and says what the frame lacks,
    -- in fixed words and at most the frame's own method: an id, a known method, a thread, or a limit
    -- that can be kept. Where it lacks nothing, it is the messages of the thread that it names,
    -- trimmed by its limit, if the asking key serves the thread and may read it, and else the one
    -- refusal: no other words, and nothing of a thread.
    pub answer_query-Reply :
        (reply : Dict)
        → answer_query core contract at key parsed ≡ ok reply
        → Reply core contract at key parsed reply
    unfolding answer_query
    answer_query-Reply reply h =
        subst Replies h (id-Replies (nonempty_str (get "queryId" parsed)) refl)
