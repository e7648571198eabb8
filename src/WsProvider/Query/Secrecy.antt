-- ===== src/WsProvider/Query/Secrecy.antt =====
-- Queries about a thread that the asking key may not query.
use funduq_server.Prelude.{
  ℕ, suc, String, ◌≡◌, refl, ap, Option, none, some, Result, ok, raise, ◌>>=◌, Bool-cases, inl, inr,
}
use funduq_server.Json.{Dict, get, nonempty_str, is_hashable}
use funduq_server.Funduq.{Funduq, Contract}
use funduq_server.Reads.{may_read}
use funduq_server.Reads.Rule.{may_read_iff}
use funduq_server.WsCommon.{is_type}
use funduq_server.WsProvider.Query.{
  query_error, not_yours, Limit, read_limit, is_owner, answer_thread_messages, answer_thread,
  answer_params, read_params, answer_id, answer_query,
}
use funduq_server.WsProvider.Query.Access.{CanQuery, owner_row}

-- The thread that the parameters of a query name, if they name one.
abbrev pub asked : Result Dict → Option String
asked (ok params) = nonempty_str (get "threadId" params)
asked (raise e) = none

-- The key may not query the thread that the frame names.
abbrev pub IsBarred : {S : Type 0} → Funduq S → (ℕ → S) → String → Dict → Type 0
IsBarred core at key parsed =
    (id : String) → asked (read_params (get "params" parsed)) ≡ some id → ¬ CanQuery core at id key

pub messages_barred :
    {S : Type 0} (core : Funduq S) (at : ℕ → S) (key q id : String) (limit : Limit)
    → ¬ CanQuery core at id key
    → answer_thread_messages core at key q id limit ≡ query_error q not_yours
unfolding answer_thread_messages
messages_barred core at key q id limit barred =
    elim (Bool-cases (is_owner key (core.get_thread (at 0) id))) [
      | inr other ↦ rw other
      | inl mine ↦ elim (Bool-cases (may_read core (λ n. at (suc n)) id (some key))) [
        | inr closed ↦ rw (mine, closed)
        | inl may ↦
            let (row, found, owner) = owner_row key (core.get_thread (at 0) id) mine in
            absurd (
              barred (record {
                row = row;
                found = found;
                owner = owner;
                reader = (may_read_iff core (λ n. at (suc n)) id (some key)).0 may;
              }))
      ]
    ]

module _ {S T : Type 0} (core : Funduq S) (core' : Funduq T) (contract : Contract) (at : ℕ → S)
    (at' : ℕ → T) (key : String) where
  thread_barred :
      (q : String) (limit : Limit) (o : Option String)
      → ((id : String) → o ≡ some id → ¬ CanQuery core at id key)
      → ((id : String) → o ≡ some id → ¬ CanQuery core' at' id key)
      → answer_thread core at key q limit o ≡ answer_thread core' at' key q limit o
  unfolding answer_thread
  thread_barred q limit none h h' = refl
  thread_barred q limit (some id) h h' = rw (
    messages_barred core at key q id limit (h id refl),
    messages_barred core' at' key q id limit (h' id refl),
  )

  params_barred :
      (q : String) (r : Result Dict)
      → ((id : String) → asked r ≡ some id → ¬ CanQuery core at id key)
      → ((id : String) → asked r ≡ some id → ¬ CanQuery core' at' id key)
      → (r >>= λ params. ok (answer_params core at key q params))
        ≡ (r >>= λ params. ok (answer_params core' at' key q params))
  unfolding answer_params
  params_barred q (raise e) h h' = refl
  params_barred q (ok params) h h' = ap ok (
      thread_barred q (read_limit (get "limit" params)) (nonempty_str (get "threadId" params)) h h')

  id_barred :
      (parsed : Dict) (o : Option String)
      → IsBarred core at key parsed
      → IsBarred core' at' key parsed
      → answer_id core contract at key parsed o ≡ answer_id core' contract at' key parsed o
  unfolding answer_id
  id_barred parsed none h h' = refl
  id_barred parsed (some q) h h' = elim (Bool-cases (is_hashable (get "method" parsed))) [
    | inr other ↦ rw other
    | inl hashable ↦ elim (Bool-cases (is_type "thread_messages" (get "method" parsed))) [
      | inr other ↦ rw (hashable, other)
      | inl messages ↦
          rw (hashable, messages) (params_barred q (read_params (get "params" parsed)) h h')
    ]
  ]

  -- Where a key may not query the thread that its frame names, the answer is the same in any other
  -- world where it may not: whether the thread exists, whose it is, who its parties are and what it
  -- holds make no difference.
  pub answer_query-barred :
      (parsed : Dict)
      → IsBarred core at key parsed
      → IsBarred core' at' key parsed
      → answer_query core contract at key parsed ≡ answer_query core' contract at' key parsed
  unfolding answer_query
  answer_query-barred parsed h h' = id_barred parsed (nonempty_str (get "queryId" parsed)) h h'
