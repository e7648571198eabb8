-- ===== src/WsKyok/Session/Order.antt =====
-- The order of one completion's answer.
use mathlib.Core.List.{append-nil, append_assoc}
use mathlib.Core.Path.{◌≡⟨◌⟩◌, ◌∎}
use funduq_server.Prelude.{
  String, false, ◌≡◌, sym, ◌∙◌, ap, List, [], ◌∷◌, ◌++◌, ◌==◌, if◌then◌else◌, arith, All,
  Bool-cases, inl, inr,
}
use funduq_server.Funduq.{LlmFunduq, Contract}
use funduq_server.WsKyok.Link.{Item, time_out, complete}
use funduq_server.WsKyok.Link.Queue.{next_item, pull-queue}
use funduq_server.WsKyok.Socket.{Conn}
use funduq_server.WsKyok.Socket.Routing.{addressed, let_in, read_message-Grew}
use funduq_server.WsKyok.Session.{
  Event, receive, core_completes, stream_pulls, stream_times_out, core_changes, step, serve,
  is_running,
}

-- The item that the reader of `id` takes in one event.
abbrev pub taken : {S : Type 0} → String → Event S → Conn S → List Item
taken id (stream_pulls request_id) conn =
    if request_id == id then next_item request_id conn.link else []
taken id _ conn = []

-- The items that come for `id` in one event.
abbrev pub fed : {S : Type 0} → String → Event S → Conn S → List Item
fed id (receive message) conn = let_in (conn.link.is_open id) (addressed id message)
fed id _ conn = []

-- The core asks for no second completion under the same id.
abbrev pub IsFresh : {S : Type 0} → String → Event S → Type 0
IsFresh id (core_completes request_id request) = (request_id == id) ≡ false
IsFresh id _ = Unit

join :
    (q f t q' r u v : List Item)
    → q ++ f ≡ t ++ q'
    → q' ++ r ≡ u ++ v
    → q ++ (f ++ r) ≡ (t ++ u) ++ v
join q f t q' r u v first later =
    q ++ (f ++ r)
    ≡⟨ sym (append_assoc q f r) ⟩ (q ++ f) ++ r
    ≡⟨ ap (λ (l : List Item). l ++ r) first ⟩ (t ++ q') ++ r
    ≡⟨ append_assoc t q' r ⟩ t ++ (q' ++ r)
    ≡⟨ ap (λ (l : List Item). t ++ l) later ⟩ t ++ (u ++ v)
    ≡⟨ sym (append_assoc t u v) ⟩ (t ++ u) ++ v ∎

module _ {S : Type 0} (core : LlmFunduq S) (contract : Contract) (id : String) where
  -- All that is taken, and all that comes, while the read loop runs.
  pub all_taken : List (Event S) → Conn S → List Item
  all_taken [] conn = []
  all_taken (e ∷ es) conn =
      let rest = taken id e conn ++ all_taken es (step core contract e conn) in
      if is_running conn.loop then rest else []

  pub all_fed : List (Event S) → Conn S → List Item
  all_fed [] conn = []
  all_fed (e ∷ es) conn =
      let rest = fed id e conn ++ all_fed es (step core contract e conn) in
      if is_running conn.loop then rest else []

  step_queue :
      (e : Event S) (conn : Conn S)
      → IsFresh id e
      → conn.link.queues id ++ fed id e conn
        ≡ taken id e conn ++ (step core contract e conn).link.queues id
  unfolding step complete time_out
  step_queue (receive message) conn h = sym (read_message-Grew id core contract message conn).queue
  step_queue (core_completes request_id request) conn h =
      ground (arith, append-nil (conn.link.queues id))
  step_queue (stream_pulls request_id) conn h =
      append-nil (conn.link.queues id) ∙ pull-queue contract id request_id conn.link
  step_queue (stream_times_out request_id) conn h = append-nil (conn.link.queues id)
  step_queue (core_changes s) conn h = append-nil (conn.link.queues id)

  -- Over any events in which the core does not use the id again, what a completion's reader takes,
  -- with what is left unread, is what was unread at the start with what came for the completion on
  -- this connection while it was in flight: nothing lost, nothing twice, nothing out of order.
  pub serve-queue :
      (es : List (Event S)) (conn : Conn S)
      → All (IsFresh id) es
      → conn.link.queues id ++ all_fed es conn
        ≡ all_taken es conn ++ (serve core contract es conn).link.queues id
  unfolding serve all_fed all_taken
  serve-queue [] conn h = append-nil (conn.link.queues id)
  serve-queue (e ∷ es) conn h = elim (Bool-cases (is_running conn.loop)) [
    | inr stop ↦ rw stop (append-nil (conn.link.queues id))
    | inl run ↦ rw run (
        join (conn.link.queues id) (fed id e conn) (taken id e conn) _ _ _ _ (step_queue e conn h.0)
          (serve-queue es (step core contract e conn) h.1))
  ]
