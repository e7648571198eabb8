-- ===== src/WsKyok/Link.antt =====
-- `class SocketLLMProvider`: the completions in flight on one link. `queues` holds the queue object
-- of each request id, its unread items oldest first; `is_open` says which ids stand in `_answers`;
-- `is_over` which answer streams have returned or raised. The core's `new_id` never repeats an id,
-- so the id stands for the queue object too.
pub mod Queue
pub mod Drain
use funduq_server.Prelude.{
  String, Bool, true, false, Option, none, some, List, [], ◌∷◌, ◌++◌, ◌==◌, if◌then◌else◌,
}
use funduq_server.Json.{Json, Dict, str, dict, merge}
use funduq_server.Funduq.{Contract, Validation, valid, invalid}

-- What a queue holds: a chunk's data, the sentinel `_DONE`, a `CompletionRefused`, or a
-- `RuntimeError` with its argument.
pub data Item : Type 0 where
  chunk : Dict → Item
  done : Item
  refused : Dict → Item
  broken : Json → Item

pub record Link : Type 0 where
  pub public_key : String
  pub outbound : List Dict
  pub queues : String → List Item
  pub is_open : String → Bool
  pub is_over : String → Bool

abbrev pub update {ℓ} : {A : Type ℓ} → String → A → (String → A) → String → A
update key value f other = if key == other then value else f other

-- `__init__`
unfoldable pub new_link : String → Link
new_link key = record {
  public_key = key;
  outbound = [];
  queues = λ _. [];
  is_open = λ _. false;
  is_over = λ _. false;
}

unfoldable pub put_frame : Dict → Link → Link
put_frame frame link = record link { outbound = link.outbound ++ frame ∷ [] }

-- `complete`: `request` is the dump of the `DeliveredCompletion`
unfoldable pub complete : String → Dict → Link → Link
complete request_id request link = record link {
  queues = update request_id [] link.queues;
  is_open = update request_id true link.is_open;
  is_over = update request_id false link.is_over;
  outbound =
      link.outbound
      ++ merge (dict (("type", str "completionRequest") ∷ ("requestId", str request_id) ∷ []))
          request
        ∷ [];
}

-- `feed`
unfoldable pub feed : String → Item → Link → Link × Bool
feed request_id item link =
    if link.is_open request_id
    then (
      record link { queues = update request_id (link.queues request_id ++ item ∷ []) link.queues },
      true,
    )
    else (link, false)

-- `fail_pending`: every queue of the table is told, then the table is cleared.
unfoldable pub fail_pending : Link → Link
fail_pending link = record link {
  queues = λ id.
      if link.is_open id
      then link.queues id ++ broken (str "LLM provider disconnected mid-response") ∷ []
      else link.queues id;
  is_open = λ _. false;
}

-- What one `anext` of `_answer_stream` gives once it gives something.
pub data Pulled : Type 0 where
  yields : Json → Pulled
  returns : Pulled
  raises : Item → Pulled
  rejects : String → Pulled
  times_out : Pulled

-- the `finally` of `_answer_stream`
unfoldable pub pop : String → Link → Link
pop request_id link = record link {
  is_open = update request_id false link.is_open;
  is_over = update request_id true link.is_over;
}

-- A chunk is validated as it is yielded.
give : Validation Json → String → Link → Link × Pulled
unfolding pop
give (valid j) request_id link = (link, yields j)
give (invalid e) request_id link = (pop request_id link, rejects e)

take_item : Contract → Item → String → Link → Link × Pulled
unfolding give pop
take_item contract (chunk data_) request_id link =
    give (contract.validate_chunk data_) request_id link
take_item contract done request_id link = (pop request_id link, returns)
take_item contract failure request_id link = (pop request_id link, raises failure)

take_first : Contract → List Item → String → Link → Option (Link × Pulled)
unfolding take_item
take_first contract [] request_id link = none
take_first contract (item ∷ rest) request_id link = some (
    take_item contract item request_id
      (record link { queues = update request_id rest link.queues }))

-- One `anext`; `none` while it waits on the queue, and for a stream that is over.
unfoldable pub pull : Contract → String → Link → Option (Link × Pulled)
unfolding take_first
pull contract request_id link =
    if link.is_over request_id
    then none
    else take_first contract (link.queues request_id) request_id link

-- The wait passed `CHUNK_GAP_TIMEOUT_SECONDS`.
unfoldable pub time_out : String → Link → Link × Pulled
unfolding pop
time_out request_id link = (pop request_id link, times_out)
