-- ===== src/WsKyok/Link/Queue.antt =====
-- What taking an item does to the queues.
use funduq_server.Prelude.{
  String, ◌≡◌, refl, Option, none, some, List, [], ◌∷◌, ◌++◌, ◌==◌, eq_iff, if◌then◌else◌, arith,
  Bool-cases, inl, inr,
}
use funduq_server.Json.{Json}
use funduq_server.Funduq.{Contract, Validation, valid, invalid}
use funduq_server.WsKyok.Link.{
  Link, Item, chunk, done, refused, broken, Pulled, give, take_item, take_first, pull, update,
}

abbrev pub front : List Item → List Item
front [] = []
front (item ∷ rest) = item ∷ []

abbrev pub pulled_link : Link → Option (Link × Pulled) → Link
pulled_link link none = link
pulled_link link (some (link', p)) = link'

-- The item that the reader of `request_id` takes next.
abbrev pub next_item : String → Link → List Item
next_item request_id link = if link.is_over request_id then [] else front (link.queues request_id)

module _ (contract : Contract) where
  give-queues :
      (v : Validation Json) (request_id : String) (link : Link)
      → (give v request_id link).0.queues ≡ link.queues
  unfolding give
  give-queues (valid j) request_id link = refl
  give-queues (invalid e) request_id link = refl

  take_item-queues :
      (item : Item) (request_id : String) (link : Link)
      → (take_item contract item request_id link).0.queues ≡ link.queues
  unfolding take_item
  take_item-queues (chunk d) request_id link =
      give-queues (contract.validate_chunk d) request_id link
  take_item-queues done request_id link = refl
  take_item-queues (refused d) request_id link = refl
  take_item-queues (broken j) request_id link = refl

  module _ (id request_id : String) (link : Link) where
    first-queue :
        (items : List Item)
        → link.queues request_id ≡ items
        → link.queues id
          ≡ (if request_id == id then front items else [])
            ++ (pulled_link link (take_first contract items request_id link)).queues id
    unfolding take_first
    first-queue [] e = elim (Bool-cases (request_id == id)) [
      | inl same ↦ rw same
      | inr other ↦ rw other
    ]
    first-queue (item ∷ rest) e =
        rw
          (take_item-queues item request_id
            (record link { queues = update request_id rest link.queues }))
          (ground (arith, eq_iff request_id id))

    -- An item is taken from the front of the queue of its own completion.
    pub pull-queue :
        link.queues id
        ≡ (if request_id == id then next_item request_id link else [])
          ++ (pulled_link link (pull contract request_id link)).queues id
    unfolding pull
    pull-queue = elim (Bool-cases (link.is_over request_id)) [
      | inl over ↦ elim (Bool-cases (request_id == id)) [
        | inl same ↦ rw (over, same)
        | inr other ↦ rw (over, other)
      ]
      | inr live ↦ rw live (first-queue (link.queues request_id) refl)
    ]
