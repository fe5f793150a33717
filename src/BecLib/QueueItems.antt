-- ===== src/BecLib/QueueItems.antt =====
-- QueueItem and QueueStorage (bec_lib/bec_lib/queue_items.py). A queue message is the list of the
-- items of its primary queue; request blocks are their request ids. What Redis holds is an argument.
pub mod Lookups
use bec.Prelude.{
  ℕ, suc, String, Option, none, some, Bool, true, false, List, [], ◌∷◌, ◌==◌, string_eq, nat_eq,
  if◌then◌else◌, find, contains, take, map,
}
use bec.Prelude.Deque

-- An item in a queue message. Each scan id stands with the scan number; the id of a request that is no
-- scan is none.
pub record QueueInfo : Type 0 where
  pub queue_id : String
  pub request_blocks : List String
  pub status : String
  pub active_request_block : Option String
  pub is_scan : List Bool
  pub scans : List (Option String × Option ℕ)

pub record QueueItem : Type 0 where
  pub queue_id : String
  pub request_blocks : List String
  pub status : String
  pub active_request_block : Option String
  pub scan_ids : List (Option String)

-- Redis: the queue message, none before there is one, and the history with the newest item first.
pub record Redis : Type 0 where
  pub scan_queue_status : Option (List QueueInfo)
  pub scan_queue_history : List QueueInfo

pub record QueueStorage : Type 0 where
  pub storage : List QueueItem
  pub current_scan_queue : Option (List QueueInfo)

abbrev pub max_items : ℕ
max_items = 50

abbrev pub ids : List (Option String × Option ℕ) → List (Option String)
ids scans = map (λ s. s.0) scans

-- QueueItem(…) of an item in a message
unfoldable pub queue_item : QueueInfo → QueueItem
queue_item q = record {
  queue_id = q.queue_id;
  request_blocks = q.request_blocks;
  status = q.status;
  active_request_block = q.active_request_block;
  scan_ids = ids q.scans;
}

unfoldable pub update_queue_item : QueueInfo → QueueItem → QueueItem
update_queue_item q item = record item {
  request_blocks = q.request_blocks;
  status = q.status;
  active_request_block = q.active_request_block;
  scan_ids = ids q.scans;
}

-- queue_history, by the absolute value of its argument, none for its ValueError. Redis counts the
-- last index in.
unfoldable pub queue_history : ℕ → Redis → Option (List QueueInfo)
queue_history n redis = if n == 0 then none else some (take (suc n) redis.scan_queue_history)

-- The property current_scan_queue, with the storage after it.
unfoldable pub current_scan_queue : Redis → QueueStorage → QueueStorage
current_scan_queue redis s = elim (redis.scan_queue_status) [
  | none ↦ s
  | some q ↦ record s { current_scan_queue = some q }
]

abbrev pub has_queue_id : String → QueueInfo → Bool
has_queue_id i q = q.queue_id == i

abbrev pub or_history : Option QueueInfo → Option QueueInfo → Option QueueInfo
or_history none o = o
or_history (some q) o = some q

-- What the item's buffer says of it: the current queue, and else the last entries of the history.
unfoldable pub find_in_buffer : Redis → List QueueInfo → String → Option QueueInfo
find_in_buffer redis current i =
    or_history (find (has_queue_id i) current)
      (find (has_queue_id i) (take 6 redis.scan_queue_history))

-- `_update_with_buffer`, none for the TypeError where no queue message has come yet.
unfoldable pub update_with_buffer : Redis → Option (List QueueInfo) → QueueItem → Option QueueItem
unfolding find_in_buffer update_queue_item
update_with_buffer redis none item = none
update_with_buffer redis (some current) item = elim (find_in_buffer redis current item.queue_id) [
  | none ↦ some item
  | some q ↦ some (update_queue_item q item)
]

abbrev pub has_id : String → QueueItem → Bool
has_id i item = item.queue_id == i

-- `find_queue_item_by_ID`
unfoldable pub find_queue_item_by_id : String → List QueueItem → Option QueueItem
find_queue_item_by_id i items = find (has_id i) items

-- Changes the item that `find_queue_item_by_id` finds.
unfoldable pub change_item : String → (QueueItem → QueueItem) → List QueueItem → List QueueItem
change_item i f [] = []
change_item i f (item ∷ items) =
    if has_id i item then f item ∷ items else item ∷ change_item i f items

-- One item of a message, in `update_with_status`.
unfoldable pub take_info : QueueInfo → List QueueItem → List QueueItem
unfolding find_queue_item_by_id change_item update_queue_item queue_item
take_info q items = elim (find_queue_item_by_id q.queue_id items) [
  | none ↦ Deque.append max_items items (queue_item q)
  | some item ↦ change_item q.queue_id (update_queue_item q) items
]

unfoldable pub take_infos : List QueueInfo → List QueueItem → List QueueItem
unfolding take_info
take_infos [] items = items
take_infos (q ∷ queue_info) items = take_infos queue_info (take_info q items)

unfoldable pub update_with_status : List QueueInfo → QueueStorage → QueueStorage
unfolding take_infos
update_with_status queue_info s = record s {
  current_scan_queue = some queue_info;
  storage = take_infos queue_info s.storage;
}

-- What a search comes to, with the items as the search has updated them.
pub data Found : Type 0 where
  found : QueueItem → List QueueItem → Found
  not_found : List QueueItem → Found
  type_error attribute_error : List QueueItem → Found

-- Puts the items before the one that was reached back.
abbrev pub after : QueueItem → Found → Found
after item (found x items) = found x (item ∷ items)
after item (not_found items) = not_found (item ∷ items)
after item (type_error items) = type_error (item ∷ items)
after item (attribute_error items) = attribute_error (item ∷ items)

-- `find_queue_item_by_requestID`: each item that it looks at is updated first.
unfoldable pub find_queue_item_by_request_id :
    Redis → Option (List QueueInfo) → String → List QueueItem → Found
unfolding update_with_buffer
find_queue_item_by_request_id redis current rid [] = not_found []
find_queue_item_by_request_id redis current rid (item ∷ items) =
    let rest = find_queue_item_by_request_id redis current rid items in
    elim (update_with_buffer redis current item) [
      | none ↦ type_error (item ∷ items)
      | some item' ↦
          if contains rid item'.request_blocks
          then found item' (item' ∷ items)
          else after item' rest
    ]

-- `scanID in queue_item.scans`: the list holds scan items, and None for a scan that is not stored. The
-- comparison of a scan item with a text asks the text for its scanID, an AttributeError.
unfoldable pub compare_scans : (Option String → Bool) → List (Option String) → Option Bool
compare_scans is_stored [] = some false
compare_scans is_stored (i ∷ scan_ids) =
    if is_stored i then none else compare_scans is_stored scan_ids

-- `find_queue_item_by_scanID`
unfoldable pub find_queue_item_by_scan_id :
    Redis → Option (List QueueInfo) → (Option String → Bool) → List QueueItem → Found
unfolding update_with_buffer compare_scans
find_queue_item_by_scan_id redis current is_stored [] = not_found []
find_queue_item_by_scan_id redis current is_stored (item ∷ items) =
    let rest = find_queue_item_by_scan_id redis current is_stored items in
    elim (update_with_buffer redis current item) [
      | none ↦ type_error (item ∷ items)
      | some item' ↦ elim (compare_scans is_stored item'.scan_ids) [
        | none ↦ attribute_error (item' ∷ items)
        | some b ↦ if b then found item' (item' ∷ items) else after item' rest
      ]
    ]
