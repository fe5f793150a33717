-- ===== src/ScanServer/Queue/Line.antt =====
-- ScanQueue of scan_server/scan_server/scan_queue.py. An item stands in `store` where it
-- was made; the queue, the history and the active item are references to it.
pub mod Invariant
use bec.Prelude.{
  ℕ, ◌+◌, String, Option, none, some, Bool, true, false, ◌&&◌, List, [], ◌∷◌, ◌++◌, ◌==◌,
  if◌then◌else◌, length, get_elem?, deref, update, take, drop, string_eq, option_eq, nat_eq, keep,
  find, exists, contains,
}
use bec.Prelude.Dict.{has}
use bec.ScanServer.Messages.{ScanQueueMessage, Scan}
use bec.ScanServer.Queue.Status.{InstructionQueueStatus, ScanQueueStatus}
use bec.ScanServer.Queue.Block.{scan_ids}
use bec.ScanServer.Queue.Item
use bec.ScanServer.Queue.Item.{InstructionQueueItem, Shared, Taken, publish, instruction_queue_item}

abbrev pub max_history : ℕ
max_history = 100

pub record ScanQueue : Type 0 where
  pub store : List InstructionQueueItem
  pub queue : List ℕ
  pub history_queue : List ℕ
  pub active_instruction_queue : Option ℕ
  pub status : ScanQueueStatus
  pub signal_event : Bool
  pub shared : Shared

unfoldable pub scan_queue : ScanQueue
scan_queue = record {
  store = [];
  queue = [];
  history_queue = [];
  active_instruction_queue = none;
  status = ScanQueueStatus.running;
  signal_event = false;
  shared = record { worker = InstructionQueueStatus.idle; published = 0 };
}

abbrev pub items : ScanQueue → List InstructionQueueItem
items q = deref q.store q.queue

-- The setter of `status`.
unfoldable pub set_status : ScanQueueStatus → ScanQueue → ScanQueue
set_status v q = record q { status = v; shared = publish q.shared }

-- The getter and the setter of `worker_status`.
unfoldable pub worker_status : ScanQueue → Option InstructionQueueStatus
worker_status q = elim (items q) [ [] ↦ none | it ∷ _ ↦ some it.status ]

unfoldable pub set_first_status : InstructionQueueStatus → List ℕ → ScanQueue → ScanQueue
unfolding Item.set_status
set_first_status v [] q = q
set_first_status v (r ∷ rs) q = record q {
  store = update r (λ it. (Item.set_status v (it, q.shared)).0) q.store;
  shared = record { worker = v; published = q.shared.published + 1 };
}

unfoldable pub set_worker_status : InstructionQueueStatus → ScanQueue → ScanQueue
unfolding set_first_status
set_worker_status v q = set_first_status v q.queue q

unfoldable pub clear : ScanQueue → ScanQueue
clear q = record q { queue = []; active_instruction_queue = none }

-- deque.remove of an object
unfoldable pub remove : ℕ → List ℕ → List ℕ
remove r [] = []
remove r (s ∷ ss) = if s == r then ss else s ∷ remove r ss

abbrev pub remove_each : List ℕ → List ℕ → List ℕ
remove_each [] xs = xs
remove_each (r ∷ rs) xs = remove_each rs (remove r xs)

-- Does an item hold one of these scan ids?
abbrev pub holds_any : List (Option String) → ScanQueue → ℕ → Bool
holds_any ids q r = elim (get_elem? q.store r) [
  | none ↦ false
  | some it ↦ exists (λ i. contains i (scan_ids it.queue)) ids
]

unfoldable pub remove_queue_item : List (Option String) → ScanQueue → ScanQueue
unfolding remove
remove_queue_item [] q = q
remove_queue_item (i ∷ is) q = record q {
  queue = remove_each (keep (holds_any (i ∷ is) q) q.queue) q.queue;
}

abbrev pub has_def : String → ScanQueue → ℕ → Bool
has_def d q r = elim (get_elem? q.store r) [ none ↦ false | some it ↦ has d it.queue.scan_def_ids ]

abbrev pub has_group : String → ScanQueue → ℕ → Bool
has_group g q r = elim (get_elem? q.store r) [ none ↦ false | some it ↦ it.queue_group == some g ]

-- `get_queue_item`, in the two ways in which it is called: by a scan definition and by a group.
unfoldable pub get_queue_item : Option String → Option String → ScanQueue → Option ℕ
get_queue_item group (some d) q = elim (find (has_def d q) q.queue) [
  | some r ↦ some r
  | none ↦ elim group [ none ↦ none | some g ↦ find (has_group g q) q.queue ]
]
get_queue_item (some g) none q = find (has_group g q) q.queue
get_queue_item none none q = none

-- The item that a message is appended to; none where a new one is made.
abbrev pub target_of : Option String → Option String → ScanQueue → Option ℕ
target_of (some d) group q = get_queue_item none (some d) q
target_of none (some g) q = get_queue_item (some g) none q
target_of none none q = none

unfoldable pub target : ScanQueueMessage → ScanQueue → Option ℕ
unfolding get_queue_item
target msg q = target_of msg.metadata.scan_def_id msg.metadata.queue_group q

-- A position in a call of `insert`: -1 is `last`.
pub data Position : Type 0 where
  last : Position
  at : ℕ → Position

abbrev pub place : Position → ℕ → List ℕ → List ℕ
place last r xs = xs ++ r ∷ []
place (at i) r xs = take i xs ++ r ∷ drop i xs

module _ (assembler : ScanQueueMessage → Option Scan) where
  unfoldable pub insert_existing : ℕ → ScanQueueMessage → String → ScanQueue → ScanQueue
  unfolding Item.append_scan_request
  insert_existing r msg scan_uuid q = record q {
    store = update r (Item.append_scan_request (assembler msg) msg scan_uuid) q.store;
  }

  new_item : ScanQueueMessage → Option Scan → String → String → InstructionQueueItem
  unfolding Item.append_scan_request instruction_queue_item
  new_item msg scan queue_uuid scan_uuid =
      record (Item.append_scan_request scan msg scan_uuid (instruction_queue_item queue_uuid)) {
        queue_group = msg.metadata.queue_group;
      }

  -- A message that the assembler refuses raises before the new item is put into the queue.
  unfoldable pub insert_new : ScanQueueMessage → Position → String → String → ScanQueue → ScanQueue
  unfolding new_item
  insert_new msg position queue_uuid scan_uuid q = elim (assembler msg) [
    | none ↦ q
    | some scan ↦ record q {
      store = q.store ++ new_item msg (some scan) queue_uuid scan_uuid ∷ [];
      queue = place position (length q.store) q.queue;
    }
  ]

  -- `insert`; it raises where the assembler does, and leaves the queue as it is given here.
  unfoldable pub insert : ScanQueueMessage → Position → String → String → ScanQueue → ScanQueue
  unfolding target insert_existing insert_new
  insert msg position queue_uuid scan_uuid q = elim (target msg q) [
    | some r ↦ insert_existing r msg scan_uuid q
    | none ↦ insert_new msg position queue_uuid scan_uuid q
  ]

-- `abort` of the active item.
unfoldable pub abort : ScanQueue → ScanQueue
unfolding Item.abort
abort q = elim q.active_instruction_queue [
  | none ↦ q
  | some r ↦ record q { store = update r Item.abort q.store }
]

same_scan_ids : List (Option String) → List (Option String) → Bool
same_scan_ids [] [] = true
same_scan_ids [] (b ∷ bs) = false
same_scan_ids (a ∷ as') [] = false
same_scan_ids (a ∷ as') (b ∷ bs) = a == b && same_scan_ids as' bs

-- `get_scan`, which compares whole lists of scan ids.
unfoldable pub get_scan : List (Option String) → ScanQueue → Option ℕ
unfolding same_scan_ids
get_scan ids q =
    find
      (λ r. elim (get_elem? q.store r) [
        | none ↦ false
        | some it ↦ same_scan_ids (scan_ids it.queue) ids
      ])
      (q.history_queue ++ q.queue)
