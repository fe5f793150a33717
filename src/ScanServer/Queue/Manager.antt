-- ===== src/ScanServer/Queue/Manager.antt =====
-- QueueManager of scan_server/scan_server/scan_queue.py. Its decorator `requires_queue` adds the
-- queue that a method names where it is missing; the lock is held by each method on its own.
pub mod Modifications
pub mod Restarts
use bec.Prelude.{
  ℕ, zero, suc, String, Option, none, some, Bool, true, false, List, [], ◌∷◌, if◌then◌else◌,
  get_elem?, update, truthy, string_eq, option_eq, contains, ◌&&◌, map, not,
}
use bec.Prelude.Dict.{Dict, lookup, insert, has}
use bec.ScanServer.Messages.{ScanQueueMessage, Scan, Server, scan_request}
use bec.ScanServer.Queue.Status.{InstructionQueueStatus, ScanQueueStatus}
use bec.ScanServer.Queue.Block.{scan_ids, active}
use bec.ScanServer.Queue.Item.{Description, describe, InstructionQueueItem}
use bec.ScanServer.Queue.Line
use bec.ScanServer.Queue.Line.{ScanQueue, scan_queue, Position, last, at, items}

pub record QueueManager : Type 0 where
  pub queues : Dict String ScanQueue
  pub server : Server

unfoldable pub add_queue : String → QueueManager → QueueManager
unfolding scan_queue
add_queue name m =
    if has name m.queues then m else record m { queues = insert name scan_queue m.queues }

-- The queue of a name, as it is once `requires_queue` has passed.
unfoldable pub queue_of : String → QueueManager → ScanQueue
queue_of name m = elim (lookup name m.queues) [ none ↦ scan_queue | some q ↦ q ]

-- A method under `requires_queue` that changes one queue.
unfoldable pub on_queue : String → (ScanQueue → ScanQueue) → QueueManager → QueueManager
unfolding add_queue queue_of
on_queue name f m = record m {
  queues = insert name (f (queue_of name m)) (add_queue name m).queues;
}

unfoldable pub set_pause : String → QueueManager → QueueManager
unfolding on_queue
set_pause name = on_queue name λ q.
    Line.set_worker_status InstructionQueueStatus.paused (Line.set_status ScanQueueStatus.paused q)

unfoldable pub set_deferred_pause : String → QueueManager → QueueManager
unfolding on_queue
set_deferred_pause name = on_queue name λ q.
    Line.set_worker_status InstructionQueueStatus.deferred_pause
      (Line.set_status ScanQueueStatus.paused q)

unfoldable pub set_continue : String → QueueManager → QueueManager
unfolding on_queue
set_continue name = on_queue name λ q.
    Line.set_worker_status InstructionQueueStatus.running
      (Line.set_status ScanQueueStatus.running q)

unfoldable pub abort_queue : ScanQueue → ScanQueue
abort_queue q =
    Line.set_worker_status InstructionQueueStatus.stopped
      (elim q.queue [ [] ↦ q | _ ∷ _ ↦ Line.set_status ScanQueueStatus.paused q ])

unfoldable pub set_abort : String → QueueManager → QueueManager
unfolding on_queue abort_queue
set_abort name = on_queue name abort_queue

unfoldable pub forbid_return : ScanQueue → ScanQueue
forbid_return q = elim q.active_instruction_queue [
  | none ↦ q
  | some r ↦ record q {
    store = update r (λ it. record it { forced_return_to_start = some false }) q.store;
  }
]

unfoldable pub set_halt : String → QueueManager → QueueManager
unfolding on_queue forbid_return set_abort
set_halt name m = set_abort name (on_queue name forbid_return m)

unfoldable pub set_clear : String → QueueManager → QueueManager
unfolding on_queue
set_clear name = on_queue name λ q. Line.clear (
    Line.set_worker_status InstructionQueueStatus.stopped
      (Line.set_status ScanQueueStatus.paused q))

-- The assembler refuses a message by an exception, of the class `raised`.
module _ (assembler : ScanQueueMessage → Option Scan) (raised : ScanQueueMessage → String) where
  -- `add_to_queue`. The alarm of a refused message names the class of the exception.
  unfoldable pub add_to_queue :
      String → ScanQueueMessage → Position → String → String → QueueManager → QueueManager
  unfolding on_queue
  add_to_queue name msg position queue_uuid scan_uuid m =
      let m' = on_queue name (Line.insert assembler msg position queue_uuid scan_uuid) m in
      elim (assembler msg) [
        | some _ ↦ m'
        | none ↦ record m' {
          server = record (m.server) {
            alarms =
                record { source = scan_request msg; alarm_type = raised msg } ∷ m.server.alarms;
          };
        }
      ]

  -- `_scan_queue_callback`, without the publishing at its end.
  unfoldable pub scan_queue_callback :
      ScanQueueMessage → String → String → QueueManager → QueueManager
  unfolding add_to_queue
  scan_queue_callback msg queue_uuid scan_uuid m =
      let name : String = elim msg.queue [ none ↦ "primary" | some n ↦ n ] in
      add_to_queue name msg last queue_uuid scan_uuid m

-- `_get_active_scanID`
unfoldable pub get_active_scan_id : ScanQueue → Option String
get_active_scan_id q = elim (items q) [
  | [] ↦ none
  | it ∷ _ ↦ elim (active it.queue) [ none ↦ none | some rb ↦ rb.scan_id ]
]

last_of : List ℕ → Option ℕ
last_of [] = none
last_of (r ∷ rs) = elim (last_of rs) [ none ↦ some r | some s ↦ some s ]

item_holds : String → ScanQueue → Option ℕ → Bool
item_holds id q none = false
item_holds id q (some r) = elim (get_elem? q.store r) [
  | none ↦ false
  | some it ↦ contains (some id) (scan_ids it.queue)
]

head_holds : String → ScanQueue → Bool
unfolding item_holds
head_holds id q = elim q.queue [ [] ↦ false | r ∷ _ ↦ item_holds id q (some r) ]

-- One look of `_wait_for_queue_to_appear_in_history` at the queue.
unfoldable pub appeared : String → ScanQueue → Option ℕ
unfolding last_of item_holds head_holds
appeared id q =
    if item_holds id q (last_of q.history_queue) && not (head_holds id q)
    then last_of q.history_queue
    else none

-- The whole wait, over the states in which each poll from now on finds the manager: the item and
-- the state in which it is found; none is the TimeoutError.
unfoldable pub wait_in_history :
    ℕ → String → String → (ℕ → QueueManager) → Option (ℕ × QueueManager)
unfolding appeared
wait_in_history zero name id seen = none
wait_in_history (suc polls) name id seen = elim (appeared id (queue_of name (seen 0))) [
  | some r ↦ some (r, seen 0)
  | none ↦ wait_in_history polls name id (λ n. seen (suc n))
]

-- elapsed_time grows by 0.1 from 0 and may not pass 10: 101 polls of floating point arithmetic.
abbrev pub max_polls : ℕ
max_polls = 101

-- `set_restart` up to the wait: the scan that is to be restarted, and the queue stopped.
unfoldable pub restart_id : List String → ScanQueue → Option String
restart_id [] q = get_active_scan_id q
restart_id (id ∷ _) q = some id

unfoldable pub stop_for_restart : String → QueueManager → QueueManager
unfolding on_queue
stop_for_restart name = on_queue name λ q.
    Line.set_worker_status InstructionQueueStatus.stopped (Line.set_status ScanQueueStatus.paused q)

-- The message of the restarted scan, under the request id that the restart asks for.
unfoldable pub restart_msg : Option String → ScanQueueMessage → ScanQueueMessage
restart_msg rid msg =
    if truthy rid
    then elim rid [
      | none ↦ msg
      | some r ↦ record msg { metadata = record (msg.metadata) { rid = r } }
    ]
    else msg

-- The request id is written into the metadata of the message, which the finished item and its first
-- block share with the new item.
abbrev pub rename_first : Option String → InstructionQueueItem → InstructionQueueItem
rename_first rid it = record it {
  scan_msgs = elim it.scan_msgs [ [] ↦ [] | msg ∷ msgs ↦ restart_msg rid msg ∷ msgs ];
  queue = record (it.queue) {
    store = update 0 (λ rb. record rb { msg = restart_msg rid rb.msg }) it.queue.store;
  };
}

abbrev pub rename_item : Option String → ℕ → ScanQueue → ScanQueue
rename_item rid r q = record q { store = update r (rename_first rid) q.store }

module _ (assembler : ScanQueueMessage → Option Scan) (raised : ScanQueueMessage → String) where
  -- `set_restart` after the wait, in the state that the manager is in by then.
  unfoldable pub resume_restart :
      String → Option String → ℕ → String → String → QueueManager → QueueManager
  unfolding restart_msg on_queue add_to_queue
  resume_restart name rid r queue_uuid scan_uuid m = elim (get_elem? (queue_of name m).store r) [
    | none ↦ m
    | some it ↦ elim it.scan_msgs [
      | [] ↦ m
      | msg ∷ _ ↦
          add_to_queue assembler raised name (restart_msg rid msg) (at 0) queue_uuid scan_uuid
            (on_queue name (rename_item rid r) m)
    ]
  ]

  -- `set_restart`. While it waits the worker and other requests go on: `later` gives the states that
  -- the polls find, from the state that it leaves. none is the TimeoutError.
  unfoldable pub set_restart :
      (QueueManager → ℕ → QueueManager)
      → String
      → List String
      → Option String
      → String
      → String
      → QueueManager
      → Option QueueManager
  unfolding restart_id stop_for_restart wait_in_history resume_restart
  set_restart later name ids rid queue_uuid scan_uuid m = elim (restart_id ids (queue_of name m)) [
    | none ↦ some (add_queue name m)
    | some id ↦ elim (wait_in_history max_polls name id (later (stop_for_restart name m))) [
      | none ↦ none
      | some (r, m') ↦ some (resume_restart name rid r queue_uuid scan_uuid m')
    ]
  ]

-- scan_interception: the actions that have a method, all but `restart`, which waits.
pub data Modification : Type 0 where
  pause deferred_pause continue abort halt clear : Modification

unfoldable pub scan_interception : Modification → QueueManager → QueueManager
unfolding set_pause set_deferred_pause set_continue set_abort set_halt set_clear
scan_interception pause m = set_pause "primary" m
scan_interception deferred_pause m = set_deferred_pause "primary" m
scan_interception continue m = set_continue "primary" m
scan_interception abort m = set_abort "primary" m
scan_interception halt m = set_halt "primary" m
scan_interception clear m = set_clear "primary" m

pub record QueueExport : Type 0 where
  pub info : List Description
  pub status : ScanQueueStatus

-- `export_queue`
unfoldable pub export_queue : QueueManager → Dict String QueueExport
export_queue m =
    map (λ (name, q). (name, record { info = map describe (items q); status = q.status })) m.queues

-- `shutdown`
unfoldable pub shutdown : QueueManager → QueueManager
shutdown m = record m {
  queues = map (λ (name, q). (name, record q { signal_event = true })) m.queues;
}
