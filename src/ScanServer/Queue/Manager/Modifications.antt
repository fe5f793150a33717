-- ===== src/ScanServer/Queue/Manager/Modifications.antt =====
-- What a scan queue modification does (scan_interception and the set_ methods of
-- scan_server/scan_server/scan_queue.py).
use bec.Prelude.{
  ℕ, String, ◌≡◌, refl, ◌≢◌, inl, inr, Option, none, some, List, ◌∷◌, arith, get_elem?,
  get_elem?-update_self, get_elem?-update-some, ap, ◌∙◌, string_eq, Option-cases,
}
use bec.Prelude.Dict.{lookup, lookup-insert, lookup-insert_self}
use bec.ScanServer.Queue.Status.{InstructionQueueStatus, ScanQueueStatus}
use bec.ScanServer.Queue.Item.{InstructionQueueItem, return_to_start}
use bec.ScanServer.Queue.Item
use bec.ScanServer.Queue.Line.{
  ScanQueue, scan_queue, set_status, set_worker_status, set_first_status, clear,
}
use bec.ScanServer.Queue.Manager.{
  QueueManager, add_queue, queue_of, on_queue, Modification, scan_interception, pause,
  deferred_pause, continue, abort, halt, abort_queue, forbid_return,
}

pub queue_of-on_queue :
    (name : String) (f : ScanQueue → ScanQueue) (m : QueueManager)
    → queue_of name (on_queue name f m) ≡ f (queue_of name m)
unfolding queue_of on_queue
queue_of-on_queue name f m =
    rw (lookup-insert_self name (f (queue_of name m)) (add_queue name m).queues, queue_of)

lookup-add_queue_ne :
    (name other : String) (m : QueueManager)
    → name ≢ other
    → lookup other (add_queue name m).queues ≡ lookup other m.queues
unfolding add_queue
lookup-add_queue_ne name other m h =
    ground (arith, lookup-insert name other scan_queue m.queues, string_eq.beq_iff name other)

pub lookup-on_queue_ne :
    (name other : String) (f : ScanQueue → ScanQueue) (m : QueueManager)
    → name ≢ other
    → lookup other (on_queue name f m).queues ≡ lookup other m.queues
unfolding on_queue
lookup-on_queue_ne name other f m h = ground (
  arith,
  lookup-insert name other (f (queue_of name m)) (add_queue name m).queues,
  string_eq.beq_iff name other,
  lookup-add_queue_ne name other m h,
)

-- The status that an action asks of the queue, and of the item at its head.
abbrev pub asked : Modification → ScanQueueStatus
asked continue = ScanQueueStatus.running
asked _ = ScanQueueStatus.paused

abbrev pub asked_item : Modification → InstructionQueueStatus
asked_item pause = InstructionQueueStatus.paused
asked_item deferred_pause = InstructionQueueStatus.deferred_pause
asked_item continue = InstructionQueueStatus.running
asked_item _ = InstructionQueueStatus.stopped

-- What an action does to the primary queue alone.
abbrev pub effect : Modification → ScanQueue → ScanQueue
effect pause q =
    set_worker_status InstructionQueueStatus.paused (set_status ScanQueueStatus.paused q)
effect deferred_pause q =
    set_worker_status InstructionQueueStatus.deferred_pause (set_status ScanQueueStatus.paused q)
effect continue q =
    set_worker_status InstructionQueueStatus.running (set_status ScanQueueStatus.running q)
effect abort q = abort_queue q
effect halt q = abort_queue (forbid_return q)
effect Modification.clear q =
    clear (set_worker_status InstructionQueueStatus.stopped (set_status ScanQueueStatus.paused q))

queue_of-scan_interception :
    (a : Modification) (m : QueueManager)
    → queue_of "primary" (scan_interception a m) ≡ effect a (queue_of "primary" m)
unfolding scan_interception
queue_of-scan_interception pause m = queue_of-on_queue "primary" (effect pause) m
queue_of-scan_interception deferred_pause m = queue_of-on_queue "primary" (effect deferred_pause) m
queue_of-scan_interception continue m = queue_of-on_queue "primary" (effect continue) m
queue_of-scan_interception abort m = queue_of-on_queue "primary" abort_queue m
queue_of-scan_interception halt m =
    queue_of-on_queue "primary" abort_queue (on_queue "primary" forbid_return m)
    ∙ ap abort_queue (queue_of-on_queue "primary" forbid_return m)
queue_of-scan_interception Modification.clear m =
    queue_of-on_queue "primary" (effect Modification.clear) m

-- The item at the head of the queue, wherever it is stored.
abbrev pub status_at : ℕ → ScanQueue → Option InstructionQueueStatus
status_at r q = elim (get_elem? q.store r) [ none ↦ none | some it ↦ some it.status ]

-- The head of the queue is an item of the store.
abbrev pub HasFirst : ℕ → ScanQueue → Type 0
HasFirst r q =
    ((rs : List ℕ) × (q.queue ≡ r ∷ rs))
    × ((it : InstructionQueueItem) × (get_elem? q.store r ≡ some it))

-- The queue and the item at its head have these statuses, and so has the worker.
abbrev pub Shows : ScanQueueStatus → InstructionQueueStatus → ℕ → ScanQueue → Type 0
Shows v w r q = (q.status ≡ v) × (status_at r q ≡ some w) × (q.shared.worker ≡ w)

set_worker_status-Shows :
    (v : ScanQueueStatus) (w : InstructionQueueStatus) (r : ℕ) (q : ScanQueue)
    → HasFirst r q
    → q.status ≡ v
    → Shows v w r (set_worker_status w q)
unfolding set_worker_status Item.set_status
set_worker_status-Shows v w r q ((rs, first), (it, stored)) e =
    let written =
      get_elem?-update_self r (λ i. (Item.set_status w (i, q.shared)).0) q.store it stored in
    rw (first, set_first_status) (e, rw (written, status_at), refl)

set_status-HasFirst :
    (v : ScanQueueStatus) (r : ℕ) (q : ScanQueue) → HasFirst r q → HasFirst r (set_status v q)
unfolding set_status
set_status-HasFirst v r q h = h

forbid_return-HasFirst : (r : ℕ) (q : ScanQueue) → HasFirst r q → HasFirst r (forbid_return q)
unfolding forbid_return
forbid_return-HasFirst r q ((rs, first), (it, stored)) =
    elim (Option-cases q.active_instruction_queue) [
      | inl e ↦ rw (e, forbid_return) ((rs, first), (it, stored))
      | inr (s, e) ↦
          rw (e, forbid_return) ((rs, first), get_elem?-update-some s r _ q.store it stored)
    ]

status-set_status : (v : ScanQueueStatus) (q : ScanQueue) → (set_status v q).status ≡ v
unfolding set_status
status-set_status v q = refl

abort_queue-Shows :
    (r : ℕ) (q : ScanQueue)
    → HasFirst r q
    → Shows ScanQueueStatus.paused InstructionQueueStatus.stopped r (abort_queue q)
unfolding abort_queue
abort_queue-Shows r q h =
    let v = ScanQueueStatus.paused in
    rw (h.0.1, abort_queue)
      (set_worker_status-Shows v InstructionQueueStatus.stopped r (set_status v q)
        (set_status-HasFirst v r q h) (status-set_status v q))

effect-Shows :
    (a : Modification) (r : ℕ) (q : ScanQueue)
    → HasFirst r q
    → Shows (asked a) (asked_item a) r (effect a q)
unfolding clear
effect-Shows pause r q h =
    set_worker_status-Shows _ _ r (set_status ScanQueueStatus.paused q)
      (set_status-HasFirst _ r q h) (status-set_status _ q)
effect-Shows deferred_pause r q h =
    set_worker_status-Shows _ _ r (set_status ScanQueueStatus.paused q)
      (set_status-HasFirst _ r q h) (status-set_status _ q)
effect-Shows continue r q h =
    set_worker_status-Shows _ _ r (set_status ScanQueueStatus.running q)
      (set_status-HasFirst _ r q h) (status-set_status _ q)
effect-Shows abort r q h = abort_queue-Shows r q h
effect-Shows halt r q h = abort_queue-Shows r (forbid_return q) (forbid_return-HasFirst r q h)
effect-Shows Modification.clear r q h =
    set_worker_status-Shows _ _ r (set_status ScanQueueStatus.paused q)
      (set_status-HasFirst _ r q h) (status-set_status _ q)

-- Where the primary queue has an item, each action gives the queue, the item at its head and the
-- worker the statuses that it asks for: pause, deferred_pause and continue theirs, and abort, halt and
-- clear a paused queue with a stopped item.
pub scan_interception-Shows :
    (a : Modification) (m : QueueManager) (r : ℕ)
    → HasFirst r (queue_of "primary" m)
    → Shows (asked a) (asked_item a) r (queue_of "primary" (scan_interception a m))
scan_interception-Shows a m r h =
    rw (queue_of-scan_interception a m) (effect-Shows a r (queue_of "primary" m) h)

-- No action touches another queue, or the numbers of the scan server.
pub scan_interception_others :
    (a : Modification) (m : QueueManager) (other : String)
    → "primary" ≢ other
    → (lookup other (scan_interception a m).queues ≡ lookup other m.queues)
      × ((scan_interception a m).server ≡ m.server)
unfolding scan_interception
scan_interception_others pause m other h =
    (lookup-on_queue_ne "primary" other (effect pause) m h, refl)
scan_interception_others deferred_pause m other h =
    (lookup-on_queue_ne "primary" other (effect deferred_pause) m h, refl)
scan_interception_others continue m other h =
    (lookup-on_queue_ne "primary" other (effect continue) m h, refl)
scan_interception_others abort m other h =
    (lookup-on_queue_ne "primary" other abort_queue m h, refl)
scan_interception_others halt m other h = (
  lookup-on_queue_ne "primary" other abort_queue (on_queue "primary" forbid_return m) h
      ∙ lookup-on_queue_ne "primary" other forbid_return m h,
  refl,
)
scan_interception_others Modification.clear m other h =
    (lookup-on_queue_ne "primary" other (effect Modification.clear) m h, refl)
