-- ===== src/ScanServer/Queue/Rounds/Reach.antt =====
-- Whatever is done to a scan queue, by requests and by its worker
-- (scan_server/scan_server/scan_queue.py).
use bec.Prelude.{
  ℕ, suc, ◌-◌, if_ind, ◌<◌, String, ◌≡◌, refl, inl, inr, Option, none, some, List, [], ◌∷◌, ◌++◌,
  length, All-append, All-drop, length-update, Option-cases, get_elem?,
}
use bec.Prelude.Deque
use bec.ScanServer.Messages.{ScanQueueMessage, Scan, Server}
use bec.ScanServer.Queue.Status.{InstructionQueueStatus, ScanQueueStatus, is_paused}
use bec.ScanServer.Queue.Item.{publish}
use bec.ScanServer.Queue.Line
use bec.ScanServer.Queue.Line.{ScanQueue, scan_queue, Position, max_history}
use bec.ScanServer.Queue.Line.Invariant.{
  IsWellFormed, scan_queue-IsWellFormed, keep-IsWellFormed, set_status-IsWellFormed,
  set_worker_status-IsWellFormed, clear-IsWellFormed, remove_queue_item-IsWellFormed,
  insert-IsWellFormed, abort-IsWellFormed,
}
use bec.ScanServer.Queue.Rounds.{
  Phase, outer, pausing, Round, serve, sleep, pop_active, running_round, pausing_round, outer_round,
  round, activate, next_instruction,
}

activate-IsWellFormed :
    (r : ℕ) (q : ScanQueue) → r < length q.store → IsWellFormed q → IsWellFormed (activate r q)
unfolding activate Deque.append
activate-IsWellFormed r q h w = record {
  queued = w.queued;
  distinct = w.distinct;
  past =
      All-drop _ (suc (length q.history_queue) - max_history) (q.history_queue ++ r ∷ [])
        (All-append _ q.history_queue (r ∷ []) w.past (h, tt));
  current = h;
  bounded = Deque.length-append_le max_history q.history_queue r;
}

pop_from-IsWellFormed :
    (rs : List ℕ) (q : ScanQueue)
    → q.queue ≡ rs
    → IsWellFormed q
    → IsWellFormed
        (elim rs [ [] ↦ q | _ ∷ rest ↦ record q { queue = rest; shared = publish q.shared } ])
pop_from-IsWellFormed [] q e w = w
pop_from-IsWellFormed (r ∷ rest) q e w = record {
  queued = (rw e at w.queued).1;
  distinct = (rw e at w.distinct).1;
  past = w.past;
  current = w.current;
  bounded = w.bounded;
}

pop_active-IsWellFormed : (q : ScanQueue) → IsWellFormed q → IsWellFormed (pop_active q)
unfolding pop_active
pop_active-IsWellFormed q w = elim (Option-cases q.active_instruction_queue) [
  | inl e ↦ rw (e, pop_active) w
  | inr (r, e) ↦ rw (e, pop_active) (pop_from-IsWellFormed q.queue q refl w)
]

-- The round hands out an item of the store.
abbrev pub IsServed : ScanQueue → Round → Type 0
IsServed q (serve (some r)) = r < length q.store
IsServed q (serve none) = Unit {0}
IsServed q (sleep p) = Unit {0}

abbrev pub IsGood : Round × ScanQueue → Type 0
IsGood (out, q) = IsWellFormed q × IsServed q out

first_or :
    (rs : List ℕ) (q : ScanQueue) (idle : Round × ScanQueue)
    → q.queue ≡ rs
    → IsWellFormed q
    → IsGood idle
    → IsGood (elim rs [ [] ↦ idle | r ∷ _ ↦ (serve (some r), activate r q) ])
unfolding activate
first_or [] q idle e w g = g
first_or (r ∷ rs) q idle e w g =
    (activate-IsWellFormed r q (rw e at w.queued).0 w, (rw e at w.queued).0)

running_round-IsGood : (q : ScanQueue) → IsWellFormed q → IsGood (running_round q)
unfolding running_round
running_round-IsGood q w =
    first_or q.queue q (sleep outer, record q { active_instruction_queue = none }) refl w
      (
        record {
          queued = w.queued;
          distinct = w.distinct;
          past = w.past;
          current = tt;
          bounded = w.bounded;
        },
        tt,
      )

wake-IsGood :
    (rs : List ℕ) (q : ScanQueue)
    → IsWellFormed q
    → IsGood (sleep pausing, elim rs [ [] ↦ Line.set_status ScanQueueStatus.running q | _ ∷ _ ↦ q ])
wake-IsGood [] q w = (set_status-IsWellFormed ScanQueueStatus.running q w, tt)
wake-IsGood (r ∷ rs) q w = (w, tt)

pausing_round-IsGood : (q : ScanQueue) → IsWellFormed q → IsGood (pausing_round q)
unfolding pausing_round
pausing_round-IsGood q w =
    if_ind IsGood (is_paused q.status) (wake-IsGood q.queue q w)
      (first_or q.queue q (sleep outer, q) refl w (w, tt))

outer_round-IsGood : (q : ScanQueue) → IsWellFormed q → IsGood (outer_round q)
unfolding outer_round
outer_round-IsGood q w =
    let popped = pop_active-IsWellFormed q w in
    if_ind IsGood q.signal_event (w, tt)
      (if_ind IsGood (is_paused (pop_active q).status) (pausing_round-IsGood (pop_active q) popped)
        (running_round-IsGood (pop_active q) popped))

pub round-IsGood : (p : Phase) (q : ScanQueue) → IsWellFormed q → IsGood (round p q)
unfolding round
round-IsGood outer q w = outer_round-IsGood q w
round-IsGood pausing q w = pausing_round-IsGood q w

next_instruction-IsWellFormed :
    (r : ℕ) (s : Server) (q : ScanQueue)
    → IsWellFormed q
    → IsWellFormed (next_instruction r s q).queue
unfolding next_instruction
next_instruction-IsWellFormed r s q w = elim (Option-cases (get_elem? q.store r)) [
  | inl e ↦ rw (e, next_instruction) w
  | inr (it, e) ↦
      rw (e, next_instruction) (keep-IsWellFormed q _ (length-update r _ q.store) refl refl refl w)
]

-- What requests and the worker do to a scan queue.
pub data Operation : Type 0 where
  sets_status : ScanQueueStatus → Operation
  sets_worker_status : InstructionQueueStatus → Operation
  clears aborts : Operation
  removes : List (Option String) → Operation
  inserts : ScanQueueMessage → Position → String → String → Operation
  iterates : Phase → Operation
  takes_instruction : ℕ → Server → Operation

module _ (assembler : ScanQueueMessage → Option Scan) where
  abbrev pub operate : Operation → ScanQueue → ScanQueue
  operate (sets_status v) q = Line.set_status v q
  operate (sets_worker_status v) q = Line.set_worker_status v q
  operate clears q = Line.clear q
  operate aborts q = Line.abort q
  operate (removes ids) q = Line.remove_queue_item ids q
  operate (inserts msg p queue_uuid scan_uuid) q =
      Line.insert assembler msg p queue_uuid scan_uuid q
  operate (iterates p) q = (round p q).1
  operate (takes_instruction r s) q = (next_instruction r s q).queue

  abbrev pub operate_all : List Operation → ScanQueue → ScanQueue
  operate_all [] q = q
  operate_all (o ∷ os) q = operate_all os (operate o q)

  operate-IsWellFormed :
      (o : Operation) (q : ScanQueue) → IsWellFormed q → IsWellFormed (operate o q)
  operate-IsWellFormed (sets_status v) q w = set_status-IsWellFormed v q w
  operate-IsWellFormed (sets_worker_status v) q w = set_worker_status-IsWellFormed v q w
  operate-IsWellFormed clears q w = clear-IsWellFormed q w
  operate-IsWellFormed aborts q w = abort-IsWellFormed q w
  operate-IsWellFormed (removes ids) q w = remove_queue_item-IsWellFormed ids q w
  operate-IsWellFormed (inserts msg p queue_uuid scan_uuid) q w =
      insert-IsWellFormed assembler msg p queue_uuid scan_uuid q w
  operate-IsWellFormed (iterates p) q w = (round-IsGood p q w).0
  operate-IsWellFormed (takes_instruction r s) q w = next_instruction-IsWellFormed r s q w

  operate_all-IsWellFormed :
      (os : List Operation) (q : ScanQueue) → IsWellFormed q → IsWellFormed (operate_all os q)
  operate_all-IsWellFormed [] q w = w
  operate_all-IsWellFormed (o ∷ os) q w =
      operate_all-IsWellFormed os (operate o q) (operate-IsWellFormed o q w)

  -- After any sequence of operations on a new scan queue its references name items of its store, no
  -- item is queued twice, the history holds 100 items at most, and the next round hands out an item
  -- of the store if it hands out any.
  pub operate_all-IsGood :
      (os : List Operation) (p : Phase)
      → IsWellFormed (operate_all os scan_queue)
        × IsServed (round p (operate_all os scan_queue)).1 (round p (operate_all os scan_queue)).0
  operate_all-IsGood os p =
      let w = operate_all-IsWellFormed os scan_queue scan_queue-IsWellFormed in
      (w, (round-IsGood p (operate_all os scan_queue) w).1)
