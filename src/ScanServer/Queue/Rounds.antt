-- ===== src/ScanServer/Queue/Rounds.antt =====
-- How the worker takes items off a scan queue: ScanQueue.__next__ of
-- scan_server/scan_server/scan_queue.py, round by round.
pub mod Fifo
pub mod Reach
use bec.Prelude.{
  ℕ, Option, none, some, [], ◌∷◌, if◌then◌else◌, get_elem?, update, string_eq, option_eq, nat_eq,
}
use bec.ScanServer.Messages.{Server}
use bec.ScanServer.Queue.Status.{ScanQueueStatus, is_paused}
use bec.ScanServer.Queue.Block.{RequestBlock}
use bec.ScanServer.Queue.Item
use bec.ScanServer.Queue.Item.{InstructionQueueItem, Shared, Taken, publish, instruction_queue_item}
use bec.Prelude.Deque
use bec.ScanServer.Queue.Numbering.{scan_ids_head}
use bec.ScanServer.Queue.Line.{ScanQueue, set_status, max_history, items}

-- `__next__`: `outer` is its loop and `pausing` the loop inside it. A round ends where the code
-- sleeps, or where it returns: `serve none` is the return of None after the signal.
pub data Phase : Type 0 where
  outer pausing : Phase

pub data Round : Type 0 where
  serve : Option ℕ → Round
  sleep : Phase → Round

-- The item that was active leaves the queue.
unfoldable pub pop_active : ScanQueue → ScanQueue
pop_active q = elim q.active_instruction_queue [
  | none ↦ q
  | some _ ↦ elim q.queue [
    | [] ↦ q
    | _ ∷ rest ↦ record q { queue = rest; shared = publish q.shared }
  ]
]

unfoldable pub activate : ℕ → ScanQueue → ScanQueue
unfolding Deque.append
activate r q = record q {
  active_instruction_queue = some r;
  history_queue = Deque.append max_history q.history_queue r;
}

-- A round of the inner loop; an IndexError of `self.queue[0]` goes back to the outer one.
unfoldable pub pausing_round : ScanQueue → Round × ScanQueue
unfolding set_status activate
pausing_round q =
    if is_paused q.status
    then (sleep pausing, elim q.queue [ [] ↦ set_status ScanQueueStatus.running q | _ ∷ _ ↦ q ])
    else elim q.queue [ [] ↦ (sleep outer, q) | r ∷ _ ↦ (serve (some r), activate r q) ]

unfoldable pub running_round : ScanQueue → Round × ScanQueue
unfolding activate
running_round q = elim q.queue [
  | [] ↦ (sleep outer, record q { active_instruction_queue = none })
  | r ∷ _ ↦ (serve (some r), activate r q)
]

unfoldable pub outer_round : ScanQueue → Round × ScanQueue
unfolding pop_active pausing_round running_round
outer_round q =
    if q.signal_event
    then (serve none, q)
    else if is_paused (pop_active q).status
    then pausing_round (pop_active q)
    else running_round (pop_active q)

unfoldable pub round : Phase → ScanQueue → Round × ScanQueue
unfolding outer_round pausing_round
round outer q = outer_round q
round pausing q = pausing_round q

-- The head of a block in the queue, for the item that a reference names.
abbrev pub head_of : ScanQueue → InstructionQueueItem → RequestBlock → ℕ
head_of q it rb = scan_ids_head (items q) it.queue_id rb.scan_id 0

-- A call of the worker on the item that it was handed.
pub record Step : Type 0 where
  pub taken : Option Taken
  pub queue : ScanQueue

unfoldable pub next_instruction : ℕ → Server → ScanQueue → Step
unfolding Item.next scan_ids_head
next_instruction r s q = elim (get_elem? q.store r) [
  | none ↦ record { taken = none; queue = q }
  | some it ↦
      let t = Item.next (head_of q it) it q.shared s in
      record {
        taken = some t;
        queue = record q { store = update r (λ _. t.item) q.store; shared = t.shared };
      }
]
