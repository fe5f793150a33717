-- ===== src/ScanServer/Queue/Rounds/Fifo.antt =====
-- The order in which a scan queue hands out its items (scan_server/scan_server/scan_queue.py).
use bec.Prelude.{
  ℕ, String, ◌≡◌, refl, Option, none, some, true, false, List, [], ◌∷◌, ◌++◌, is_some, length,
  arith, append_assoc, sym, ◌∙◌, ap,
}
use bec.ScanServer.Messages.{ScanQueueMessage, Scan}
use bec.ScanServer.Queue.Status.{ScanQueueStatus, is_paused}
use bec.ScanServer.Queue.Line.{ScanQueue, last, insert, target, set_status}
use bec.ScanServer.Queue.Rounds.{Phase, outer, pausing, Round, serve, sleep, round}

abbrev pub tail : List ℕ → List ℕ
tail [] = []
tail (r ∷ rs) = rs

-- The items that are still to be handed out. The inner loop is entered when the active item has
-- left the queue; the outer one still has it at the head.
abbrev pub waiting : Phase → ScanQueue → List ℕ
waiting outer q = elim q.active_instruction_queue [ none ↦ q.queue | some _ ↦ tail q.queue ]
waiting pausing q = q.queue

abbrev pub served : Round → List ℕ
served (serve (some r)) = r ∷ []
served (serve none) = []
served (sleep p) = []

abbrev pub phase_after : Round → Phase
phase_after (serve r) = outer
phase_after (sleep p) = p

-- A round hands out the first waiting item or none, and the others go on waiting in their order.
pub round_fifo :
    (p : Phase) (q : ScanQueue)
    → served (round p q).0 ++ waiting (phase_after (round p q).0) (round p q).1 ≡ waiting p q
unfolding round set_status
round_fifo outer q = ground arith
round_fifo pausing q = ground arith

-- The item that was active is gone, and the outer loop does not know it yet.
abbrev pub IsStranded : Phase → ScanQueue → Type 0
IsStranded outer q = is_some q.active_instruction_queue ≡ true × (q.queue ≡ [])
IsStranded pausing q = ⊥

module _ (assembler : ScanQueueMessage → Option Scan) (msg : ScanQueueMessage)
    (queue_uuid scan_uuid : String) where
  -- A message that makes a new item joins the end of those that wait.
  waiting-insert :
      (p : Phase) (q : ScanQueue) (scan : Scan)
      → ¬ IsStranded p q
      → target msg q ≡ none
      → assembler msg ≡ some scan
      → waiting p (insert assembler msg last queue_uuid scan_uuid q)
        ≡ waiting p q ++ length q.store ∷ []
  unfolding insert
  waiting-insert outer q scan h t e = ground arith
  waiting-insert pausing q scan h t e = ground arith

-- A history of a scan queue: the items that have come into it and those that it has handed out.
pub record Log : Type 0 where
  pub phase : Phase
  pub queue : ScanQueue
  pub arrived : List ℕ
  pub handed : List ℕ

abbrev pub after_round : Log → Log
after_round l = record {
  phase = phase_after (round l.phase l.queue).0;
  queue = (round l.phase l.queue).1;
  arrived = l.arrived;
  handed = l.handed ++ served (round l.phase l.queue).0;
}

module _ (assembler : ScanQueueMessage → Option Scan) where
  abbrev pub after_insert : ScanQueueMessage → String → String → Log → Log
  after_insert msg queue_uuid scan_uuid l = record l {
    queue = insert assembler msg last queue_uuid scan_uuid l.queue;
    arrived = l.arrived ++ length l.queue.store ∷ [];
  }

  -- The worker's rounds, new items and changes of the status, in any order. The worker handles an
  -- item between two rounds, which changes no queue.
  pub data Run (start : Log) : Log → Type 0 where
    begin : Run start start
    rounds : {l : Log} → Run start l → Run start (after_round l)
    inserts :
        {l : Log} (msg : ScanQueueMessage) (queue_uuid scan_uuid : String) (scan : Scan)
        → Run start l
        → ¬ IsStranded l.phase l.queue
        → target msg l.queue ≡ none
        → assembler msg ≡ some scan
        → Run start (after_insert msg queue_uuid scan_uuid l)
    turns :
        {l : Log} (v : ScanQueueStatus)
        → Run start l
        → Run start (record l { queue = set_status v l.queue })

  abbrev pub IsFifo : Log → Type 0
  IsFifo l = l.handed ++ waiting l.phase l.queue ≡ l.arrived

  waiting-set_status :
      (v : ScanQueueStatus) (p : Phase) (q : ScanQueue) → waiting p (set_status v q) ≡ waiting p q
  unfolding set_status
  waiting-set_status v outer q = refl
  waiting-set_status v pausing q = refl

  -- Over any such history that starts in order, the items handed out and those that still wait are
  -- together the items that have come in, in the order in which they came: none is lost, repeated
  -- or overtaken. (No message is put into a stranded queue.)
  pub Run-IsFifo : {start l : Log} → IsFifo start → Run start l → IsFifo l
  Run-IsFifo h begin = h
  Run-IsFifo h (rounds {l = l} r) =
      append_assoc l.handed _ _ ∙ ap (◌++◌ l.handed) (round_fifo l.phase l.queue) ∙ Run-IsFifo h r
  Run-IsFifo h (inserts {l = l} msg queue_uuid scan_uuid scan r s t e) =
      rw (waiting-insert assembler msg queue_uuid scan_uuid l.phase l.queue scan s t e) (
        sym (append_assoc l.handed (waiting l.phase l.queue) _)
        ∙ ap (λ xs. xs ++ length l.queue.store ∷ []) (Run-IsFifo h r))
  Run-IsFifo h (turns {l = l} v r) = rw (waiting-set_status v l.phase l.queue) (Run-IsFifo h r)

  -- A message put into a stranded queue makes an item that the next round throws away: it is handed
  -- out neither then nor later, since it does not wait any more.
  pub insert_stranded_lost :
      (msg : ScanQueueMessage) (queue_uuid scan_uuid : String) (q : ScanQueue) (scan : Scan)
      → IsStranded outer q
      → q.signal_event ≡ false
      → target msg q ≡ none
      → assembler msg ≡ some scan
      → ((insert assembler msg last queue_uuid scan_uuid q).queue ≡ length q.store ∷ [])
        × (served (round outer (insert assembler msg last queue_uuid scan_uuid q)).0 ≡ [])
        × ((round outer (insert assembler msg last queue_uuid scan_uuid q)).1.queue ≡ [])
  unfolding insert round set_status
  insert_stranded_lost msg queue_uuid scan_uuid q scan s h t e =
      (ground arith, ground arith, ground arith)

-- A queue that is paused while its last item is active comes to be stranded: the item leaves, the
-- queue sets itself running again, finds no item and goes back to the outer loop.
pub paused_queue-IsStranded :
    (q : ScanQueue) (r : ℕ)
    → q.signal_event ≡ false
    → q.active_instruction_queue ≡ some r
    → q.queue ≡ r ∷ []
    → is_paused q.status ≡ true
    → let first = round outer q in
      let second = round pausing first.1 in
      (first.0 ≡ sleep pausing) × (second.0 ≡ sleep outer) × IsStranded outer second.1
unfolding round set_status
paused_queue-IsStranded q r h a e s = ground arith
