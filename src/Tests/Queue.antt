-- ===== src/Tests/Queue.antt =====
-- The scan queue at work (scan_server/scan_server/scan_queue.py).
use bec.Prelude.{
  ℕ, String, ◌≡◌, refl, ◌≢◌, ◌+◌, none, some, [], ◌∷◌, ◌<◌, arith, string_eq, get_elem?,
}
use bec.Prelude.Dict.{lookup}
use bec.ScanServer.Queue.Status.{InstructionQueueStatus, ScanQueueStatus}
use bec.ScanServer.Queue.Block.{RequestBlock, request_block}
use bec.ScanServer.Queue.Item.{InstructionQueueItem, instruction_queue_item}
use bec.ScanServer.Queue.Line.{
  ScanQueue, scan_queue, insert, last, items, set_status, set_worker_status,
}
use bec.ScanServer.Queue.Line.Invariant.{IsWellFormed}
use bec.ScanServer.Queue.Numbering.{scan_ids_head, scan_number}
use bec.ScanServer.Queue.Numbering.Order.{
  StandsAt, scans_ahead, scan_ids_head-scans_ahead, scan_number-lt,
}
use bec.ScanServer.Queue.Rounds.{outer, pausing, round}
use bec.ScanServer.Queue.Rounds.Fifo.{
  Log, begin, rounds, inserts as arrives, after_round, after_insert, IsFifo, Run-IsFifo, IsStranded,
  insert_stranded_lost, paused_queue-IsStranded,
}
use bec.ScanServer.Queue.Rounds.Reach.{operate_all, operate_all-IsGood, inserts, iterates}
use bec.ScanServer.Queue.Manager.{scan_interception, halt, queue_of}
use bec.ScanServer.Queue.Manager.Modifications.{
  Shows, scan_interception-Shows, scan_interception_others,
}
use bec.Tests.Samples.{assembler, plain, server, line_scan, two_queued, manager, last_active}

-- What the runs below compute with.
runs : Unit {0}
unfolding scan_queue insert scan_ids_head scan_number set_status round scan_interception
    set_worker_status queue_of
runs = tt

second_ahead : scan_ids_head (items two_queued) "queue-b" (some "scan-b") 0 ≡ 1
unfolding runs
second_ahead = refl

-- The item of a queue that a reference names.
abbrev stored : ℕ → ScanQueue → InstructionQueueItem
unfolding instruction_queue_item
stored r q = elim (get_elem? q.store r) [ none ↦ instruction_queue_item "none" | some it ↦ it ]

abbrev first_at : StandsAt (items two_queued) [] (stored 0 two_queued) [] (some "scan-a")
unfolding runs
first_at = record {
  post = stored 1 two_queued ∷ [];
  b = [];
  split = refl;
  others = tt;
  going = refl;
  ids = refl;
  first = tt;
}

abbrev second_at :
    StandsAt (items two_queued) (stored 0 two_queued ∷ []) (stored 1 two_queued) [] (some "scan-b")
unfolding runs
second_at = record {
  post = [];
  b = [];
  split = refl;
  others = (refl, tt);
  going = refl;
  ids = refl;
  first = tt;
}

scan_ids_head-scans_ahead_example :
    scan_ids_head (items two_queued) (stored 1 two_queued).queue_id (some "scan-b") 0
    ≡ scans_ahead (stored 0 two_queued ∷ []) + 0
scan_ids_head-scans_ahead_example =
    scan_ids_head-scans_ahead (items two_queued) (stored 0 two_queued ∷ []) (stored 1 two_queued) []
      (some "scan-b") second_at

abbrev block_a : RequestBlock
unfolding request_block
block_a = request_block line_scan plain "scan-a"

abbrev block_b : RequestBlock
unfolding request_block
block_b = request_block line_scan plain "scan-b"

scan_number-lt_example :
    (n : ℕ) × (m : ℕ) × (scan_number server
        (items two_queued)
        (stored 0 two_queued).queue_id
        block_a
      ≡ some n)
    × (scan_number server (items two_queued) (stored 1 two_queued).queue_id block_b ≡ some m)
    × (n < m)
unfolding request_block
scan_number-lt_example =
    scan_number-lt server (items two_queued) [] [] (stored 0 two_queued) (stored 1 two_queued) [] []
      (some "scan-a") (some "scan-b") block_a block_b first_at second_at refl
      (record { scans = refl; unassigned = refl; named = refl })
      (record { scans = refl; unassigned = refl; named = refl })

abbrev new_log : Log
new_log = record { phase = outer; queue = scan_queue; arrived = []; handed = [] }

Run-IsFifo_example :
    IsFifo assembler (after_round (after_insert assembler plain "queue-a" "scan-a" new_log))
unfolding runs
Run-IsFifo_example =
    Run-IsFifo assembler {start = new_log} refl
      (rounds (arrives plain "queue-a" "scan-a" line_scan begin (λ s. cc) refl refl))

operate_all-IsGood_example :
    IsWellFormed (
      operate_all assembler
        (inserts plain last "queue-a" "scan-a" ∷ iterates outer ∷ [])
        scan_queue)
unfolding runs
operate_all-IsGood_example =
    (operate_all-IsGood assembler (inserts plain last "queue-a" "scan-a" ∷ iterates outer ∷ [])
      outer).0

insert_stranded_lost_example :
    let q = record scan_queue { active_instruction_queue = some 0 } in
    (round outer (insert assembler plain last "queue-b" "scan-b" q)).1.queue ≡ []
unfolding runs
insert_stranded_lost_example =
    (insert_stranded_lost assembler plain "queue-b" "scan-b"
      (record scan_queue { active_instruction_queue = some 0 }) line_scan (refl, refl) refl refl
      refl).2

paused_queue-IsStranded_example : IsStranded outer (round pausing (round outer last_active).1).1
unfolding runs
paused_queue-IsStranded_example = (paused_queue-IsStranded last_active 0 refl refl refl refl).2

scan_interception-Shows_example :
    Shows ScanQueueStatus.paused InstructionQueueStatus.stopped 0
      (queue_of "primary" (scan_interception halt manager))
unfolding runs lookup
scan_interception-Shows_example =
    scan_interception-Shows halt manager 0 ((1 ∷ [], refl), (stored 0 two_queued, refl))

scan_interception_others_example :
    lookup "other" (scan_interception halt manager).queues ≡ some scan_queue
unfolding runs lookup
scan_interception_others_example = (scan_interception_others halt manager "other" not_same).0
  where
    not_same : ◌≢◌ {A = String} "primary" "other"
    not_same = ground (arith, string_eq.beq_iff "primary" "other")
