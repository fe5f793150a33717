-- ===== src/Tests/Items.antt =====
-- Request blocks, queue items and restarts at work (scan_server/scan_server/scan_queue.py).
use bec.Prelude.{ℕ, zero, suc, ◌≡◌, refl, ◌+◌, none, some, [], ◌∷◌, arith, string_eq, get_elem?}
use bec.Prelude.Dict.{lookup}
use bec.ScanServer.Messages.{scan_request, ScanQueueMessage, DeviceInstructionMessage, Action}
use bec.ScanServer.Queue.Status.{InstructionQueueStatus}
use bec.ScanServer.Queue.Block.{RequestBlock, request_block}
use bec.ScanServer.Queue.Block.Streams.{streams, scans, idle_queue}
use bec.ScanServer.Queue.Block.Drain.{drain, drain-streams}
use bec.ScanServer.Queue.Item
use bec.ScanServer.Queue.Item.{InstructionQueueItem, instruction_queue_item, Shared, abort}
use bec.ScanServer.Queue.Item.Endings.{IsOver, next-IsOver, IsTagged, next-IsTagged}
use bec.ScanServer.Queue.Line.{scan_queue, insert, last, target}
use bec.ScanServer.Queue.Manager.{QueueManager, queue_of, add_to_queue, set_restart}
use bec.ScanServer.Queue.Manager.Restarts.{add_to_queue_refused}
use bec.Tests.Samples.{
  assembler, raised, plain, server, line_scan, two_queued, manager, message, instruction,
  no_metadata,
}

-- What the runs below compute with.
runs : Unit {0}
unfolding scan_queue insert request_block Item.next queue_of set_restart add_to_queue target
    instruction_queue_item
runs = tt

abbrev first_block : RequestBlock
unfolding request_block
first_block = request_block line_scan plain "scan-a"

abbrev second_block : RequestBlock
unfolding request_block
second_block = request_block line_scan plain "scan-b"

drain-streams_example :
    ((drain
        (λ b. 0)
        7
        server
        (idle_queue [] [] (λ b. 0) (first_block ∷ second_block ∷ []) (0 ∷ 1 ∷ []))).0
      ≡ streams (first_block ∷ second_block ∷ []))
    × ((drain
          (λ b. 0)
          7
          server
          (idle_queue [] [] (λ b. 0) (first_block ∷ second_block ∷ []) (0 ∷ 1 ∷ []))).1.scan_number
        ≡ server.scan_number + scans (first_block ∷ second_block ∷ []))
unfolding runs
drain-streams_example =
    drain-streams [] [] (λ b. 0) 7 server (first_block ∷ second_block ∷ []) (0 ∷ 1 ∷ [])
      (first_block ∷ second_block ∷ []) (omega arith) (refl, (λ e. omega arith, tt), (refl, tt, tt))
      (
        record { quiet = tt; yielding = tt; alone = refl },
        (record { quiet = tt; yielding = tt; alone = refl }, tt),
      )

abbrev shared : Shared
shared = record { worker = InstructionQueueStatus.idle; published = 0 }

abbrev no_requests : InstructionQueueItem
unfolding instruction_queue_item
no_requests = instruction_queue_item "queue-c"

next-IsOver_example : IsOver (Item.next (λ b. 0) no_requests shared server).item
unfolding runs
next-IsOver_example = (next-IsOver (λ b. 0) no_requests shared server refl).1

abbrev loaded : InstructionQueueItem
unfolding instruction_queue_item
loaded = elim (get_elem? two_queued.store 0) [ none ↦ instruction_queue_item "none" | some it ↦ it ]

abbrev opening : DeviceInstructionMessage
opening = record (instruction Action.open_scan none) {
  metadata = record no_metadata { scan_id = some "scan-a"; queue_id = some "queue-a" };
}

next-IsTagged_example : IsTagged opening (Item.next (λ b. 0) loaded shared server).item
unfolding runs
next-IsTagged_example = next-IsTagged (λ b. 0) loaded shared server opening refl

abbrev unknown : ScanQueueMessage
unknown = message "no_scan" none none

abbrev refusing : QueueManager
unfolding runs lookup
refusing = add_to_queue assembler raised "primary" unknown last "queue-c" "scan-c" manager

add_to_queue_refused_example :
    (queue_of "primary" refusing ≡ queue_of "primary" manager)
    × (refusing.server ≡ record (manager.server) {
      alarms =
          record { source = scan_request unknown; alarm_type = "KeyError" } ∷ manager.server.alarms;
    })
unfolding runs lookup
add_to_queue_refused_example =
    add_to_queue_refused assembler raised "primary" unknown last "queue-c" "scan-c" manager refl
      refl

-- The first item has gone to the history.
abbrev moved_on : QueueManager
moved_on = record manager {
  queues = ("primary", record two_queued { queue = 1 ∷ []; history_queue = 0 ∷ [] }) ∷ [];
}

-- The second poll is the first that finds the item in the history.
abbrev seen : ℕ → QueueManager
seen zero = manager
seen (suc n) = moved_on

abbrev restarted : QueueManager
unfolding runs lookup
restarted =
    elim (set_restart assembler raised (λ m. seen) "primary" ("scan-a" ∷ []) (some "again")
      "queue-d" "scan-d" manager) [ none ↦ manager | some m ↦ m ]
