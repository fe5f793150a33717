-- ===== src/ScanServer/Queue/Numbering.antt =====
-- The numbering of scans by their place in the queue: RequestBlock.scanIDs_head and
-- RequestBlock.scan_number of scan_server/scan_server/scan_queue.py.
pub mod Order
use bec.Prelude.{
  ℕ, ◌+◌, String, Option, none, some, List, [], ◌∷◌, ◌==◌, truthy, if◌then◌else◌, length, not,
  string_eq, option_eq, nat_eq, keep,
}
use bec.ScanServer.Messages.{Server}
use bec.ScanServer.Queue.Status.{is_completed}
use bec.ScanServer.Queue.Block.{RequestBlock, scan_ids}
use bec.ScanServer.Queue.Item.{InstructionQueueItem}

-- The loop of scanIDs_head over the item of the request block itself.
unfoldable pub head_in : Option String → List (Option String) → ℕ → ℕ
head_in t [] offset = offset
head_in t (s ∷ ss) offset =
    let rest = head_in t ss (if truthy s then offset + 1 else offset) in
    if s == t then offset else rest

-- scanIDs_head, for the block with scan id `t` of the item `queue_id`.
unfoldable pub scan_ids_head : List InstructionQueueItem → String → Option String → ℕ → ℕ
unfolding head_in
scan_ids_head [] queue_id t offset = offset
scan_ids_head (it ∷ its) queue_id t offset =
    let skipped = scan_ids_head its queue_id t offset in
    let passed = scan_ids_head its queue_id t (offset + length (keep truthy (scan_ids it.queue))) in
    if is_completed it.status
    then skipped
    else if it.queue_id == queue_id
    then head_in t (scan_ids it.queue) offset
    else passed

-- RequestBlock.scan_number
unfoldable pub scan_number : Server → List InstructionQueueItem → String → RequestBlock → Option ℕ
unfolding scan_ids_head
scan_number server items queue_id rb =
    if not rb.is_scan then none else elim rb.assigned_scan_number [
      | some n ↦ some n
      | none ↦ some (server.scan_number + scan_ids_head items queue_id rb.scan_id 0)
    ]
