-- ===== src/ScanServer/Worker/Loop.antt =====
-- How ScanWorker works through a queue item, and what it does when the scan is aborted
-- (scan_server/scan_server/scan_worker.py). The item gives the instructions of its iteration, in
-- which none is a None that the worker skips, and those of its return to the start.
pub mod Endings
use bec.Prelude.{
  ℕ, String, Option, none, some, Bool, true, false, ◌&&◌, ◌||◌, not, List, [], ◌∷◌, exists, is_some,
  if◌then◌else◌,
}
use bec.ScanServer.Messages.{DeviceInstructionMessage, InstructionMetadata, Server}
use bec.ScanServer.Queue.Status.{InstructionQueueStatus, is_pending}
use bec.ScanServer.Worker.State.{
  ScanWorker, Result, continues, scan_abortion, blocks, raises, and_then, send, queue_status,
  send_scan_status, check_for_interruption, reset,
}
use bec.ScanServer.Worker.Waiting.{DeviceManager}
use bec.ScanServer.Worker.Devices.{cleanup}
use bec.ScanServer.Worker.Scans.{instruction_step}

-- The queue item, with the scan id of its active request block.
pub record Item : Type 0 where
  pub instructions : List (Option DeviceInstructionMessage)
  pub to_start : List DeviceInstructionMessage
  pub has_active_block : Bool
  pub active_scan_id : Option String
  pub queue_id : String
  pub return_to_start : Bool
  pub stopped : Bool
  pub is_active : Bool
  pub status : InstructionQueueStatus

-- The setter of the item's status, which sets the worker's and publishes the queue.
abbrev pub set_status : InstructionQueueStatus → Item → ScanWorker → Item × ScanWorker
set_status s item w = (record item { status = s }, send queue_status (record w { status = s }))

-- The item becomes active with the first instruction that its iteration hands out; before it the
-- worker does nothing.
unfoldable pub activate : Item → ScanWorker → Item × ScanWorker
activate item w =
    if is_pending item.status && exists is_some item.instructions
    then set_status InstructionQueueStatus.running item w
    else (item, w)

-- The loop over the item's instructions.
unfoldable pub run_instructions :
    DeviceManager → Server → List (Option DeviceInstructionMessage) → ScanWorker → Result
unfolding check_for_interruption instruction_step
run_instructions dm server [] w = continues w
run_instructions dm server (none ∷ instrs) w = run_instructions dm server instrs w
run_instructions dm server (some instr ∷ instrs) w = and_then (check_for_interruption w) (λ w'.
    and_then (instruction_step dm server instr w') (λ w''. run_instructions dm server instrs w''))

abbrev pub label : Item → DeviceInstructionMessage → DeviceInstructionMessage
label item instr = record instr {
  metadata = record (instr.metadata) {
    scan_id = item.active_scan_id;
    queue_id = some item.queue_id;
  };
}

-- The loop over the instructions back to the start.
unfoldable pub run_to_start :
    DeviceManager → Server → Item → List DeviceInstructionMessage → ScanWorker → Result
unfolding check_for_interruption instruction_step
run_to_start dm server item [] w = continues w
run_to_start dm server item (instr ∷ instrs) w = and_then (check_for_interruption w) (λ w'.
    and_then (instruction_step dm server (label item instr) w')
      (λ w''. run_to_start dm server item instrs w''))

-- The result of an abort is one, whatever the way back did, unless that fails in another way.
abbrev pub abort_anyway : Result → Result
abort_anyway (continues w) = scan_abortion w
abort_anyway r = r

-- The handler of a ScanAbortion in `_process_instructions`: the item, which it may stop, and the way
-- back to the start.
unfoldable pub on_abortion : DeviceManager → Server → Item → ScanWorker → Item × Result
unfolding run_to_start
on_abortion dm server item w =
    let w' = record w { groups = [] } in
    if item.stopped || not (item.return_to_start && item.has_active_block)
    then (item, scan_abortion w')
    else (
      record item { stopped = true },
      abort_anyway (
          run_to_start dm server item item.to_start
            (record w' { status = InstructionQueueStatus.running })),
    )

-- What follows the try statement of `_process_instructions`.
unfoldable pub finish : DeviceManager → Server → Item → Result → Item × Result
unfolding reset on_abortion
finish dm server item (continues w) =
    let (item', w') =
      set_status InstructionQueueStatus.completed (record item { is_active = false }) w in
    (item', continues (reset w'))
finish dm server item (scan_abortion w) = on_abortion dm server item w
finish dm server item (blocks w) = (item, blocks w)
finish dm server item (raises e w) = (item, raises e w)

unfoldable pub process_instructions : DeviceManager → Server → Item → ScanWorker → Item × Result
unfolding run_instructions finish activate
process_instructions dm server item w =
    let (item', w') = activate (record item { is_active = true }) (record w { max_point_id = 0 }) in
    finish dm server item' (run_instructions dm server item'.instructions w')

-- What run calls besides: an item goes to the history of its queue, the queue is aborted, an alarm is
-- raised, and the thread ends.
pub data Call : Type 0 where
  append_to_queue_history increase_scan_number abort raise_alarm shutdown : Call

-- The handler of a ScanAbortion in run: it increases the scan number, reports the scan, stops the
-- item, unstages the devices and aborts the queue. Without an active request block there is no scan
-- number to increase, an AttributeError.
unfoldable pub end_aborted : DeviceManager → Item → ScanWorker → Item × ScanWorker × List Call
unfolding send_scan_status cleanup reset
end_aborted dm item w =
    if item.has_active_block
    then (let (item', w') =
          set_status InstructionQueueStatus.stopped item
            (send_scan_status (if item.return_to_start then "aborted" else "halted") w) in
        (item', reset (cleanup dm w'), increase_scan_number ∷ append_to_queue_history ∷ abort ∷ []))
    else (item, reset w, raise_alarm ∷ abort ∷ shutdown ∷ [])

-- The body of run's loop for one item, none when it does not come to its end. An exception other than
-- a ScanAbortion ends the worker.
unfoldable pub after_item : DeviceManager → Item → Result → Option (Item × ScanWorker × List Call)
unfolding end_aborted reset
after_item dm item (continues w) =
    some (item, w, if item.stopped then [] else append_to_queue_history ∷ [])
after_item dm item (scan_abortion w) = some (end_aborted dm item w)
after_item dm item (blocks w) = none
after_item dm item (raises e w) = some (item, reset w, raise_alarm ∷ abort ∷ shutdown ∷ [])

unfoldable pub run_item :
    DeviceManager → Server → Item → ScanWorker → Option (Item × ScanWorker × List Call)
unfolding process_instructions after_item
run_item dm server item w =
    let (item', result) = process_instructions dm server item w in after_item dm item' result
