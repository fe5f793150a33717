-- ===== src/ScanServer/Queue/Item/Endings.antt =====
-- What a queue item hands to the worker, and when it ends
-- (InstructionQueueItem of scan_server/scan_server/scan_queue.py).
use bec.Prelude.{ℕ, ◌≡◌, refl, ◌≢◌, Option, none, some, Bool, true, false, arith, not, is_some}
use bec.ScanServer.Messages.{DeviceInstructionMessage, Server}
use bec.ScanServer.Queue.Status.{is_pending}
use bec.ScanServer.Queue.Block
use bec.ScanServer.Queue.Block.{
  RequestBlock, RequestBlockQueue, active, Next, item, stop_iteration, scan_abortion, error,
}
use bec.ScanServer.Queue.Item.{
  InstructionQueueItem, Shared, Taken, abort, next, take_result, take_instruction,
  on_stop_iteration, scan_macros_complete, is_paused, set_active, tag,
}

-- The item is over: no scan definition is open, and no scan group either.
pub record IsOver (it : InstructionQueueItem) : Type 0 where
  pub complete : scan_macros_complete it ≡ true
  pub closed : is_some it.queue_group ≡ true → it.queue_group_is_closed ≡ true
  pub marked : it.completed ≡ true

on_stop_iteration-IsOver :
    (b : Bool) (it : InstructionQueueItem) (sh : Shared) (s : Server)
    → (on_stop_iteration b it sh s).result ≡ stop_iteration
    → (b ≡ true) × IsOver (on_stop_iteration b it sh s).item
unfolding on_stop_iteration
on_stop_iteration-IsOver b it sh s h = ground arith

take_instruction-IsOver :
    (b : Bool) (instr : DeviceInstructionMessage) (it : InstructionQueueItem) (sh : Shared)
    (s : Server)
    → (take_instruction b instr it sh s).result ≡ stop_iteration
    → (b ≡ true) × IsOver (take_instruction b instr it sh s).item
unfolding take_instruction on_stop_iteration
take_instruction-IsOver b instr it sh s h = ground arith

take_result-IsOver :
    (b : Bool) (r : Next (Option DeviceInstructionMessage)) (it : InstructionQueueItem)
    (sh : Shared) (s : Server)
    → (take_result b r it sh s).result ≡ stop_iteration
    → (b ≡ true) × IsOver (take_result b r it sh s).item
unfolding take_result
take_result-IsOver b (item none) it sh s h = cc
take_result-IsOver b (item (some instr)) it sh s h = take_instruction-IsOver b instr it sh s h
take_result-IsOver b stop_iteration it sh s h = on_stop_iteration-IsOver b it sh s h
take_result-IsOver b scan_abortion it sh s h = cc
take_result-IsOver b (error e) it sh s h = cc

-- The iteration over an item stops only if the item is not paused, no scan definition of it is
-- open, and its scan group, if it has one, has been closed; the item is then marked as completed.
pub next-IsOver :
    (head : RequestBlock → ℕ) (it : InstructionQueueItem) (sh : Shared) (s : Server)
    → (next head it sh s).result ≡ stop_iteration
    → (is_paused it.status ≡ false) × IsOver (next head it sh s).item
unfolding next
next-IsOver head it sh s h =
    let o = Block.next head s it.queue in
    let (raises_it, over) =
      take_result-IsOver (not (is_paused it.status)) o.result (record it { queue = o.queue }) sh
        o.server h in
    (ground arith, over)

-- The instruction is sent under the ids of its item and of the block that runs, and the item is
-- not pending any more.
pub record IsTagged (instr : DeviceInstructionMessage) (it : InstructionQueueItem) : Type 0 where
  pub queue : instr.metadata.queue_id ≡ some it.queue_id
  pub scan :
      instr.metadata.scan_id ≡ (elim (active it.queue) [ none ↦ none | some rb ↦ rb.scan_id ])
  pub woken : is_pending it.status ≡ false

take_instruction-IsTagged :
    (b : Bool) (i : DeviceInstructionMessage) (it : InstructionQueueItem) (sh : Shared) (s : Server)
    (instr : DeviceInstructionMessage)
    → (take_instruction b i it sh s).result ≡ item (some instr)
    → IsTagged instr (take_instruction b i it sh s).item
unfolding take_instruction on_stop_iteration tag set_active
take_instruction-IsTagged b i it sh s instr h = ground arith

on_stop_iteration-ne :
    (b : Bool) (it : InstructionQueueItem) (sh : Shared) (s : Server)
    (instr : DeviceInstructionMessage)
    → (on_stop_iteration b it sh s).result ≢ item (some instr)
unfolding on_stop_iteration
on_stop_iteration-ne b it sh s instr h = ground arith

take_result-IsTagged :
    (b : Bool) (r : Next (Option DeviceInstructionMessage)) (it : InstructionQueueItem)
    (sh : Shared) (s : Server) (instr : DeviceInstructionMessage)
    → (take_result b r it sh s).result ≡ item (some instr)
    → IsTagged instr (take_result b r it sh s).item
unfolding take_result
take_result-IsTagged b (item none) it sh s instr h = cc
take_result-IsTagged b (item (some i)) it sh s instr h =
    take_instruction-IsTagged b i it sh s instr h
take_result-IsTagged b stop_iteration it sh s instr h =
    absurd (on_stop_iteration-ne b it sh s instr h)
take_result-IsTagged b scan_abortion it sh s instr h = cc
take_result-IsTagged b (error e) it sh s instr h = cc

-- Every instruction that an item hands out carries the item's queue id and the scan id of the block
-- that runs, and by then the item is not pending any more.
pub next-IsTagged :
    (head : RequestBlock → ℕ) (it : InstructionQueueItem) (sh : Shared) (s : Server)
    (instr : DeviceInstructionMessage)
    → (next head it sh s).result ≡ item (some instr)
    → IsTagged instr (next head it sh s).item
unfolding next
next-IsTagged head it sh s instr h =
    let o = Block.next head s it.queue in
    take_result-IsTagged (not (is_paused it.status)) o.result (record it { queue = o.queue }) sh
      o.server instr h

abbrev aborted : Taken → Taken
aborted t = record { result = t.result; item = abort t.item; shared = t.shared; server = t.server }

take_instruction-abort :
    (b : Bool) (i : DeviceInstructionMessage) (it : InstructionQueueItem) (sh : Shared) (s : Server)
    → take_instruction b i (abort it) sh s ≡ aborted (take_instruction b i it sh s)
unfolding take_instruction on_stop_iteration abort
take_instruction-abort b i it sh s = ground arith

on_stop_iteration-abort :
    (b : Bool) (it : InstructionQueueItem) (sh : Shared) (s : Server)
    → on_stop_iteration b (abort it) sh s ≡ aborted (on_stop_iteration b it sh s)
unfolding on_stop_iteration abort
on_stop_iteration-abort b it sh s = ground arith

take_result-abort :
    (b : Bool) (r : Next (Option DeviceInstructionMessage)) (it : InstructionQueueItem)
    (sh : Shared) (s : Server)
    → take_result b r (abort it) sh s ≡ aborted (take_result b r it sh s)
unfolding take_result
take_result-abort b (item none) it sh s = refl
take_result-abort b (item (some i)) it sh s = take_instruction-abort b i it sh s
take_result-abort b stop_iteration it sh s = on_stop_iteration-abort b it sh s
take_result-abort b scan_abortion it sh s = refl
take_result-abort b (error e) it sh s = refl

-- Aborting an item empties a list that its iteration does not read: the next call gives what it
-- would have given, and changes what it would have changed.
next-abort :
    (head : RequestBlock → ℕ) (it : InstructionQueueItem) (sh : Shared) (s : Server)
    → let t = next head it sh s in
      next head (abort it) sh s
      ≡ record { result = t.result; item = abort t.item; shared = t.shared; server = t.server }
unfolding next abort
next-abort head it sh s =
    let o = Block.next head s it.queue in
    take_result-abort (not (is_paused it.status)) o.result (record it { queue = o.queue }) sh
      o.server
