-- ===== src/ScanServer/Queue/Item.antt =====
-- InstructionQueueItem of scan_server/scan_server/scan_queue.py. What an item shares with its scan
-- queue, the worker's status and the publishing of the queue, is passed along as `Shared`.
pub mod Endings
use bec.Prelude.{
  ℕ, ◌+◌, String, Option, none, some, Bool, true, false, List, [], ◌∷◌, ◌++◌, is_some,
  if◌then◌else◌, not, string_eq, ◌&&◌,
}
use bec.Prelude.Dict.{erase}
use bec.ScanServer.Messages.{
  ScanQueueMessage, Scan, DeviceInstructionMessage, Action, close_scan_group, close_scan_def,
  Server,
}
use bec.ScanServer.Queue.Status.{InstructionQueueStatus, is_pending}
use bec.ScanServer.Queue.Block
use bec.ScanServer.Queue.Block.{
  RequestBlock, RequestBlockQueue, empty_block_queue, scan_ids, is_scans, active, Next, item,
  stop_iteration, scan_abortion, error, Outcome,
}

-- The status of the scan worker, and how often the queue has been published.
pub record Shared : Type 0 where
  pub worker : InstructionQueueStatus
  pub published : ℕ

abbrev pub publish : Shared → Shared
publish sh = record sh { published = sh.published + 1 }

-- `instructions` is what `abort` empties; `__next__` reads `queue`.
pub record InstructionQueueItem : Type 0 where
  pub instructions : List DeviceInstructionMessage
  pub queue : RequestBlockQueue
  pub is_active : Bool
  pub completed : Bool
  pub deferred_pause : Bool
  pub queue_group : Option String
  pub queue_group_is_closed : Bool
  pub queue_id : String
  pub scan_msgs : List ScanQueueMessage
  pub stopped : Bool
  pub status : InstructionQueueStatus
  pub forced_return_to_start : Option Bool

-- `uuid` is what uuid4 returns.
unfoldable pub instruction_queue_item : String → InstructionQueueItem
unfolding empty_block_queue
instruction_queue_item uuid = record {
  instructions = [];
  queue = empty_block_queue;
  is_active = false;
  completed = false;
  deferred_pause = true;
  queue_group = none;
  queue_group_is_closed = false;
  queue_id = uuid;
  scan_msgs = [];
  stopped = false;
  status = InstructionQueueStatus.pending;
  forced_return_to_start = none;
}

-- The setter of `status`.
unfoldable pub set_status :
    InstructionQueueStatus → InstructionQueueItem × Shared → InstructionQueueItem × Shared
set_status v (it, sh) =
    (record it { status = v }, record sh { worker = v; published = sh.published + 1 })

unfoldable pub set_active : InstructionQueueItem × Shared → InstructionQueueItem × Shared
unfolding set_status
set_active (it, sh) =
    if is_pending it.status then set_status InstructionQueueStatus.running (it, sh) else (it, sh)

unfoldable pub abort : InstructionQueueItem → InstructionQueueItem
abort it = record it { instructions = [] }

-- `append_scan_request`; none where the assembler raises, and then the message is kept all the same.
unfoldable pub append_scan_request :
    Option Scan → ScanQueueMessage → String → InstructionQueueItem → InstructionQueueItem
unfolding Block.append
append_scan_request none msg uuid it = record it { scan_msgs = it.scan_msgs ++ msg ∷ [] }
append_scan_request (some scan) msg uuid it = record it {
  scan_msgs = it.scan_msgs ++ msg ∷ [];
  queue = Block.append scan msg uuid it.queue;
}

unfoldable pub return_to_start : InstructionQueueItem → Bool
return_to_start it = elim it.forced_return_to_start [
  | some b ↦ b
  | none ↦ elim (active it.queue) [ some rb ↦ rb.scan.return_to_start_after_abort | none ↦ false ]
]

abbrev pub scan_macros_complete : InstructionQueueItem → Bool
scan_macros_complete it = elim it.queue.scan_def_ids [ [] ↦ true | _ ∷ _ ↦ false ]

-- What a call on an item leaves behind.
pub record Taken : Type 0 where
  pub result : Next (Option DeviceInstructionMessage)
  pub item : InstructionQueueItem
  pub shared : Shared
  pub server : Server

-- The handler of StopIteration in `_get_next`, with `_set_finished`.
unfoldable pub on_stop_iteration : Bool → InstructionQueueItem → Shared → Server → Taken
on_stop_iteration raise_stopiteration it sh s =
    if not (scan_macros_complete it)
    then record { result = Next.item none; item = it; shared = sh; server = s }
    else if is_some it.queue_group && not it.queue_group_is_closed
    then record {
      result = Next.item none;
      item = record it { queue = record (it.queue) { active_rb = none } };
      shared = publish sh;
      server = s;
    }
    else record {
      result = if raise_stopiteration then stop_iteration else Next.item none;
      item = record it { completed = true };
      shared = sh;
      server = s;
    }

abbrev pub is_close_scan_group : Action → Bool
is_close_scan_group close_scan_group = true
is_close_scan_group _ = false

abbrev pub is_close_scan_def : Action → Bool
is_close_scan_def close_scan_def = true
is_close_scan_def _ = false

-- Closing a scan definition forgets it.
unfoldable pub close_def : DeviceInstructionMessage → InstructionQueueItem → InstructionQueueItem
close_def instr it =
    if is_close_scan_def instr.action
    then elim instr.metadata.scan_def_id [
      | none ↦ it
      | some d ↦ record it {
        queue = record (it.queue) { scan_def_ids = erase d it.queue.scan_def_ids };
      }
    ]
    else it

-- The ids that an instruction is sent with.
unfoldable pub tag : InstructionQueueItem → DeviceInstructionMessage → DeviceInstructionMessage
tag it instr = record instr {
  metadata = record (instr.metadata) {
    scan_id = elim (active it.queue) [ none ↦ none | some rb ↦ rb.scan_id ];
    queue_id = some it.queue_id;
  };
}

-- `_get_next` on an instruction.
unfoldable pub take_instruction :
    Bool → DeviceInstructionMessage → InstructionQueueItem → Shared → Server → Taken
unfolding on_stop_iteration close_def tag set_active
take_instruction raise_stopiteration instr it sh s =
    if is_close_scan_group instr.action
    then on_stop_iteration raise_stopiteration (record it { queue_group_is_closed = true }) sh s
    else record {
      result = Next.item (some (tag (close_def instr it) instr));
      item = (set_active (close_def instr it, sh)).0;
      shared = (set_active (close_def instr it, sh)).1;
      server = s;
    }

-- `_get_next` on what `next(self.queue)` gives.
unfoldable pub take_result :
    Bool → Next (Option DeviceInstructionMessage) → InstructionQueueItem → Shared → Server → Taken
unfolding take_instruction
take_result b (item none) it sh s = record {
  result = Next.item none;
  item = it;
  shared = sh;
  server = s;
}
take_result b (item (some instr)) it sh s = take_instruction b instr it sh s
take_result b stop_iteration it sh s = on_stop_iteration b it sh s
take_result b scan_abortion it sh s = record {
  result = scan_abortion;
  item = it;
  shared = sh;
  server = s;
}
take_result b (error e) it sh s = record { result = error e; item = it; shared = sh; server = s }

unfoldable pub get_next : Bool → (RequestBlock → ℕ) → InstructionQueueItem → Shared → Server → Taken
unfolding take_result Block.next
get_next raise_stopiteration head it sh s =
    let o = Block.next head s it.queue in
    take_result raise_stopiteration o.result (record it { queue = o.queue }) sh o.server

abbrev pub is_paused : InstructionQueueStatus → Bool
is_paused InstructionQueueStatus.paused = true
is_paused _ = false

-- `__next__`
unfoldable pub next : (RequestBlock → ℕ) → InstructionQueueItem → Shared → Server → Taken
unfolding get_next
next head it sh s = get_next (not (is_paused it.status)) head it sh s

-- `describe`, as far as it tells one item from another.
pub record Description : Type 0 where
  pub queue_id : String
  pub scan_id : List (Option String)
  pub is_scan : List Bool
  pub status : InstructionQueueStatus
  pub active_request_block : Option (Option String)

abbrev pub describe : InstructionQueueItem → Description
describe it = record {
  queue_id = it.queue_id;
  scan_id = scan_ids it.queue;
  is_scan = is_scans it.queue;
  status = it.status;
  active_request_block = elim (active it.queue) [ none ↦ none | some rb ↦ some rb.scan_id ];
}
