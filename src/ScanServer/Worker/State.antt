-- ===== src/ScanServer/Worker/State.antt =====
-- The state of ScanWorker (scan_server/scan_server/scan_worker.py), its results, and how it is
-- interrupted. What other threads and services do to it is its schedule: the values that its status
-- has at the reads to come, and the device statuses that its polls will find.
pub mod Interruption
use bec.Prelude.{ℕ, String, Option, none, some, Bool, true, false, List, [], ◌∷◌, if◌then◌else◌}
use bec.Prelude.Dict.{Dict}
use bec.ScanServer.Messages.{DeviceInstructionMessage, Parameter, InstructionMetadata}
use bec.ScanServer.Queue.Status.{InstructionQueueStatus}

-- What a service reports of a device: a request status has `success`, a device status `status`.
pub record DeviceReply : Type 0 where
  pub success : Bool
  pub status : ℕ
  pub scan_id : Option String
  pub rid : Option String
  pub diid : Option ℕ

-- What one poll finds, by the name of the device.
abbrev pub Poll : Type 0
Poll = String → Option DeviceReply

-- The parts of current_scan_info that the worker computes with; it is empty until a scan is opened.
pub record OpenInfo : Type 0 where
  pub metadata : InstructionMetadata
  pub parameter : Parameter
  pub scan_number : ℕ
  pub dataset_number : ℕ

pub record ScanInfo : Type 0 where
  pub opened : Option OpenInfo
  pub num_points : Option ℕ

pub data Report : Type 0 where
  table_wait : ℕ → Report
  instruction : Parameter → Report

pub data Sent : Type 0 where
  device_instruction : DeviceInstructionMessage → Sent
  device_read : String → InstructionMetadata → Sent
  scan_status : Option String → String → ScanInfo → Sent
  queue_status : Sent
  movement_failed : String → DeviceInstructionMessage → Sent

-- `num_pos` and `reports` are the scan's num_pos and the report instructions of the active request
-- block; `sent` has the newest message first.
pub record ScanWorker : Type 0 where
  pub status : InstructionQueueStatus
  pub scan_id : Option String
  pub scan_motors : List String
  pub readout_priority : Dict String (List String)
  pub scan_type : Option String
  pub current_scan_id : Option String
  pub current_scan_info : ScanInfo
  pub staged_devices : List String
  pub max_point_id : ℕ
  pub last_trigger : Option InstructionMetadata
  pub groups : Dict String (Dict String ℕ)
  pub num_pos : ℕ
  pub reports : List Report
  pub statuses : List InstructionQueueStatus
  pub polls : List Poll
  pub sent : List Sent

-- A run blocks when the schedule has no further poll or change of status for it.
pub data Exception : Type 0 where
  device_message_error key_error type_error attribute_error : Exception

pub data Result : Type 0 where
  continues scan_abortion blocks : ScanWorker → Result
  raises : Exception → ScanWorker → Result

abbrev pub and_then : Result → (ScanWorker → Result) → Result
and_then (continues w) f = f w
and_then (scan_abortion w) f = scan_abortion w
and_then (blocks w) f = blocks w
and_then (raises e w) f = raises e w

abbrev pub send : Sent → ScanWorker → ScanWorker
send m w = record w { sent = m ∷ w.sent }

-- `_send_scan_status`
unfoldable pub send_scan_status : String → ScanWorker → ScanWorker
send_scan_status status w = send (scan_status w.current_scan_id status w.current_scan_info) w

-- A read of the worker's status.
abbrev pub next_status : List InstructionQueueStatus → ScanWorker → ScanWorker
next_status [] w = w
next_status (s ∷ ss) w = record w { status = s; statuses = ss }

abbrev pub read_status : ScanWorker → ScanWorker
read_status w = next_status w.statuses w

abbrev pub is_paused : InstructionQueueStatus → Bool
is_paused InstructionQueueStatus.paused = true
is_paused _ = false

abbrev pub is_stopped : InstructionQueueStatus → Bool
is_stopped InstructionQueueStatus.stopped = true
is_stopped _ = false

-- `while self.status == PAUSED`, over the statuses that it reads; none when it stays paused.
unfoldable pub wait_while_paused : List InstructionQueueStatus → ScanWorker → Option ScanWorker
wait_while_paused [] w = if is_paused w.status then none else some w
wait_while_paused (s ∷ ss) w =
    let rest = wait_while_paused ss (record w { status = s; statuses = ss }) in
    if is_paused s then rest else some (record w { status = s; statuses = ss })

abbrev pub stop_if_stopped : ScanWorker → Result
stop_if_stopped w = if is_stopped w.status then scan_abortion w else continues w

-- `_check_for_interruption`, which reads the status at each of its tests.
unfoldable pub check_for_interruption : ScanWorker → Result
unfolding send_scan_status wait_while_paused
check_for_interruption w =
    let w' = read_status w in
    let w'' = if is_paused w'.status then send_scan_status "paused" w' else w' in
    elim (wait_while_paused w''.statuses w'') [
      | none ↦ blocks w''
      | some v ↦ stop_if_stopped (read_status v)
    ]

-- reset
unfoldable pub reset : ScanWorker → ScanWorker
reset w = record w {
  groups = [];
  current_scan_id = some "";
  current_scan_info = record { opened = none; num_points = none };
  scan_id = none;
  scan_motors = [];
}

-- __init__
unfoldable pub scan_worker : ScanWorker
scan_worker = record {
  status = InstructionQueueStatus.idle;
  scan_id = none;
  scan_motors = [];
  readout_priority = [];
  scan_type = none;
  current_scan_id = some "";
  current_scan_info = record { opened = none; num_points = none };
  staged_devices = [];
  max_point_id = 0;
  last_trigger = none;
  groups = [];
  num_pos = 0;
  reports = [];
  statuses = [];
  polls = [];
  sent = [];
}
