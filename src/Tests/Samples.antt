-- ===== src/Tests/Samples.antt =====
-- Messages, scans and queues for the runs of scan_server/scan_server/scan_queue.py.
use bec.Prelude.{
  ℕ, String, Option, none, some, true, false, [], ◌∷◌, ◌==◌, string_eq, if◌then◌else◌,
}
use bec.ScanServer.Messages.{
  ScanQueueMessage, Scan, Generator, returns, yields, DeviceInstructionMessage, Action, Parameter,
  InstructionMetadata, Server,
}
use bec.ScanServer.Queue.Status.{ScanQueueStatus}
use bec.ScanServer.Queue.Line.{ScanQueue, scan_queue, insert, last}
use bec.ScanServer.Queue.Manager.{QueueManager}

abbrev pub message : String → Option String → Option String → ScanQueueMessage
message scan_type group def = record {
  scan_type = scan_type;
  queue = none;
  metadata = record {
    rid = "rid";
    queue_group = group;
    scan_def_id = def;
    dataset_id_on_hold = false;
  };
}

abbrev pub plain : ScanQueueMessage
plain = message "line_scan" none none

abbrev pub no_parameter : Parameter
no_parameter = record {
  group = none;
  wait_group = none;
  wait_type = none;
  num_points = 0;
  scan_motors = none;
  readout_priority = [];
  scan_type = none;
  scan_progress = false;
  values = [];
}

abbrev pub no_metadata : InstructionMetadata
no_metadata = record {
  diid = none;
  rid = none;
  point_id = none;
  scan_def_id = none;
  scan_id = none;
  queue_id = none;
  cached = false;
}

abbrev pub instruction : Action → Option ℕ → DeviceInstructionMessage
instruction a p = record {
  action = a;
  device = [];
  parameter = no_parameter;
  metadata = record no_metadata { point_id = p };
}

-- Opens, reads two points and closes.
abbrev pub two_points : Generator
two_points =
    yields 0 (λ _. some (instruction Action.open_scan none))
      (yields 0 (λ p. some (instruction Action.read p))
        (yields 1 (λ p. some (instruction Action.read p)) (returns 1)))

abbrev pub line_scan : Scan
line_scan = record {
  is_scan_base = true;
  caller_args = true;
  scan_motors = "samx" ∷ [];
  readout_priority = [];
  point_id = some 0;
  return_to_start_after_abort = true;
  run = two_points;
}

-- An assembler that knows one scan type. The lookup of another is a KeyError.
abbrev pub assembler : ScanQueueMessage → Option Scan
assembler msg = if msg.scan_type == "line_scan" then some line_scan else none

abbrev pub raised : ScanQueueMessage → String
raised msg = "KeyError"

abbrev pub server : Server
server = record { scan_number = 7; dataset_number = 3; alarms = [] }

abbrev pub one_queued : ScanQueue
unfolding scan_queue insert
one_queued = insert assembler plain last "queue-a" "scan-a" scan_queue

abbrev pub two_queued : ScanQueue
unfolding one_queued
two_queued = insert assembler plain last "queue-b" "scan-b" one_queued

abbrev pub manager : QueueManager
manager = record { queues = ("primary", two_queued) ∷ ("other", scan_queue) ∷ []; server = server }

-- The only item is active, and the queue is paused.
abbrev pub last_active : ScanQueue
unfolding one_queued
last_active = record one_queued {
  active_instruction_queue = some 0;
  status = ScanQueueStatus.paused;
}
