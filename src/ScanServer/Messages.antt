-- ===== src/ScanServer/Messages.antt =====
-- The messages that the scan server handles (bec_lib/bec_lib/core/BECMessage.py) and the scan
-- objects behind them, as far as scan_queue.py and scan_worker.py read them. A metadata key with
-- the value None is an absent key.
use bec.Prelude.{ℕ, ◌+◌, String, Option, none, some, Bool, List}
use bec.Prelude.Dict.{Dict}

pub record ScanMetadata : Type 0 where
  pub rid : String
  pub queue_group : Option String
  pub scan_def_id : Option String
  pub dataset_id_on_hold : Bool

pub record ScanQueueMessage : Type 0 where
  pub scan_type : String
  pub queue : Option String
  pub metadata : ScanMetadata

-- The actions that the worker and the queue item tell apart.
pub data Action : Type 0 where
  open_scan close_scan open_scan_def close_scan_def close_scan_group wait trigger set read kickoff
        complete baseline_reading rpc stage unstage pre_scan publish_data_as_read
        scan_report_instruction :
      Action
  other : String → Action

pub record Parameter : Type 0 where
  pub group : Option String
  pub wait_group : Option String
  pub wait_type : Option String
  pub num_points : ℕ
  pub scan_motors : Option (List String)
  pub readout_priority : Dict String (List String)
  pub scan_type : Option String
  pub scan_progress : Bool
  -- The values of publish_data_as_read, by their identity.
  pub values : List ℕ

pub record InstructionMetadata : Type 0 where
  pub diid : Option ℕ
  pub rid : Option String
  pub point_id : Option ℕ
  pub scan_def_id : Option String
  pub scan_id : Option String
  pub queue_id : Option String
  pub cached : Bool

-- `device` is empty where the message names none.
pub record DeviceInstructionMessage : Type 0 where
  pub action : Action
  pub device : List String
  pub parameter : Parameter
  pub metadata : InstructionMetadata

pub data Exception : Type 0 where
  limit_error : String → Exception
  other_error : String → Exception

-- What is left of a generator of instructions. Each part says by how much the scan's point counter
-- grows before it; an instruction may depend on the counter.
pub data Generator : Type 0 where
  returns : ℕ → Generator
  yields : ℕ → (Option ℕ → Option DeviceInstructionMessage) → Generator → Generator
  raises : Exception → Generator

-- A scan object, with `is_scan_base` for isinstance(scan, ScanBase); `point_id` is none where the
-- class has no such attribute.
pub record Scan : Type 0 where
  pub is_scan_base : Bool
  pub caller_args : Bool
  pub scan_motors : List String
  pub readout_priority : Dict String (List String)
  pub point_id : Option ℕ
  pub return_to_start_after_abort : Bool
  pub run : Generator

-- The counter after a growth by n.
abbrev pub advance : ℕ → Option ℕ → Option ℕ
advance n none = none
advance n (some p) = some (p + n)

pub data AlarmSource : Type 0 where
  scan_request : ScanQueueMessage → AlarmSource
  scan_worker : AlarmSource

pub record Alarm : Type 0 where
  pub source : AlarmSource
  pub alarm_type : String

-- The fields of the ScanServer object that the queues change, and the alarms that it has raised.
pub record Server : Type 0 where
  pub scan_number : ℕ
  pub dataset_number : ℕ
  pub alarms : List Alarm
