-- ===== src/ScanServer/Worker/Scans.antt =====
-- How ScanWorker opens and closes scans, and its dispatch on an instruction's action
-- (scan_server/scan_server/scan_worker.py).
pub mod Brackets
use bec.Prelude.{
  ℕ, suc, ◌+◌, String, Option, none, some, Bool, true, false, ◌&&◌, ◌||◌, not, List, [], ◌∷◌, ◌++◌,
  ◌==◌, string_eq, option_eq, nat_eq, if◌then◌else◌, contains, every, truthy, is_some,
}
use bec.ScanServer.Messages.{
  DeviceInstructionMessage, Action, Parameter, InstructionMetadata, Server,
}
use bec.ScanServer.Worker.State.{
  OpenInfo, ScanInfo, Report, table_wait, instruction, Sent, queue_status, ScanWorker, Exception,
  key_error, Result, continues, raises, and_then, send, send_scan_status, check_for_interruption,
}
use bec.ScanServer.Worker.Waiting.{DeviceManager, add_wait_group, wait_for_devices}
use bec.ScanServer.Worker.Devices.{
  forward, trigger_devices, pre_scan, read_devices, publish_data_as_read, kickoff_devices,
  complete_devices, baseline_reading, stage_devices, unstage_devices,
}

abbrev pub with_motors : Option (List String) → Parameter → ScanWorker → ScanWorker
with_motors none p w = w
with_motors (some ms) p w = record w { scan_motors = ms; readout_priority = p.readout_priority }

abbrev pub are_known : DeviceManager → Option (List String) → Bool
are_known dm none = true
are_known dm (some ms) = every (λ d. contains d dm.devices) ms

-- The first part of `_open_scan`, which a scan id that is set skips. An unknown motor is a KeyError,
-- which the scan id already set survives.
unfoldable pub enter_scan : DeviceManager → DeviceInstructionMessage → ScanWorker → Result
enter_scan dm instr w =
    if truthy w.scan_id
    then continues w
    else let w' = record w { scan_id = instr.metadata.scan_id } in
      if are_known dm instr.parameter.scan_motors
      then continues (record (with_motors instr.parameter.scan_motors instr.parameter w') {
        scan_type = instr.parameter.scan_type;
      })
      else raises key_error w'

-- The number of points of a scan that starts after point `max_point_id`.
abbrev pub count_points : ℕ → ℕ → ℕ
count_points max n = if max == 0 then n else suc (max + n)

-- `_initialize_scan_info`
unfoldable pub initialize_scan_info :
    Server → DeviceInstructionMessage → ℕ → ScanWorker → ScanWorker
initialize_scan_info server instr num_points w = record w {
  current_scan_info = record {
    opened = some (record {
      metadata = instr.metadata;
      parameter = instr.parameter;
      scan_number = server.scan_number;
      dataset_number = server.dataset_number;
    });
    num_points = some num_points;
  };
}

-- Does the last of the report instructions say that the scan reports its progress?
abbrev pub shows_progress : List Report → Bool
shows_progress [] = false
shows_progress (table_wait n ∷ []) = false
shows_progress (instruction p ∷ []) = p.scan_progress
shows_progress (r ∷ s ∷ rs) = shows_progress (s ∷ rs)

abbrev pub add_table_wait : ℕ → ScanWorker → ScanWorker
add_table_wait n w =
    if shows_progress w.reports then w else record w { reports = w.reports ++ table_wait n ∷ [] }

-- The rest of `_open_scan`.
unfoldable pub announce_scan : Server → DeviceInstructionMessage → ScanWorker → ScanWorker
unfolding initialize_scan_info send_scan_status
announce_scan server instr w =
    let w' = if truthy instr.metadata.scan_def_id then w else record w { max_point_id = 0 } in
    let num_points = count_points w'.max_point_id instr.parameter.num_points in
    send_scan_status "open" (
      send queue_status
        (add_table_wait num_points (initialize_scan_info server instr num_points w')))

unfoldable pub open_scan : DeviceManager → Server → DeviceInstructionMessage → ScanWorker → Result
unfolding enter_scan announce_scan
open_scan dm server instr w =
    and_then (enter_scan dm instr w) (λ w'. continues (announce_scan server instr w'))

abbrev pub process_scan_report_instruction : DeviceInstructionMessage → ScanWorker → ScanWorker
process_scan_report_instruction instr w =
    send queue_status (record w { reports = w.reports ++ instruction instr.parameter ∷ [] })

-- The scan type in current_scan_info.
abbrev pub info_type : Option OpenInfo → Option String
info_type none = none
info_type (some i) = i.parameter.scan_type

abbrev pub set_num_points : ℕ → ScanWorker → ScanWorker
set_num_points n w = record w {
  current_scan_info = record (w.current_scan_info) { num_points = some n };
}

-- `_close_scan`
unfoldable pub close_scan : DeviceInstructionMessage → ℕ → ScanWorker → ScanWorker
unfolding send_scan_status
close_scan instr max w =
    if w.scan_id == instr.metadata.scan_id
    then send_scan_status "closed" (
        set_num_points
          (if info_type w.current_scan_info.opened == some "fly" then w.num_pos else suc max)
          (record w { scan_id = none }))
    else w

-- The elif chain of `_instruction_step`. An action that it does not know is only logged.
unfoldable pub dispatch :
    DeviceManager → Server → Action → DeviceInstructionMessage → ScanWorker → Result
unfolding open_scan close_scan wait_for_devices trigger_devices forward read_devices kickoff_devices
    complete_devices baseline_reading stage_devices unstage_devices pre_scan publish_data_as_read
dispatch dm server Action.open_scan instr w = open_scan dm server instr w
dispatch dm server Action.close_scan instr w =
    if is_some instr.metadata.scan_def_id
    then continues w
    else continues (close_scan instr w.max_point_id w)
dispatch dm server Action.open_scan_def instr w = continues w
dispatch dm server Action.close_scan_def instr w = continues (close_scan instr w.max_point_id w)
dispatch dm server Action.close_scan_group instr w = continues w
dispatch dm server Action.wait instr w = wait_for_devices dm instr w
dispatch dm server Action.trigger instr w = continues (trigger_devices dm instr w)
dispatch dm server Action.set instr w = continues (forward instr w)
dispatch dm server Action.read instr w = read_devices dm instr w
dispatch dm server Action.kickoff instr w = continues (kickoff_devices instr w)
dispatch dm server Action.complete instr w = continues (complete_devices instr w)
dispatch dm server Action.baseline_reading instr w = continues (baseline_reading dm instr w)
dispatch dm server Action.rpc instr w = continues (forward instr w)
dispatch dm server Action.stage instr w = stage_devices dm instr w
dispatch dm server Action.unstage instr w = unstage_devices dm instr w
dispatch dm server Action.pre_scan instr w = pre_scan dm instr w
dispatch dm server Action.publish_data_as_read instr w = continues (publish_data_as_read instr w)
dispatch dm server Action.scan_report_instruction instr w =
    continues (process_scan_report_instruction instr w)
dispatch dm server (Action.other a) instr w = continues w

-- The beginning of `_instruction_step`: the current scan and the last point.
abbrev pub set_point : Option ℕ → ScanWorker → ScanWorker
set_point none w = w
set_point (some p) w = record w { max_point_id = p }

unfoldable pub note_instruction : DeviceInstructionMessage → ScanWorker → ScanWorker
note_instruction instr w =
    set_point instr.metadata.point_id (record w { current_scan_id = instr.metadata.scan_id })

unfoldable pub instruction_step :
    DeviceManager → Server → DeviceInstructionMessage → ScanWorker → Result
unfolding note_instruction add_wait_group check_for_interruption dispatch
instruction_step dm server instr w =
    and_then (add_wait_group dm instr (note_instruction instr w)) (λ w'.
      and_then (check_for_interruption w') (λ w''. dispatch dm server instr.action instr w''))
