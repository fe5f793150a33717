-- ===== src/ScanServer/Worker/Devices.antt =====
-- The instructions that ScanWorker hands to the devices (scan_server/scan_server/scan_worker.py).
use bec.Prelude.{
  ℕ, String, none, some, true, false, not, List, [], ◌∷◌, string_eq, if◌then◌else◌, contains, keep,
}
use bec.ScanServer.Messages.{DeviceInstructionMessage, Action, InstructionMetadata}
use bec.ScanServer.Worker.State.{
  device_instruction, device_read, ScanWorker, type_error, Result, continues, raises, send,
}
use bec.ScanServer.Worker.Waiting.{DeviceManager, is_empty, wait_for_stage, wait_for_pre_scan}

-- An instruction for other devices, with the parameter and the metadata of the one given.
abbrev pub for_devices : List String → Action → DeviceInstructionMessage → DeviceInstructionMessage
for_devices ds action instr = record {
  action = action;
  device = ds;
  parameter = instr.parameter;
  metadata = instr.metadata;
}

-- `_set_devices` and `_send_rpc`
unfoldable pub forward : DeviceInstructionMessage → ScanWorker → ScanWorker
forward instr w = send (device_instruction instr) w

unfoldable pub trigger_devices : DeviceManager → DeviceInstructionMessage → ScanWorker → ScanWorker
trigger_devices dm instr w =
    send (device_instruction (for_devices dm.detectors Action.trigger instr))
      (record w { last_trigger = some instr.metadata })

unfoldable pub pre_scan : DeviceManager → DeviceInstructionMessage → ScanWorker → Result
unfolding wait_for_pre_scan
pre_scan dm instr w =
    wait_for_pre_scan dm instr
      (send (device_instruction (for_devices dm.enabled_devices Action.pre_scan instr)) w)

-- A readback for each device.
unfoldable pub publish_all : List String → InstructionMetadata → ScanWorker → ScanWorker
publish_all [] m w = w
publish_all (d ∷ ds) m w = publish_all ds m (send (device_read d m) w)

-- `_publish_readback`: without devices there is nothing to iterate over.
unfoldable pub publish_readback : DeviceInstructionMessage → ScanWorker → Result
unfolding publish_all
publish_readback instr w =
    if is_empty instr.device
    then raises type_error w
    else continues (publish_all instr.device instr.metadata w)

unfoldable pub read_devices : DeviceManager → DeviceInstructionMessage → ScanWorker → Result
unfolding publish_readback
read_devices dm instr w =
    if instr.metadata.cached
    then publish_readback instr w
    else continues (
        send
          (device_instruction (
            for_devices
              (if is_empty instr.device
                then dm.monitored_devices w.readout_priority
                else instr.device)
              Action.read instr))
          w)

-- As many devices as there are values, as zip pairs them.
abbrev pub paired : List String → List ℕ → List String
paired [] vs = []
paired (d ∷ ds) [] = []
paired (d ∷ ds) (v ∷ vs) = d ∷ paired ds vs

unfoldable pub publish_data_as_read : DeviceInstructionMessage → ScanWorker → ScanWorker
unfolding publish_all
publish_data_as_read instr w =
    publish_all (paired instr.device instr.parameter.values) instr.metadata w

-- `_kickoff_devices` and `_complete_devices`
unfoldable pub kickoff_devices : DeviceInstructionMessage → ScanWorker → ScanWorker
kickoff_devices instr w =
    send (device_instruction (for_devices instr.device Action.kickoff instr)) w

unfoldable pub complete_devices : DeviceInstructionMessage → ScanWorker → ScanWorker
complete_devices instr w =
    send (device_instruction (for_devices instr.device Action.complete instr)) w

unfoldable pub baseline_reading : DeviceManager → DeviceInstructionMessage → ScanWorker → ScanWorker
baseline_reading dm instr w =
    send
      (device_instruction (for_devices (dm.baseline_devices w.readout_priority) Action.read instr))
      w

-- set.update and set.difference_update
unfoldable pub set_update : List String → List String → List String
set_update [] ds = ds
set_update (e ∷ es) ds = set_update es (if contains e ds then ds else e ∷ ds)

abbrev pub difference_update : List String → List String → List String
difference_update es ds = keep (λ d. not (contains d es)) ds

unfoldable pub stage_devices : DeviceManager → DeviceInstructionMessage → ScanWorker → Result
unfolding set_update wait_for_stage
stage_devices dm instr w = wait_for_stage true dm.enabled_devices instr (
    send (device_instruction (for_devices dm.enabled_devices Action.stage instr))
      (record w { staged_devices = set_update dm.enabled_devices w.staged_devices }))

-- The devices of `_unstage_devices`: all that are enabled where none is given.
abbrev pub or_enabled : DeviceManager → List String → List String
or_enabled dm ds = if is_empty ds then dm.enabled_devices else ds

-- `_unstage_devices` up to its wait.
unfoldable pub unstage : List String → DeviceInstructionMessage → ScanWorker → ScanWorker
unstage ds instr w =
    send (device_instruction (for_devices ds Action.unstage instr))
      (record w { staged_devices = difference_update ds w.staged_devices })

-- `_unstage_devices` on an instruction.
unfoldable pub unstage_devices : DeviceManager → DeviceInstructionMessage → ScanWorker → Result
unfolding unstage wait_for_stage
unstage_devices dm instr w =
    wait_for_stage false (or_enabled dm []) instr (unstage (or_enabled dm []) instr w)

-- The empty parameter and metadata of an unstage without an instruction.
abbrev pub no_instruction : DeviceInstructionMessage
no_instruction = record {
  action = Action.unstage;
  device = [];
  parameter = record {
    group = none;
    wait_group = none;
    wait_type = none;
    num_points = 0;
    scan_motors = none;
    readout_priority = [];
    scan_type = none;
    scan_progress = false;
    values = [];
  };
  metadata = record {
    diid = none;
    rid = none;
    point_id = none;
    scan_def_id = none;
    scan_id = none;
    queue_id = none;
    cached = false;
  };
}

-- cleanup: unstages without a wait.
unfoldable pub cleanup : DeviceManager → ScanWorker → ScanWorker
unfolding unstage
cleanup dm w = unstage (or_enabled dm w.staged_devices) no_instruction w
