-- ===== src/ScanBundler/Status.antt =====
-- How ScanBundler handles scan status messages (scan_bundler/scan_bundler/scan_bundler.py). The
-- device manager's choice of devices is a parameter.
pub mod Recorded
use bec.Prelude.{
  ℕ, String, none, some, Bool, true, false, ◌||◌, not, List, [], ◌∷◌, ◌==◌, string_eq,
  if◌then◌else◌, contains, map,
}
use bec.Prelude.Deque
use bec.Prelude.Dict.{Dict, lookup, insert}
use bec.ScanBundler.Storage.{
  ScanStatus, opened, closed, aborted, paused, halted, Priority, no_info, ScanStatusMessage,
  ScanBundler, on_init, cleanup_storage,
}

-- `devices.monitored_devices` and `devices.baseline_devices` of the device manager, by name.
pub record DeviceManager : Type 0 where
  pub monitored : Priority → List String
  pub baseline : Priority → List String

abbrev pub is_opened : ScanStatus → Bool
is_opened opened = true
is_opened _ = false

-- The statuses that `_scan_status_modification` knows.
abbrev pub is_known : ScanStatus → Bool
is_known closed = true
is_known aborted = true
is_known paused = true
is_known halted = true
is_known _ = false

-- list(set(…)), of motors that the device manager knows: another one is a KeyError in the code.
unfoldable pub distinct : List String → List String
distinct [] = []
distinct (d ∷ ds) = if contains d ds then distinct ds else d ∷ distinct ds

-- Flags for a list of devices, none of which has reported.
abbrev pub none_done : List String → Dict String Bool
none_done ds = map (λ d. (d, false)) ds

abbrev pub max_scans : ℕ
max_scans = 10

abbrev pub remember : String → List String → List String
remember id history = if contains id history then history else Deque.append max_scans history id

-- set.add
abbrev pub add : String → List String → List String
add id ids = if contains id ids then ids else id ∷ ids

module _ {V : Type 0} (dm : DeviceManager) where
  unfoldable pub new_container : ScanStatusMessage → ScanBundler V → ScanBundler V
  new_container msg b = record b {
    sync_storage =
        insert msg.scan_id
          (record { info = msg.info; status = opened; sent = []; points = []; baseline = [] })
          b.sync_storage;
    monitored_devices =
        insert msg.scan_id
          (record { devices = dm.monitored msg.info.readout_priority; points = [] })
          b.monitored_devices;
    baseline_devices =
        insert msg.scan_id
          (record {
            devices = dm.baseline msg.info.readout_priority;
            done = none_done (dm.baseline msg.info.readout_priority);
          })
          b.baseline_devices;
    storage_initialized = add msg.scan_id b.storage_initialized;
    emitted = on_init msg.scan_id ∷ b.emitted;
  }

  -- `_initialize_scan_container`
  unfoldable pub initialize_scan_container : ScanStatusMessage → ScanBundler V → ScanBundler V
  unfolding new_container distinct
  initialize_scan_container msg b =
      if not (is_opened msg.status)
      then b
      else let b' = record b {
        scan_motors = insert msg.scan_id (distinct msg.info.scan_motors) b.scan_motors;
        readout_priority = insert msg.scan_id msg.info.readout_priority b.readout_priority;
      } in
        if contains msg.scan_id b.storage_initialized then b' else new_container msg b'

  -- `_scan_status_modification`
  unfoldable pub scan_status_modification : ScanStatusMessage → ScanBundler V → ScanBundler V
  scan_status_modification msg b =
      if not (is_known msg.status) || msg.scan_id == ""
      then b
      else elim (lookup msg.scan_id b.sync_storage) [
        | some entry ↦ record b {
          sync_storage = insert msg.scan_id (record entry { status = msg.status }) b.sync_storage;
        }
        | none ↦ record b {
          sync_storage =
              insert msg.scan_id
                (record {
                  info = no_info;
                  status = msg.status;
                  sent = [];
                  points = [];
                  baseline = [];
                })
                b.sync_storage;
          storage_initialized = add msg.scan_id b.storage_initialized;
          scan_id_history = remember msg.scan_id b.scan_id_history;
        }
      ]

  -- The first half of `handle_scan_status_message`: a scan that is not known yet.
  unfoldable pub meet_scan : ScanStatusMessage → ScanBundler V → ScanBundler V
  unfolding initialize_scan_container
  meet_scan msg b = elim (lookup msg.scan_id b.sync_storage) [
    | some entry ↦ b
    | none ↦
        let b' = initialize_scan_container msg b in
        record b' { scan_id_history = remember msg.scan_id b'.scan_id_history }
  ]

  unfoldable pub handle_scan_status_message : ScanStatusMessage → ScanBundler V → ScanBundler V
  unfolding cleanup_storage meet_scan scan_status_modification
  handle_scan_status_message msg b =
      let b' = meet_scan msg (cleanup_storage b) in
      if is_opened msg.status then b' else scan_status_modification msg b'
