-- ===== src/ScanBundler/Storage.antt =====
-- The state of ScanBundler (scan_bundler/scan_bundler/scan_bundler.py), its emitters as a list of the
-- calls that they have had, newest first, and cleanup_storage.
pub mod Cleanup
use bec.Prelude.{
  ℕ, String, Option, none, some, Bool, true, false, ◌&&◌, not, List, [], ◌∷◌, ◌==◌, string_eq,
  if◌then◌else◌, contains, map, keep,
}
use bec.Prelude.Dict.{Dict, lookup, insert, erase}

pub data ScanStatus : Type 0 where
  opened closed aborted paused halted : ScanStatus
  other : String → ScanStatus

pub data ScanType : Type 0 where
  step fly : ScanType
  other_type : String → ScanType

abbrev pub Priority : Type 0
Priority = Dict String (List String)

-- The info of a scan; the empty dictionary has no scan type.
pub record ScanInfo : Type 0 where
  pub scan_motors : List String
  pub readout_priority : Priority
  pub scan_type : Option ScanType

abbrev pub no_info : ScanInfo
no_info = record { scan_motors = []; readout_priority = []; scan_type = none }

pub record ScanStatusMessage : Type 0 where
  pub scan_id : String
  pub status : ScanStatus
  pub info : ScanInfo

-- A device's signals, by name; `V` is what a signal holds.
abbrev pub Signals : Type 0 → Type 0
Signals V = Dict String V

-- What a point holds under a name: all signals of a device, or one signal of a flyer.
pub data Entry (V : Type 0) : Type 0 where
  whole : Signals V → Entry V
  part : V → Entry V

-- An entry of sync_storage: its fixed keys as fields, and the points that are its other keys.
pub record SyncStorage (V : Type 0) : Type 0 where
  pub info : ScanInfo
  pub status : ScanStatus
  pub sent : List ℕ
  pub points : Dict ℕ (Dict String (Entry V))
  pub baseline : Dict String (Entry V)

pub record Monitored : Type 0 where
  pub devices : List String
  pub points : Dict ℕ (Dict String Bool)

pub record Baseline : Type 0 where
  pub devices : List String
  pub done : Dict String Bool

pub data Emitted (V : Type 0) : Type 0 where
  on_init : String → Emitted V
  on_scan_point_emit : String → ℕ → Dict String (Entry V) → Emitted V
  on_baseline_emit : String → Dict String (Entry V) → Emitted V
  on_cleanup : String → Emitted V

pub record ScanBundler (V : Type 0) : Type 0 where
  pub sync_storage : Dict String (SyncStorage V)
  pub monitored_devices : Dict String Monitored
  pub baseline_devices : Dict String Baseline
  pub device_storage : Dict String (Signals V)
  pub scan_motors : Dict String (List String)
  pub readout_priority : Dict String Priority
  pub storage_initialized : List String
  pub scan_id_history : List String
  pub emitted : List (Emitted V)

unfoldable pub scan_bundler : {V : Type 0} → ScanBundler V
scan_bundler = record {
  sync_storage = [];
  monitored_devices = [];
  baseline_devices = [];
  device_storage = [];
  scan_motors = [];
  readout_priority = [];
  storage_initialized = [];
  scan_id_history = [];
  emitted = [];
}

abbrev pub is_over : ScanStatus → Bool
is_over closed = true
is_over aborted = true
is_over _ = false

-- set.remove of an id that is there. Its KeyError on another id is left out: every scan is marked when
-- it is stored.
unfoldable pub discard : String → List String → List String
discard id [] = []
discard id (j ∷ js) = if j == id then discard id js else j ∷ discard id js

module _ {V : Type 0} where
  -- `run_emitter`, for all emitters at once.
  abbrev pub run_emitter : Emitted V → ScanBundler V → ScanBundler V
  run_emitter e b = record b { emitted = e ∷ b.emitted }

  -- The entries that the first loop of cleanup_storage picks.
  unfoldable pub to_remove : List String → Dict String (SyncStorage V) → List String
  to_remove history [] = []
  to_remove history ((id, entry) ∷ m) =
      if is_over entry.status && not (contains id history)
      then id ∷ to_remove history m
      else to_remove history m

  -- The body of its second loop. A storage that lacks the scan id is left as it is.
  unfoldable pub remove_scan : String → ScanBundler V → ScanBundler V
  unfolding discard erase
  remove_scan id b = record b {
    sync_storage = erase id b.sync_storage;
    monitored_devices = erase id b.monitored_devices;
    baseline_devices = erase id b.baseline_devices;
    scan_motors = erase id b.scan_motors;
    readout_priority = erase id b.readout_priority;
    emitted = on_cleanup id ∷ b.emitted;
    storage_initialized = discard id b.storage_initialized;
  }

  unfoldable pub remove_scans : List String → ScanBundler V → ScanBundler V
  unfolding remove_scan
  remove_scans [] b = b
  remove_scans (id ∷ ids) b = remove_scans ids (remove_scan id b)

  unfoldable pub cleanup_storage : ScanBundler V → ScanBundler V
  unfolding to_remove remove_scans
  cleanup_storage b = remove_scans (to_remove b.scan_id_history b.sync_storage) b
