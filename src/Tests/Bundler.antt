-- ===== src/Tests/Bundler.antt =====
-- The scan bundler at work (scan_bundler/scan_bundler/scan_bundler.py).
use bec.Prelude.{
  Option, ℕ, String, ◌≡◌, refl, none, some, true, false, [], ◌∷◌, if◌then◌else◌, contains,
  string_eq, nat_eq,
}
use bec.Prelude.Dict.{lookup, insert, has}
use bec.ScanBundler.Storage.{
  Signals, whole, SyncStorage, Monitored, ScanBundler, scan_bundler, ScanStatus, ScanType, no_info,
  cleanup_storage, on_scan_point_emit, on_init, ScanStatusMessage,
}
use bec.ScanBundler.Storage.Cleanup.{is_stale, cleanup_storage-is_stale}
use bec.ScanBundler.Emitter.{Buffered, Emitter, publish_data, set, send}
use bec.ScanBundler.Emitter.Bundle.{add_all, publish_data-add_message}
use bec.ScanBundler.Status.{DeviceManager, handle_scan_status_message}
use bec.ScanBundler.Status.Recorded.{handle_scan_status_message-new_container}
use bec.ScanBundler.Readings.{step_scan_update}
use bec.ScanBundler.Readings.Points.{
  all_seen, flags_of, with_reading, step_scan_update-all_seen, IsRecorded,
}

-- What the runs below compute with.
runs : Unit {0}
unfolding scan_bundler cleanup_storage step_scan_update lookup insert
runs = tt

abbrev stored : ScanStatus → SyncStorage ℕ
stored status = record {
  info = record no_info { scan_type = some ScanType.step };
  status = status;
  sent = [];
  points = (0, ("samx", whole (("samx", 5) ∷ [])) ∷ []) ∷ [];
  baseline = [];
}

-- One device of two has reported for the point 0.
abbrev half_read : Monitored
half_read = record {
  devices = "samx" ∷ "samy" ∷ [];
  points = (0, ("samx", true) ∷ ("samy", false) ∷ []) ∷ [];
}

abbrev bundler : ScanBundler ℕ
unfolding scan_bundler
bundler = record scan_bundler {
  sync_storage =
      ("old", stored ScanStatus.closed)
      ∷ ("last", stored ScanStatus.closed)
      ∷ ("scan", stored ScanStatus.opened)
      ∷ [];
  monitored_devices = ("scan", half_read) ∷ [];
  storage_initialized = "old" ∷ "last" ∷ "scan" ∷ [];
  scan_id_history = "last" ∷ "scan" ∷ [];
}

cleanup_storage-is_stale_example :
    let stale = is_stale bundler.scan_id_history "old" (lookup "old" bundler.sync_storage) in
    let c = cleanup_storage bundler in
    (lookup "old" c.sync_storage ≡ (if stale then none else lookup "old" bundler.sync_storage))
    × (lookup "old" c.monitored_devices
        ≡ (if stale then none else lookup "old" bundler.monitored_devices))
    × (lookup "old" c.baseline_devices
        ≡ (if stale then none else lookup "old" bundler.baseline_devices))
    × (contains "old" c.storage_initialized
        ≡ (if stale then false else contains "old" bundler.storage_initialized))
unfolding runs has
cleanup_storage-is_stale_example = cleanup_storage-is_stale "old" bundler (refl, (refl, (refl, tt)))

abbrev reading : Signals ℕ
reading = ("samy", 7) ∷ []

abbrev readback : String → Signals ℕ
readback d = []

step_scan_update-all_seen_example :
    (b : ScanBundler ℕ) × (step_scan_update readback "scan" "samy" reading (some 0) bundler
      ≡ some b)
    × (b.emitted ≡ (
        if all_seen half_read.devices ("samy" ∷ "samx" ∷ [])
        then on_scan_point_emit "scan" 0
            (with_reading readback "samy" reading 0 (stored ScanStatus.opened))
          ∷ bundler.emitted
        else bundler.emitted))
    × (lookup "scan" b.monitored_devices
        ≡ some (record half_read {
          points = insert 0 (flags_of half_read.devices ("samy" ∷ "samx" ∷ [])) half_read.points;
        }))
    × IsRecorded readback "scan"
        (with_reading readback "samy" reading 0 (stored ScanStatus.opened))
        0
        (all_seen half_read.devices ("samy" ∷ "samx" ∷ []))
        (stored ScanStatus.opened)
        b
unfolding runs
step_scan_update-all_seen_example =
    step_scan_update-all_seen readback "scan" "samy" reading 0 half_read (stored ScanStatus.opened)
      ("samx" ∷ []) bundler refl refl refl (refl, (refl, tt)) refl refl

abbrev device_manager : DeviceManager
device_manager = record { monitored = λ p. "samx" ∷ []; baseline = λ p. [] }

abbrev starting : ScanStatusMessage
starting = record { scan_id = "next"; status = ScanStatus.opened; info = no_info }

handle_scan_status_message-new_container_example :
    let b = handle_scan_status_message device_manager starting bundler in
    (lookup "next" b.sync_storage
      ≡ some (record {
        info = no_info;
        status = ScanStatus.opened;
        sent = [];
        points = [];
        baseline = [];
      }))
    × (contains "next" b.storage_initialized ≡ true)
    × (contains "next" b.scan_id_history ≡ true)
    × (b.emitted ≡ on_init "next" ∷ (cleanup_storage bundler).emitted)
unfolding runs
handle_scan_status_message-new_container_example =
    handle_scan_status_message-new_container device_manager starting bundler refl refl refl

abbrev segment : ℕ → Option String → Buffered ℕ
segment n public = record { message = n; endpoint = "scan_segment"; public = public }

abbrev idle : Emitter ℕ
idle = record { send_buffer = []; produced = [] }

-- Only the first of three messages has a public copy.
publish_data-add_message_example :
    publish_data
      (add_all (segment 1 (some "public") ∷ segment 2 none ∷ segment 3 (some "") ∷ []) idle)
    ≡ record {
      send_buffer = [];
      produced = set "public" 1 1800 ∷ send "scan_segment" (1 ∷ 2 ∷ 3 ∷ []) ∷ [];
    }
publish_data-add_message_example =
    publish_data-add_message "scan_segment" (segment 1 (some "public"))
      (segment 2 none ∷ segment 3 (some "") ∷ []) idle refl (refl, (refl, (refl, tt)))
