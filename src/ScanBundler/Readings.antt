-- ===== src/ScanBundler/Readings.antt =====
-- How ScanBundler puts the readings of devices together (scan_bundler/scan_bundler/scan_bundler.py).
-- `readback` is what redis holds for a device, and none is an exception.
pub mod Points
use bec.Prelude.{
  ℕ, String, Option, none, some, Bool, true, false, ◌&&◌, ◌||◌, not, List, [], ◌∷◌, ◌==◌, string_eq,
  nat_eq, if◌then◌else◌, contains, map, length, every, exists, is_some, truthy,
}
use bec.Prelude.Dict.{Dict, lookup, insert, has}
use bec.ScanBundler.Storage.{
  ScanStatus, closed, aborted, is_over, ScanType, step, fly, other_type, ScanStatusMessage, Signals,
  Entry, whole, part, SyncStorage, Monitored, Baseline, ScanBundler, on_scan_point_emit,
  on_baseline_emit,
}
use bec.ScanBundler.Status.{DeviceManager, none_done, handle_scan_status_message}

-- d.get(k, {})
abbrev pub get_or_empty : {A : Type 0} → Option (List A) → List A
get_or_empty none = []
get_or_empty (some xs) = xs

-- {**d, **e}
abbrev pub merge : {A : Type 0} → Dict String A → Dict String A → Dict String A
merge d [] = d
merge d ((k, v) ∷ e) = merge (insert k v d) e

abbrev pub is_empty : {A : Type 0} → List A → Bool
is_empty [] = true
is_empty (x ∷ xs) = false

-- set.add
abbrev pub mark_sent : ℕ → List ℕ → List ℕ
mark_sent p ps = if contains p ps then ps else p ∷ ps

abbrev pub is_fly : Option ScanType → Bool
is_fly (some fly) = true
is_fly _ = false

pub record ReadingMetadata : Type 0 where
  pub scan_id : Option String
  pub point_id : Option ℕ
  pub readout_priority : Option String

pub record DeviceMessage (V : Type 0) : Type 0 where
  pub metadata : ReadingMetadata
  pub signals : Signals V

-- The flags of a point once a device has reported.
unfoldable pub report : String → ℕ → Monitored → Dict String Bool
report device p m = elim (lookup p m.points) [
  | none ↦ insert device true (none_done m.devices)
  | some flags ↦ insert device true flags
]

abbrev pub all_done : Dict String Bool → List String → Bool
all_done flags devices = every (λ (d, done). done) flags && (length flags == length devices)

module _ {V : Type 0} (readback : String → Signals V) where
  -- The readbacks of devices, each under the device's name.
  unfoldable pub readbacks : List String → Dict String (Entry V) → Dict String (Entry V)
  readbacks [] point = point
  readbacks (d ∷ ds) point = readbacks ds (insert d (whole (readback d)) point)

  -- `_update_monitor_signals` on the data of a point: only fly scans take the readbacks.
  unfoldable pub update_monitor_signals :
      SyncStorage V → List String → Dict String (Entry V) → Dict String (Entry V)
  unfolding readbacks
  update_monitor_signals entry devices point =
      if is_fly entry.info.scan_type then readbacks devices point else point

  -- `_update_monitor_signals` and `_send_scan_point`, with the point's data as they leave it.
  unfoldable pub send_scan_point :
      String → ℕ → SyncStorage V → List String → ScanBundler V → ScanBundler V
  unfolding update_monitor_signals
  send_scan_point id p entry devices b =
      let point = update_monitor_signals entry devices (get_or_empty (lookup p entry.points)) in
      record b {
        sync_storage =
            insert id
              (record entry { points = insert p point entry.points; sent = mark_sent p entry.sent })
              b.sync_storage;
        emitted = on_scan_point_emit id p point ∷ b.emitted;
      }

  -- `_step_scan_update` for a scan that is stored.
  unfoldable pub step_point :
      String → String → Signals V → ℕ → SyncStorage V → Monitored → ScanBundler V → ScanBundler V
  unfolding send_scan_point report
  step_point id device signals p entry m b =
      let point = insert device (whole signals) (get_or_empty (lookup p entry.points)) in
      let entry' = record entry { points = insert p point entry.points } in
      let flags = report device p m in
      let b' = record b {
        sync_storage = insert id entry' b.sync_storage;
        monitored_devices =
            insert id (record m { points = insert p flags m.points }) b.monitored_devices;
      } in
      if all_done flags m.devices && not (is_empty point)
      then send_scan_point id p entry' m.devices b'
      else b'

  unfoldable pub step_scan_update :
      String → String → Signals V → Option ℕ → ScanBundler V → Option (ScanBundler V)
  unfolding step_point
  step_scan_update id device signals none b = some b
  step_scan_update id device signals (some p) b = elim (lookup id b.monitored_devices) [
    | none ↦ none
    | some m ↦ elim (lookup id b.sync_storage) [
      | none ↦ none
      | some entry ↦ some (step_point id device signals p entry m b)
    ]
  ]

  -- `_fly_scan_update`: all signals of the flyer, and the point is sent at once.
  unfoldable pub fly_scan_update :
      String → Signals V → Option ℕ → ScanBundler V → Option (ScanBundler V)
  unfolding send_scan_point
  fly_scan_update id signals none b = some b
  fly_scan_update id signals (some p) b = elim (lookup id b.sync_storage) [
    | none ↦ none
    | some entry ↦
        let point =
          merge (get_or_empty (lookup p entry.points)) (map (λ (k, v). (k, part v)) signals) in
        let entry' = record entry { points = insert p point entry.points } in
        let b' = record b { sync_storage = insert id entry' b.sync_storage } in
        if is_empty point then some b' else elim (lookup id b.monitored_devices) [
          | none ↦ none
          | some m ↦ some (send_scan_point id p entry' m.devices b')
        ]
  ]

module _ {V : Type 0} where
  -- `_baseline_update`
  unfoldable pub baseline_update :
      DeviceManager → String → String → Signals V → ScanBundler V → Option (ScanBundler V)
  baseline_update dm id device signals b = elim (lookup id b.baseline_devices) [
    | none ↦ none
    | some base ↦ elim (lookup id b.sync_storage) [
      | none ↦ none
      | some entry ↦
          let done = insert device true base.done in
          let baseline = insert device (whole signals) entry.baseline in
          let b' = record b {
            sync_storage = insert id (record entry { baseline = baseline }) b.sync_storage;
            baseline_devices = insert id (record base { done = done }) b.baseline_devices;
          } in
          if not (every (λ (d, flag). flag) done)
          then some b'
          else elim (lookup id b.readout_priority) [
            | none ↦ none
            | some priority ↦ some (record b' {
              emitted = on_baseline_emit id baseline ∷ b.emitted;
              baseline_devices =
                  insert id (record base { done = none_done (dm.baseline priority) })
                    b.baseline_devices;
            })
          ]
    ]
  ]

  -- `_wait_for_scanID`, over the status messages that each poll finds; none is its TimeoutError,
  -- when the polls are used up.
  unfoldable pub handle_matching :
      DeviceManager → String → List ScanStatusMessage → ScanBundler V → ScanBundler V
  unfolding handle_scan_status_message
  handle_matching dm id [] b = b
  handle_matching dm id (msg ∷ msgs) b =
      handle_matching dm id msgs
        (if msg.scan_id == id then handle_scan_status_message dm msg b else b)

  abbrev pub has_ended : String → ScanBundler V → Bool
  has_ended id b = elim (lookup id b.sync_storage) [ none ↦ false | some e ↦ is_over e.status ]

  unfoldable pub wait_for_scan_id :
      DeviceManager
      → String
      → List (List ScanStatusMessage)
      → ScanBundler V
      → Option (ScanBundler V)
  unfolding handle_matching
  wait_for_scan_id dm id [] b = if contains id b.storage_initialized then some b else none
  wait_for_scan_id dm id (msgs ∷ polls) b =
      let b' = handle_matching dm id msgs b in
      let rest = wait_for_scan_id dm id polls b' in
      if contains id b.storage_initialized
      then some b
      else if has_ended id b'
      then some b'
      else rest

abbrev pub Handled : Type 0 → Type 0
Handled V = Option (ScanBundler V × Bool)

-- An update that raises nothing, after which the loop over the messages goes on.
abbrev pub going_on : {V : Type 0} → Option (ScanBundler V) → Handled V
going_on none = none
going_on (some b) = some (b, true)

module _ {V : Type 0} (readback : String → Signals V) (dm : DeviceManager) where
  -- A monitored reading, by the type of its scan. An unknown type is a RuntimeError.
  unfoldable pub monitored_update :
      Option ScanType → String → String → DeviceMessage V → ScanBundler V → Option (ScanBundler V)
  unfolding step_scan_update fly_scan_update
  monitored_update (some step) id device msg b =
      step_scan_update readback id device msg.signals msg.metadata.point_id b
  monitored_update (some fly) id device msg b =
      fly_scan_update readback id msg.signals msg.metadata.point_id b
  monitored_update (some (other_type t)) id device msg b = none
  monitored_update none id device msg b = none

  -- A reading by its readout priority.
  unfoldable pub update_by_priority :
      Option String
      → Option ScanType
      → String
      → String
      → DeviceMessage V
      → ScanBundler V
      → Option (ScanBundler V)
  unfolding monitored_update baseline_update
  update_by_priority none t id device msg b = some b
  update_by_priority (some p) t id device msg b =
      if p == "monitored"
      then monitored_update t id device msg b
      else if p == "baseline"
      then baseline_update dm id device msg.signals b
      else some b

  -- The rest of the loop's body once the scan is there. The flag says whether the loop goes on: an
  -- early return ends it. A reading of a scan that is over and has no info is dropped.
  unfoldable pub add_reading : DeviceMessage V → String → String → ScanBundler V → Handled V
  unfolding update_by_priority
  add_reading msg device id b = elim (lookup id b.sync_storage) [
    | none ↦ none
    | some entry ↦
        if is_over entry.status && not (is_some entry.info.scan_type)
        then some (b, false)
        else going_on (
            update_by_priority msg.metadata.readout_priority entry.info.scan_type id device msg
              (record b { device_storage = insert device msg.signals b.device_storage }))
  ]

  -- The loop's body: a message without scan id or signals, and a scan that does not appear, end it.
  unfoldable pub add_message :
      DeviceMessage V → List (List ScanStatusMessage) → String → ScanBundler V → Handled V
  unfolding add_reading wait_for_scan_id
  add_message msg polls device b =
      if not (truthy msg.metadata.scan_id) || is_empty msg.signals
      then some (b, false)
      else elim msg.metadata.scan_id [
        | none ↦ some (b, false)
        | some id ↦ elim (wait_for_scan_id dm id polls b) [
          | none ↦ some (b, false)
          | some b' ↦ add_reading msg device id b'
        ]
      ]

  -- `_add_device_to_storage`: each message with what the polls of its wait find.
  unfoldable pub add_device_to_storage :
      List (DeviceMessage V × List (List ScanStatusMessage))
      → String
      → ScanBundler V
      → Option (ScanBundler V)
  unfolding add_message
  add_device_to_storage [] device b = some b
  add_device_to_storage ((msg, polls) ∷ msgs) device b = elim (add_message msg polls device b) [
    | none ↦ none
    | some (b', true) ↦ add_device_to_storage msgs device b'
    | some (b', false) ↦ some b'
  ]
