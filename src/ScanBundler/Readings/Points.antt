-- ===== src/ScanBundler/Readings/Points.antt =====
-- When a point of a step scan is sent, and with what data
-- (_step_scan_update of scan_bundler/scan_bundler/scan_bundler.py).
use bec.Prelude.{
  ℕ, suc, String, ◌≡◌, refl, inl, inr, Option, none, some, Bool, true, false, ◌&&◌, List, [], ◌∷◌,
  string_eq, nat_eq, if◌then◌else◌, contains, arith, Bool-cases, beq_refl, ◌∙◌, ap, map, every,
  length, Option-cases,
}
use bec.Prelude.Dict.{Dict, lookup, insert, lookup-insert_self}
use bec.ScanBundler.Storage.{
  Signals, Entry, whole, SyncStorage, Monitored, ScanBundler, on_scan_point_emit, step,
}
use bec.ScanBundler.Status.{none_done}
use bec.ScanBundler.Readings.{
  report, all_done, step_point, step_scan_update, send_scan_point, update_monitor_signals,
  get_or_empty, is_empty, mark_sent,
}

-- No device twice.
abbrev pub AreDistinct : List String → Type 0
AreDistinct [] = Unit {0}
AreDistinct (d ∷ ds) = (contains d ds ≡ false) × AreDistinct ds

-- The flags of `devices` when those of `seen` have reported.
abbrev pub flags_of : List String → List String → Dict String Bool
flags_of devices seen = map (λ d. (d, contains d seen)) devices

flags_of_other :
    (d : String) (devices seen : List String)
    → contains d devices ≡ false
    → flags_of devices (d ∷ seen) ≡ flags_of devices seen
flags_of_other d [] seen h = refl
flags_of_other d (e ∷ devices) seen h =
    ground (arith, string_eq.beq_iff e d, string_eq.beq_iff d e, flags_of_other d devices seen)

-- A report sets the flag of its device and no other.
insert-flags_of :
    (d : String) (devices seen : List String)
    → AreDistinct devices
    → contains d devices ≡ true
    → insert d true (flags_of devices seen) ≡ flags_of devices (d ∷ seen)
unfolding insert
insert-flags_of d [] seen a h = cc
insert-flags_of d (e ∷ devices) seen a h = ground (
  arith,
  string_eq.beq_iff e d,
  string_eq.beq_iff d e,
  flags_of_other d devices seen,
  insert-flags_of d devices seen a.1,
)

-- Have all of these devices reported?
abbrev pub all_seen : List String → List String → Bool
all_seen devices seen = every (λ d. contains d seen) devices

every-flags_of :
    (devices seen : List String)
    → every (λ (d, done). done) (flags_of devices seen) ≡ all_seen devices seen
every-flags_of [] seen = refl
every-flags_of (d ∷ devices) seen = ap (λ b. contains d seen && b) (every-flags_of devices seen)

length-flags_of : (devices seen : List String) → length (flags_of devices seen) ≡ length devices
length-flags_of [] seen = refl
length-flags_of (d ∷ devices) seen = ap suc (length-flags_of devices seen)

all_done-flags_of :
    (devices seen : List String) → all_done (flags_of devices seen) devices ≡ all_seen devices seen
all_done-flags_of devices seen =
    rw (every-flags_of devices seen, length-flags_of devices seen, beq_refl (length devices))
      (ground arith)

-- The flags of a point as the next report will find them.
abbrev pub get_flags : Option (Dict String Bool) → List String → Dict String Bool
get_flags none devices = none_done devices
get_flags (some flags) devices = flags

-- The flags of a point are those of the devices that have reported for it.
abbrev pub Tracks : Monitored → ℕ → List String → Type 0
Tracks m p seen = get_flags (lookup p m.points) m.devices ≡ flags_of m.devices seen

report_lem :
    (device : String) (p : ℕ) (m : Monitored)
    → report device p m ≡ insert device true (get_flags (lookup p m.points) m.devices)
unfolding report
report_lem device p m = elim (Option-cases (lookup p m.points)) [
  | inl e ↦ rw (e, report)
  | inr (flags, e) ↦ rw (e, report)
]

report-flags_of :
    (device : String) (p : ℕ) (m : Monitored) (seen : List String)
    → AreDistinct m.devices
    → contains device m.devices ≡ true
    → Tracks m p seen
    → report device p m ≡ flags_of m.devices (device ∷ seen)
report-flags_of device p m seen a h t =
    report_lem device p m ∙ ap (insert device true) t ∙ insert-flags_of device m.devices seen a h

insert_ne_empty :
    {A : Type 0} (k : String) (v : A) (m : Dict String A) → is_empty (insert k v m) ≡ false
unfolding insert
insert_ne_empty k v [] = refl
insert_ne_empty k v ((j, w) ∷ m) = ground arith

module _ {V : Type 0} (readback : String → Signals V) where
  -- The data of a point with the reading of one more device.
  abbrev pub with_reading : String → Signals V → ℕ → SyncStorage V → Dict String (Entry V)
  with_reading device signals p entry =
      insert device (whole signals) (get_or_empty (lookup p entry.points))

  -- A scan is stored whose point has the reading, and which has the points sent that it had, with this
  -- one where it is sent now.
  abbrev pub IsRecorded :
      String → Dict String (Entry V) → ℕ → Bool → SyncStorage V → ScanBundler V → Type 0
  IsRecorded id point p is_sent entry b =
      (entry' : SyncStorage V) × (lookup id b.sync_storage ≡ some entry')
      × (lookup p entry'.points ≡ some point)
      × (entry'.sent ≡ (if is_sent then mark_sent p entry.sent else entry.sent))

  send_scan_point-IsRecorded :
      (id : String) (p : ℕ) (entry : SyncStorage V) (devices : List String)
      (point : Dict String (Entry V)) (b : ScanBundler V)
      → entry.info.scan_type ≡ some step
      → lookup p entry.points ≡ some point
      → IsRecorded id point p true entry (send_scan_point readback id p entry devices b)
  unfolding send_scan_point update_monitor_signals
  send_scan_point-IsRecorded id p entry devices point b ht e = (
    _,
    lookup-insert_self id _ b.sync_storage,
    lookup-insert_self p _ entry.points ∙ rw (ht, e) refl,
    refl,
  )

  send_scan_point-emitted :
      (id : String) (p : ℕ) (entry : SyncStorage V) (devices : List String)
      (point : Dict String (Entry V)) (b : ScanBundler V)
      → entry.info.scan_type ≡ some step
      → lookup p entry.points ≡ some point
      → ((send_scan_point readback id p entry devices b).emitted
          ≡ on_scan_point_emit id p point ∷ b.emitted)
        × ((send_scan_point readback id p entry devices b).monitored_devices ≡ b.monitored_devices)
  unfolding send_scan_point
  send_scan_point-emitted id p entry devices point b ht e =
      (rw (ht, update_monitor_signals, e), refl)

  module _ (id device : String) (signals : Signals V) (p : ℕ) (entry : SyncStorage V)
      (m : Monitored) (seen : List String) (b : ScanBundler V) where
    -- What is stored before the point may be sent.
    abbrev recorded : SyncStorage V
    recorded = record entry { points = insert p (with_reading device signals p entry) entry.points }

    abbrev before_sending : ScanBundler V
    before_sending = record b {
      sync_storage = insert id recorded b.sync_storage;
      monitored_devices =
          insert id (record m { points = insert p (report device p m) m.points })
            b.monitored_devices;
    }

    step_point_lem :
        report device p m ≡ flags_of m.devices (device ∷ seen)
        → step_point readback id device signals p entry m b ≡ (
            if all_seen m.devices (device ∷ seen)
            then send_scan_point readback id p recorded m.devices before_sending
            else before_sending)
    unfolding step_point
    step_point_lem f =
        let full : all_done (report device p m) m.devices ≡ all_seen m.devices (device ∷ seen) =
          ap (λ x. all_done x m.devices) f ∙ all_done-flags_of m.devices (device ∷ seen) in
        let filled : is_empty (with_reading device signals p entry) ≡ false =
          insert_ne_empty device (whole signals) (get_or_empty (lookup p entry.points)) in
        ground (arith, full, filled)

    step_point-emitted :
        entry.info.scan_type ≡ some step
        → report device p m ≡ flags_of m.devices (device ∷ seen)
        → ((step_point readback id device signals p entry m b).emitted ≡ (
            if all_seen m.devices (device ∷ seen)
            then on_scan_point_emit id p (with_reading device signals p entry) ∷ b.emitted
            else b.emitted))
          × (lookup id (step_point readback id device signals p entry m b).monitored_devices
              ≡ some (record m { points = insert p (flags_of m.devices (device ∷ seen)) m.points }))
    step_point-emitted ht f =
        let lem = step_point_lem f in
        let sent =
          send_scan_point-emitted id p recorded m.devices (with_reading device signals p entry)
            before_sending ht
            (lookup-insert_self p (with_reading device signals p entry) entry.points) in
        let held =
          lookup-insert_self id (record m { points = insert p (report device p m) m.points })
            b.monitored_devices in
        elim (Bool-cases (all_seen m.devices (device ∷ seen))) [
          | inl e ↦ rw (← f, lem, e) (sent.0, ap (lookup id) sent.1 ∙ held)
          | inr e ↦ rw (← f, lem, e) (refl, held)
        ]

    step_point-IsRecorded :
        entry.info.scan_type ≡ some step
        → report device p m ≡ flags_of m.devices (device ∷ seen)
        → IsRecorded id
            (with_reading device signals p entry)
            p
            (all_seen m.devices (device ∷ seen))
            entry
            (step_point readback id device signals p entry m b)
    step_point-IsRecorded ht f =
        let lem = step_point_lem f in
        let point = with_reading device signals p entry in
        let there = lookup-insert_self p point entry.points in
        elim (Bool-cases (all_seen m.devices (device ∷ seen))) [
          | inl e ↦
              rw (lem, e)
                (send_scan_point-IsRecorded id p recorded m.devices point before_sending ht there)
          | inr e ↦
              rw (lem, e) (recorded, lookup-insert_self id recorded b.sync_storage, there, refl)
        ]

  -- A reading of a monitored device of a step scan is recorded in its point beside those that are
  -- there, and the point is sent to the emitters, with these readings, and marked as sent if and only
  -- if with this reading every monitored device has reported for it.
  pub step_scan_update-all_seen :
      (id device : String) (signals : Signals V) (p : ℕ) (m : Monitored) (entry : SyncStorage V)
      (seen : List String) (b : ScanBundler V)
      → lookup id b.monitored_devices ≡ some m
      → lookup id b.sync_storage ≡ some entry
      → entry.info.scan_type ≡ some step
      → AreDistinct m.devices
      → contains device m.devices ≡ true
      → Tracks m p seen
      → (b' : ScanBundler V) × (step_scan_update readback id device signals (some p) b ≡ some b')
        × (b'.emitted ≡ (
            if all_seen m.devices (device ∷ seen)
            then on_scan_point_emit id p (with_reading device signals p entry) ∷ b.emitted
            else b.emitted))
        × (lookup id b'.monitored_devices
            ≡ some (record m { points = insert p (flags_of m.devices (device ∷ seen)) m.points }))
        × IsRecorded id
            (with_reading device signals p entry)
            p
            (all_seen m.devices (device ∷ seen))
            entry
            b'
  unfolding step_scan_update
  step_scan_update-all_seen id device signals p m entry seen b hm he ht a h t =
      let (sent, held) =
        step_point-emitted id device signals p entry m seen b ht
          (report-flags_of device p m seen a h t) in
      (
        step_point readback id device signals p entry m b,
        rw (hm, he, step_scan_update),
        sent,
        held,
        step_point-IsRecorded id device signals p entry m seen b ht
            (report-flags_of device p m seen a h t),
      )
