-- ===== src/ScanBundler/Status/Recorded.antt =====
-- What ScanBundler keeps of a scan status message (scan_bundler/scan_bundler/scan_bundler.py).
use bec.Prelude.{
  ℕ, zero, suc, ◌-◌, ◌≤◌, ◌++◌, drop, String, ◌≡◌, refl, inl, inr, Option, none, some, true, false,
  List, [], ◌∷◌, ◌==◌, string_eq, contains, arith, Bool-cases, Option-cases, beq_refl, length,
}
use bec.Prelude.Deque
use bec.Prelude.Dict.{lookup, lookup-insert_self}
use bec.ScanBundler.Storage.{
  ScanStatus, opened, closed, aborted, paused, halted, other, no_info, ScanStatusMessage,
  SyncStorage, ScanBundler, on_init, cleanup_storage,
}
use bec.ScanBundler.Status.{
  DeviceManager, is_opened, is_known, remember, new_container, initialize_scan_container,
  scan_status_modification, meet_scan, handle_scan_status_message, max_scans,
}

not_opened : (s : ScanStatus) → is_known s ≡ true → is_opened s ≡ false
not_opened opened k = cc
not_opened closed k = refl
not_opened aborted k = refl
not_opened paused k = refl
not_opened halted k = refl
not_opened (other s) k = refl

contains-append : (id : String) (xs : List String) → contains id (xs ++ id ∷ []) ≡ true
contains-append id [] = ground (arith, beq_refl id)
contains-append id (x ∷ xs) = ground (arith, contains-append id xs)

-- A drop that leaves the last element.
contains-drop :
    (id : String) (n : ℕ) (xs : List String)
    → n ≤ length xs
    → contains id (drop n (xs ++ id ∷ [])) ≡ true
contains-drop id zero xs l = contains-append id xs
contains-drop id (suc n) [] l = elim l [ ]
contains-drop id (suc n) (x ∷ xs) l = contains-drop id n xs (omega arith)

contains-remember : (id : String) (xs : List String) → contains id (remember id xs) ≡ true
unfolding Deque.append
contains-remember id xs = elim (Bool-cases (contains id xs)) [
  | inl e ↦ rw e e
  | inr e ↦ rw e (contains-drop id (suc (length xs) - max_scans) xs (omega arith))
]

module _ {V : Type 0} (dm : DeviceManager) where
  -- The entry of a scan when a status has come, given the one before.
  abbrev with_status : ScanStatus → Option (SyncStorage V) → SyncStorage V
  with_status status none = record {
    info = no_info;
    status = status;
    sent = [];
    points = [];
    baseline = [];
  }
  with_status status (some entry) = record entry { status = status }

  scan_status_modification-with_status :
      (msg : ScanStatusMessage) (b : ScanBundler V)
      → is_known msg.status ≡ true
      → (msg.scan_id == "") ≡ false
      → lookup msg.scan_id (scan_status_modification dm msg b).sync_storage
        ≡ some (with_status msg.status (lookup msg.scan_id b.sync_storage))
  unfolding scan_status_modification
  scan_status_modification-with_status msg b k n =
      elim (Option-cases (lookup msg.scan_id b.sync_storage)) [
        | inl e ↦
            rw (k, n, e, scan_status_modification) (lookup-insert_self msg.scan_id _ b.sync_storage)
        | inr (entry, e) ↦
            rw (k, n, e, scan_status_modification) (lookup-insert_self msg.scan_id _ b.sync_storage)
      ]

  -- A status other than `open` starts no scan.
  meet_scan-sync_storage :
      (msg : ScanStatusMessage) (b : ScanBundler V)
      → is_opened msg.status ≡ false
      → (meet_scan dm msg b).sync_storage ≡ b.sync_storage
  unfolding meet_scan initialize_scan_container
  meet_scan-sync_storage msg b o = elim (Option-cases (lookup msg.scan_id b.sync_storage)) [
    | inl e ↦ ground (arith, o)
    | inr (entry, e) ↦ ground (arith, o)
  ]

  -- A status message with a scan id and one of the statuses closed, aborted, paused and halted sets the
  -- status of its scan, whether the scan was stored or not. What was stored of the scan after the
  -- cleanup stays; of a scan that was not, there is no info and no point.
  handle_scan_status_message-with_status :
      (msg : ScanStatusMessage) (b : ScanBundler V)
      → is_known msg.status ≡ true
      → (msg.scan_id == "") ≡ false
      → lookup msg.scan_id (handle_scan_status_message dm msg b).sync_storage
        ≡ some (with_status msg.status (lookup msg.scan_id (cleanup_storage b).sync_storage))
  unfolding handle_scan_status_message
  handle_scan_status_message-with_status msg b k n =
      let o : is_opened msg.status ≡ false = not_opened msg.status k in
      let met = meet_scan-sync_storage msg (cleanup_storage b) o in
      rw (o, ← met)
        (scan_status_modification-with_status msg (meet_scan dm msg (cleanup_storage b)) k n)

  -- The first `open` of a scan that is neither stored nor marked as initialized after the cleanup
  -- stores its info with no point, marks it, and tells the emitters once.
  pub handle_scan_status_message-new_container :
      (msg : ScanStatusMessage) (b : ScanBundler V)
      → is_opened msg.status ≡ true
      → lookup msg.scan_id (cleanup_storage b).sync_storage ≡ none
      → contains msg.scan_id (cleanup_storage b).storage_initialized ≡ false
      → let b' = handle_scan_status_message dm msg b in
        (lookup msg.scan_id b'.sync_storage
          ≡ some
              (record { info = msg.info; status = opened; sent = []; points = []; baseline = [] }))
        × (contains msg.scan_id b'.storage_initialized ≡ true)
        × (contains msg.scan_id b'.scan_id_history ≡ true)
        × (b'.emitted ≡ on_init msg.scan_id ∷ (cleanup_storage b).emitted)
  unfolding handle_scan_status_message meet_scan initialize_scan_container new_container
  handle_scan_status_message-new_container msg b o n i =
      rw (o, n, meet_scan, o, i)
        (
          lookup-insert_self msg.scan_id _ (cleanup_storage b).sync_storage,
          ground (arith, beq_refl msg.scan_id),
          contains-remember msg.scan_id (cleanup_storage b).scan_id_history,
          refl,
        )
