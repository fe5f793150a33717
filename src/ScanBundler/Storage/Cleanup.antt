-- ===== src/ScanBundler/Storage/Cleanup.antt =====
-- What cleanup_storage of scan_bundler/scan_bundler/scan_bundler.py frees.
use bec.Prelude.{
  String, ◌≡◌, refl, Option, none, some, Bool, false, ◌&&◌, not, List, [], ◌∷◌, ◌==◌, string_eq,
  if◌then◌else◌, contains, arith,
}
use bec.Prelude.Dict.{Dict, lookup, has, lookup-erase, IsDict}
use bec.ScanBundler.Storage.{
  SyncStorage, ScanBundler, is_over, to_remove, discard, remove_scan, remove_scans, cleanup_storage,
}

contains-discard :
    (k id : String) (ids : List String)
    → contains id (discard k ids) ≡ (if k == id then false else contains id ids)
unfolding discard
contains-discard k id [] = ground arith
contains-discard k id (j ∷ js) = ground (
  arith,
  string_eq.beq_iff k id,
  string_eq.beq_iff j k,
  string_eq.beq_iff j id,
  contains-discard k id js,
)

module _ {V : Type 0} where
  -- A scan is freed when it is closed or aborted and not among the last ones.
  abbrev pub is_stale : List String → String → Option (SyncStorage V) → Bool
  is_stale history id none = false
  is_stale history id (some entry) = is_over entry.status && not (contains id history)

  contains-to_remove_absent :
      (history : List String) (id : String) (m : Dict String (SyncStorage V))
      → has id m ≡ false
      → contains id (to_remove history m) ≡ false
  unfolding to_remove has
  contains-to_remove_absent history id [] h = refl
  contains-to_remove_absent history id ((j, entry) ∷ m) h =
      ground (arith, contains-to_remove_absent history id m)

  contains-to_remove :
      (history : List String) (id : String) (m : Dict String (SyncStorage V))
      → IsDict m
      → contains id (to_remove history m) ≡ is_stale history id (lookup id m)
  unfolding to_remove lookup
  contains-to_remove history id [] d = refl
  contains-to_remove history id ((j, entry) ∷ m) d = ground (
    arith,
    string_eq.beq_iff j id,
    contains-to_remove history id m d.1,
    contains-to_remove_absent history j m d.0,
  )

  lookup-remove_scans :
      (id : String) (ids : List String) (b : ScanBundler V)
      → (lookup id (remove_scans ids b).sync_storage
          ≡ (if contains id ids then none else lookup id b.sync_storage))
        × (lookup id (remove_scans ids b).monitored_devices
            ≡ (if contains id ids then none else lookup id b.monitored_devices))
        × (lookup id (remove_scans ids b).baseline_devices
            ≡ (if contains id ids then none else lookup id b.baseline_devices))
        × (contains id (remove_scans ids b).storage_initialized
            ≡ (if contains id ids then false else contains id b.storage_initialized))
  unfolding remove_scans remove_scan
  lookup-remove_scans id [] b = (refl, refl, refl, refl)
  lookup-remove_scans id (j ∷ ids) b =
      let (s, m, n, i) = lookup-remove_scans id ids (remove_scan j b) in
      (
        ground (arith, s, lookup-erase j id b.sync_storage, string_eq.beq_iff j id),
        ground (arith, m, lookup-erase j id b.monitored_devices, string_eq.beq_iff j id),
        ground (arith, n, lookup-erase j id b.baseline_devices, string_eq.beq_iff j id),
        ground (arith, i, contains-discard j id b.storage_initialized, string_eq.beq_iff j id),
      )

  -- The cleanup frees exactly the scans that are closed or aborted and not in the history of the last
  -- ten: of these neither data nor devices nor the mark of initialization stay, and of every other
  -- scan all of them do.
  pub cleanup_storage-is_stale :
      (id : String) (b : ScanBundler V)
      → IsDict b.sync_storage
      → let stale = is_stale b.scan_id_history id (lookup id b.sync_storage) in
        let c = cleanup_storage b in
        (lookup id c.sync_storage ≡ (if stale then none else lookup id b.sync_storage))
        × (lookup id c.monitored_devices ≡ (if stale then none else lookup id b.monitored_devices))
        × (lookup id c.baseline_devices ≡ (if stale then none else lookup id b.baseline_devices))
        × (contains id c.storage_initialized
            ≡ (if stale then false else contains id b.storage_initialized))
  unfolding cleanup_storage
  cleanup_storage-is_stale id b d =
      rw (← contains-to_remove b.scan_id_history id b.sync_storage d)
        (lookup-remove_scans id (to_remove b.scan_id_history b.sync_storage) b)
