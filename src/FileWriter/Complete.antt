-- ===== src/FileWriter/Complete.antt =====
-- Which scans are written to a file (file_writer/file_writer/file_writer_manager.py).
mod Kept
use bec.Prelude.{
  ℕ, String, Option, none, some, Bool, true, false, List, [], ◌∷◌, ◌==◌, ◌≡◌, refl, sym, ◌∙◌, subst,
  nat_eq, option_eq, string_eq, option_beq_iff, if◌then◌else◌, length, All, All-append, arith,
  Bool-cases, Option-cases, inl, inr, is_some,
}
use bec.Prelude.Dict.{Dict, lookup, insert, erase, IsDict, insert-IsDict}
use bec.FileWriter.Storage.{
  ScanStorage, AsyncMessage, Async, new_storage, append, ready_to_write, take_columns,
  process_async_data, update_async_data, take_baseline, Server, update_baseline_reading,
  update_file_references,
}
use bec.FileWriter.Manager.{
  Manager, ScanStatusMessage, ScanMessage, Handled, handled, key_error, write_file, check_stored,
  check_storage_status, get_storage, take_status, close, close_scan,
  update_scan_storage_with_status, insert_to_scan_storage, scan_segment_callback, state, Arrival,
  scan_status, scan_segments, arrive, arrive_all, file_writer_manager, store,
}
use bec.FileWriter.Complete.Kept.{
  kept, update_async_data-kept, take_baseline-kept, all_insert, all_erase, all_lookup,
}

module _ {V : Type 0} where
  -- A scan that is finished and, if its points are synchronised, has as many as were announced, none
  -- twice.
  abbrev pub IsComplete : ScanStorage V → Type 0
  IsComplete s =
      (s.scan_finished ≡ true)
      × (s.enforce_sync ≡ true → s.num_points ≡ some (length s.scan_segments))
      × IsDict s.scan_segments

  abbrev HasPoints : ScanStorage V → Type 0
  HasPoints s = IsDict s.scan_segments

  -- Every file is of a complete scan, and no point is stored twice.
  record IsGood (m : Manager V) : Type 0 where
    complete : All IsComplete m.written
    points : All (λ x. HasPoints x.1) m.scan_storage

  ready_to_write-IsComplete :
      (s : ScanStorage V) → HasPoints s → ready_to_write s ≡ true → IsComplete s
  ready_to_write-IsComplete s h e =
      ground (arith, option_beq_iff s.num_points (some (length s.scan_segments)))

  store-IsGood :
      (i : Option String) (s : ScanStorage V) (m : Manager V)
      → HasPoints s
      → IsGood m
      → IsGood (store i s m)
  store-IsGood i s m p g = record {
    complete = g.complete;
    points = all_insert HasPoints i s m.scan_storage p g.points;
  }

  write_file-IsGood :
      (server : Server V) (i : Option String) (s : ScanStorage V) (m : Manager V)
      → IsComplete s
      → IsGood m
      → IsGood (write_file server i s m)
  unfolding write_file
  write_file-IsGood server i s m c g = record {
    complete = All-append IsComplete m.written (s ∷ []) g.complete (c, tt);
    points = all_erase HasPoints i m.scan_storage g.points;
  }

  check_stored-IsGood :
      (server : Server V) (i : Option String) (s : ScanStorage V) (m : Manager V)
      → HasPoints s
      → IsGood m
      → IsGood (state (check_stored server i s m))
  unfolding check_stored update_baseline_reading update_file_references
  check_stored-IsGood server i s m p g =
      let e = take_baseline-kept s.baseline (server.public_scan_baseline i) s in
      let s' = update_file_references server i (update_baseline_reading server i s) in
      let p' : HasPoints s' = subst (λ k. IsDict k.3) (sym e) p in
      let r = update_async_data (server.device_async_readback i) s' in
      let q = update_async_data-kept (server.device_async_readback i) s' in
      let p'' : HasPoints r.0 = subst (λ k. IsDict k.3) (sym q) p' in
      elim (Bool-cases (ready_to_write s')) [
        | inl a ↦
            let c : IsComplete r.0 =
              subst (λ k. (k.0 ≡ true) × (k.1 ≡ true → k.2 ≡ some (length k.3)) × IsDict k.3)
                (sym q) (ready_to_write-IsComplete s' p' a) in
            elim (Bool-cases r.1) [
              | inl b ↦
                  rw (a, b)
                    (write_file-IsGood server i r.0 (store i r.0 m) c (store-IsGood i r.0 m p'' g))
              | inr b ↦ rw (a, b) (store-IsGood i r.0 m p'' g)
            ]
        | inr a ↦ rw a (store-IsGood i s' m p' g)
      ]

  check_storage_status-IsGood :
      (server : Server V) (i : Option String) (m : Manager V)
      → IsGood m
      → IsGood (state (check_storage_status server i m))
  unfolding check_storage_status
  check_storage_status-IsGood server i m g = elim (Option-cases (lookup i m.scan_storage)) [
    | inl e ↦ rw (e, check_storage_status) g
    | inr (s, e) ↦
        rw (e, check_storage_status)
          (check_stored-IsGood server i s m (all_lookup HasPoints i s m.scan_storage g.points e) g)
  ]

  get_storage-HasPoints :
      (i : Option String) (n : Option ℕ) (m : Manager V) → IsGood m → HasPoints (get_storage i n m)
  unfolding get_storage new_storage
  get_storage-HasPoints i n m g = elim (Option-cases (lookup i m.scan_storage)) [
    | inl e ↦ rw (e, get_storage) tt
    | inr (s, e) ↦ rw (e, get_storage) (all_lookup HasPoints i s m.scan_storage g.points e)
  ]

  insert_to_scan_storage-IsGood :
      (server : Server V) (msg : ScanMessage V) (m : Manager V)
      → IsGood m
      → IsGood (state (insert_to_scan_storage server msg m))
  unfolding insert_to_scan_storage append
  insert_to_scan_storage-IsGood server msg m g = elim (Bool-cases (is_some msg.scan_id)) [
    | inl e ↦
        let s = get_storage msg.scan_id msg.scan_number m in
        rw e (
          check_storage_status-IsGood server msg.scan_id
            (store msg.scan_id (append msg.point_id msg.readings s) m)
            (store-IsGood msg.scan_id (append msg.point_id msg.readings s) m
              (insert-IsDict msg.point_id msg.readings s.scan_segments
                (get_storage-HasPoints msg.scan_id msg.scan_number m g))
              g))
    | inr e ↦ rw e g
  ]

  close_scan-IsGood :
      (server : Server V) (msg : ScanStatusMessage V) (s : ScanStorage V) (m : Manager V)
      → HasPoints s
      → IsGood m
      → IsGood (state (close_scan server msg s m))
  unfolding close_scan
  close_scan-IsGood server msg s m p g = elim (Option-cases msg.info.num_points) [
    | inl e ↦ rw e (store-IsGood msg.scan_id s m p g)
    | inr (n, e) ↦
        let s' = record s { num_points = some n } in
        elim (Option-cases msg.info.enforce_sync) [
          | inl f ↦ rw (e, f) (store-IsGood msg.scan_id s' m p g)
          | inr (b, f) ↦
              let s'' = record s' { enforce_sync = b } in
              rw (e, f)
                (check_storage_status-IsGood server msg.scan_id (store msg.scan_id s'' m)
                  (store-IsGood msg.scan_id s'' m p g))
        ]
  ]

  update_scan_storage_with_status-IsGood :
      (server : Server V) (msg : ScanStatusMessage V) (m : Manager V)
      → IsGood m
      → IsGood (state (update_scan_storage_with_status server msg m))
  unfolding update_scan_storage_with_status take_status close
  update_scan_storage_with_status-IsGood server msg m g =
      let p = get_storage-HasPoints msg.scan_id msg.info.scan_number m g in
      let s = take_status msg (get_storage msg.scan_id msg.info.scan_number m) in
      elim (Bool-cases (msg.status == "closed")) [
        | inl e ↦ rw e (close_scan-IsGood server msg (close msg s) m p g)
        | inr e ↦ rw e (store-IsGood msg.scan_id s m p g)
      ]

  abbrev after_segment : List (Server V × ScanMessage V) → Handled V → Handled V
  after_segment msgs (handled m) = scan_segment_callback msgs m
  after_segment msgs (key_error m) = key_error m

  after_segment-IsGood :
      (msgs : List (Server V × ScanMessage V)) (r : Handled V)
      → ((m : Manager V) → IsGood m → IsGood (state (scan_segment_callback msgs m)))
      → IsGood (state r)
      → IsGood (state (after_segment msgs r))
  after_segment-IsGood msgs (handled m) ih g = ih m g
  after_segment-IsGood msgs (key_error m) ih g = g

  scan_segment_callback-IsGood :
      (msgs : List (Server V × ScanMessage V)) (m : Manager V)
      → IsGood m
      → IsGood (state (scan_segment_callback msgs m))
  unfolding scan_segment_callback
  scan_segment_callback-IsGood [] m g = g
  scan_segment_callback-IsGood ((server, msg) ∷ msgs) m g =
      after_segment-IsGood msgs (insert_to_scan_storage server msg m)
        (scan_segment_callback-IsGood msgs) (insert_to_scan_storage-IsGood server msg m g)

  arrive-IsGood : (a : Arrival V) (m : Manager V) → IsGood m → IsGood (arrive a m)
  unfolding arrive
  arrive-IsGood (scan_status server msg) m g = update_scan_storage_with_status-IsGood server msg m g
  arrive-IsGood (scan_segments msgs) m g = scan_segment_callback-IsGood msgs m g

  arrive_all-IsGood :
      (arrivals : List (Arrival V)) (m : Manager V) → IsGood m → IsGood (arrive_all arrivals m)
  unfolding arrive_all
  arrive_all-IsGood [] m g = g
  arrive_all-IsGood (a ∷ arrivals) m g =
      arrive_all-IsGood arrivals (arrive a m) (arrive-IsGood a m g)

  -- Whatever statuses and segments arrive at a new manager, and in which order, every scan that is
  -- written to a file is finished and, if it enforces synchronisation, has as many points as its
  -- closing status announced, none of them twice.
  pub arrive_all-IsComplete :
      (arrivals : List (Arrival V))
      → All IsComplete (arrive_all arrivals file_writer_manager).written
  arrive_all-IsComplete arrivals =
      (arrive_all-IsGood arrivals file_writer_manager
        (record { complete = tt; points = tt })).complete
