-- ===== src/FileWriter/Manager.antt =====
-- FileWriterManager: its state, and how it handles statuses and segments
-- (file_writer/file_writer/file_writer_manager.py).
use bec.Prelude.{
  ℕ, String, Option, none, some, Bool, true, false, ◌&&◌, not, List, [], ◌∷◌, ◌++◌, ◌==◌, string_eq,
  option_eq, nat_eq, if◌then◌else◌, keep, is_some,
}
use bec.Prelude.Dict.{Dict, lookup, insert, erase}
use bec.FileWriter.Storage.{
  ScanStorage, new_storage, append, ready_to_write, update_all, or_time, update_async_data, Server,
  update_baseline_reading, update_file_references,
}

-- A FileMessage of the master file of a scan.
pub record FileMessage : Type 0 where
  pub scan_id : Option String
  pub file_path : ℕ
  pub done : Bool
  pub successful : Bool

-- The manager, with the calls of the file writer, the messages sent, and the metadata of the alarms.
pub record Manager (V : Type 0) : Type 0 where
  pub scan_storage : Dict (Option String) (ScanStorage V)
  pub written : List (ScanStorage V)
  pub sent : List FileMessage
  pub alarms : List (Dict String V)

-- The info of a status; num_points and enforce_sync are none where the info has no such key. `fields`
-- is all of it.
pub record StatusInfo (V : Type 0) : Type 0 where
  pub scan_number : Option ℕ
  pub num_points : Option ℕ
  pub enforce_sync : Option Bool
  pub fields : Dict String V

pub record ScanStatusMessage (V : Type 0) : Type 0 where
  pub scan_id : Option String
  pub status : String
  pub timestamp : ℕ
  pub info : StatusInfo V

pub record ScanMessage (V : Type 0) : Type 0 where
  pub scan_id : Option String
  pub scan_number : Option ℕ
  pub point_id : ℕ
  pub readings : V

-- What a call comes to.
pub data Handled (V : Type 0) : Type 0 where
  handled key_error : Manager V → Handled V

module _ {V : Type 0} where
  -- `write_file`
  unfoldable pub write_file : Server V → Option String → ScanStorage V → Manager V → Manager V
  unfolding erase
  write_file server i s m =
      let path = server.compile_full_filename s.scan_number in
      let successful = server.write s in
      record {
        scan_storage = erase i m.scan_storage;
        written = m.written ++ s ∷ [];
        sent =
            m.sent
            ++ record { scan_id = i; file_path = path; done = false; successful = true }
              ∷ record { scan_id = i; file_path = path; done = true; successful = successful }
              ∷ [];
        alarms = if successful then m.alarms else m.alarms ++ s.metadata ∷ [];
      }

  abbrev pub store : Option String → ScanStorage V → Manager V → Manager V
  store i s m = record m { scan_storage = insert i s m.scan_storage }

  -- `check_storage_status` of a scan that is stored.
  unfoldable pub check_stored : Server V → Option String → ScanStorage V → Manager V → Handled V
  unfolding update_async_data update_baseline_reading update_file_references write_file insert
  check_stored server i stored m =
      let s = update_file_references server i (update_baseline_reading server i stored) in
      let r = update_async_data (server.device_async_readback i) s in
      if ready_to_write s
      then (if r.1
          then handled (write_file server i r.0 (store i r.0 m))
          else key_error (store i r.0 m))
      else handled (store i s m)

  unfoldable pub check_storage_status : Server V → Option String → Manager V → Handled V
  unfolding check_stored lookup
  check_storage_status server i m = elim (lookup i m.scan_storage) [
    | none ↦ handled m
    | some s ↦ check_stored server i s m
  ]

  -- The storage of a scan, a new one where there is none.
  unfoldable pub get_storage : Option String → Option ℕ → Manager V → ScanStorage V
  unfolding lookup new_storage
  get_storage i n m = elim (lookup i m.scan_storage) [ none ↦ new_storage n i | some s ↦ s ]

  -- The metadata and the time of an open scan.
  unfoldable pub take_status : ScanStatusMessage V → ScanStorage V → ScanStorage V
  unfolding insert
  take_status msg s = record s {
    metadata =
        update_all (keep (λ f. not (f.0 == "DIID") && not (f.0 == "stream")) msg.info.fields)
          s.metadata;
    start_time = if msg.status == "open" then or_time s.start_time msg.timestamp else s.start_time;
  }

  -- The end of a closed scan, up to the fields of the info.
  unfoldable pub close : ScanStatusMessage V → ScanStorage V → ScanStorage V
  close msg s = record s { end_time = or_time s.end_time msg.timestamp; scan_finished = true }

  -- num_points and enforce_sync of the info, and the check.
  unfoldable pub close_scan : Server V → ScanStatusMessage V → ScanStorage V → Manager V → Handled V
  unfolding check_storage_status
  close_scan server msg s m = elim (msg.info.num_points) [
    | none ↦ key_error (store msg.scan_id s m)
    | some n ↦ elim (msg.info.enforce_sync) [
      | none ↦ key_error (store msg.scan_id (record s { num_points = some n }) m)
      | some b ↦
          check_storage_status server msg.scan_id
            (store msg.scan_id (record s { num_points = some n; enforce_sync = b }) m)
    ]
  ]

  unfoldable pub update_scan_storage_with_status :
      Server V → ScanStatusMessage V → Manager V → Handled V
  unfolding get_storage take_status close close_scan
  update_scan_storage_with_status server msg m =
      let s = take_status msg (get_storage msg.scan_id msg.info.scan_number m) in
      if msg.status == "closed"
      then close_scan server msg (close msg s) m
      else handled (store msg.scan_id s m)

  unfoldable pub insert_to_scan_storage : Server V → ScanMessage V → Manager V → Handled V
  unfolding get_storage append check_storage_status
  insert_to_scan_storage server msg m =
      if not (is_some msg.scan_id)
      then handled m
      else check_storage_status server msg.scan_id (
          store msg.scan_id
            (append msg.point_id msg.readings (get_storage msg.scan_id msg.scan_number m)) m)

  -- The callbacks, each call with its surroundings. A KeyError ends the loop over the segments.
  unfoldable pub scan_segment_callback : List (Server V × ScanMessage V) → Manager V → Handled V
  unfolding insert_to_scan_storage
  scan_segment_callback [] m = handled m
  scan_segment_callback ((server, msg) ∷ msgs) m = elim (insert_to_scan_storage server msg m) [
    | handled m' ↦ scan_segment_callback msgs m'
    | key_error m' ↦ key_error m'
  ]

  abbrev pub state : Handled V → Manager V
  state (handled m) = m
  state (key_error m) = m

-- What arrives at the manager.
pub data Arrival (V : Type 0) : Type 0 where
  scan_status : Server V → ScanStatusMessage V → Arrival V
  scan_segments : List (Server V × ScanMessage V) → Arrival V

module _ {V : Type 0} where
  unfoldable pub arrive : Arrival V → Manager V → Manager V
  unfolding update_scan_storage_with_status scan_segment_callback
  arrive (scan_status server msg) m = state (update_scan_storage_with_status server msg m)
  arrive (scan_segments msgs) m = state (scan_segment_callback msgs m)

  unfoldable pub arrive_all : List (Arrival V) → Manager V → Manager V
  unfolding arrive
  arrive_all [] m = m
  arrive_all (a ∷ rest) m = arrive_all rest (arrive a m)

  abbrev pub file_writer_manager : Manager V
  file_writer_manager = record { scan_storage = []; written = []; sent = []; alarms = [] }
