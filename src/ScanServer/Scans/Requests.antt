-- ===== src/ScanServer/Scans/Requests.antt =====
-- The scans without positions and the other requests (scan_server/scan_server/scans.py): moves,
-- time scans, acquisitions, the interactive scan, and the requests of one instruction.
use bec.Prelude.{
  ℕ, String, Option, none, some, Bool, true, false, List, [], ◌∷◌, string_eq, option_eq, nat_eq,
  get_elem?, ltb,
}
use bec.Prelude.Dict.{Dict, lookup}
use bec.ScanServer.Scans.Effects.{
  Field, text, flag, value, readback, one, nowhere, index_error, type_error, key_error, Settings,
  Run, ◌>>=◌, ◌>>◌, pure, fail, self, modify, yield_none, when, or_else, for_each, for_range,
}
use bec.ScanServer.Scans.Stubs
use bec.ScanServer.Scans.Base
use bec.ScanServer.Scans.Base.{Library, Entry, row, scalar, array, listed, entries, count}
use bec.ScanServer.Scans.Core
use bec.ScanServer.Scans.Kinds
use bec.ScanServer.Scans.Kinds.{Methods}

-- val[0] of each motor's arguments
abbrev pub first_values : {V : Type 0} → Dict String (List (Field V)) → Option (List V)
first_values [] = some []
first_values ((d, value v ∷ r) ∷ args) = elim (first_values args) [
  | none ↦ none
  | some vs ↦ some (v ∷ vs)
]
first_values ((d, _) ∷ args) = none

-- self.positions[0]
abbrev pub first_row : {V : Type 0} → Run V (List V)
first_row = self >>= λ s. or_else (Core.first s.positions.rows) (fail index_error) pure

module _ {V : Type 0} (scan : Settings V) where
  -- Move._calculate_positions
  unfoldable pub calculate_move : Run V (Unit {0})
  calculate_move =
      or_else (first_values scan.caller_args) (fail index_error)
        (λ vs. Kinds.set_rows (array (vs ∷ [])))

  -- The set of one motor to its target, with the metadata of the message.
  unfoldable pub set_target : Dict String (Field V) → ℕ → String → Run V (Unit {0})
  unfolding Stubs.set
  set_target metadata i motor = first_row >>= λ r.
      or_else (get_elem? r i) (fail index_error) (λ v. Stubs.set scan motor v "scan_motor" metadata)

  -- Move._at_each_point
  unfoldable pub move_point : Run V (Unit {0})
  unfolding for_each set_target
  move_point = self >>= λ s. for_each s.scan_motors 0 (set_target (("response", flag true) ∷ []))

  -- UpdatedMove._at_each_point
  unfoldable pub updated_move_point : Run V (Unit {0})
  unfolding for_each set_target Stubs.wait
  updated_move_point =
      (self >>= λ s. for_each s.scan_motors 0 (set_target []))
      >> (self >>= λ s.
          for_each s.scan_motors 0
            (λ i motor. Stubs.wait scan "move" (one motor) none (some "scan_motor") none))

  -- Move.scan_report_instructions, by whether the class has a report hint.
  unfoldable pub report_move : Bool → Run V (Unit {0})
  unfolding Stubs.scan_report_instruction
  report_move false = yield_none
  report_move true = or_else (lookup "RID" scan.metadata) (fail key_error) (λ rid. self >>= λ s.
      first_row >>= λ end.
      Stubs.scan_report_instruction scan
        (("readback", readback rid s.scan_motors s.start_pos end) ∷ []))

  -- Move.prepare_positions
  unfoldable pub prepare_move : Library V → Run V (Unit {0})
  unfolding calculate_move Base.set_position_offset Base.check_limits
  prepare_move lib = calculate_move >> Base.set_position_offset lib scan >> Base.check_limits lib

  -- Move.run
  unfoldable pub move : Library V → Run V (Unit {0})
  unfolding prepare_move report_move move_point
  move lib = prepare_move lib >> report_move false >> move_point

  -- run of UpdatedMove
  unfoldable pub updated_move : Library V → Run V (Unit {0})
  unfolding prepare_move report_move updated_move_point
  updated_move lib = prepare_move lib >> report_move true >> updated_move_point

  -- TimeScan._at_each_point, by what is left of the interval.
  unfoldable pub time_point : V → ℕ → Run V (Unit {0})
  unfolding Core.wait_for_primary Core.trigger_and_read Stubs.wait
  time_point interval ind =
      when (ltb 0 ind) (Core.wait_for_primary scan)
      >> Core.trigger_and_read scan
      >> Stubs.wait scan "trigger" nowhere (some "trigger") none (some interval)
      >> Core.next_point scan

  unfoldable pub time_core : V → Run V (Unit {0})
  unfolding for_range time_point
  time_core interval =
      self >>= λ s. or_else s.num_pos (fail type_error) (λ n. for_range n 0 (time_point interval))

  unfoldable pub time_scan : ℕ → V → Methods V
  unfolding Base.read_scan_motors time_core Core.finalize
  time_scan points interval = record {
    scan_type = "step";
    pre_move = true;
    read_scan_motors = Base.read_scan_motors scan;
    prepare_positions = modify (λ s. record s { num_pos = some points }) >> yield_none;
    scan_core = time_core interval;
    finalize = Core.finalize scan;
  }

  -- Acquire._at_each_point
  unfoldable pub acquire_point : ℕ → Run V (Unit {0})
  unfolding Core.wait_for_primary Core.trigger_and_read
  acquire_point ind =
      when (ltb 0 ind) (Core.wait_for_primary scan)
      >> Core.trigger_and_read scan
      >> Core.next_point scan

  -- Acquire.scan_core
  unfoldable pub acquire_core : Run V (Unit {0})
  unfolding for_range acquire_point
  acquire_core =
      for_range scan.burst_at_each_point 0
        (λ k. modify (λ s. record s { burst_index = k }) >> acquire_point k)
      >> modify (λ s. record s { burst_index = 0 })

  -- Acquire.run
  unfoldable pub acquire : Run V (Unit {0})
  unfolding acquire_core Core.open_scan Core.stage Core.run_baseline_reading Core.finalize
      Core.unstage Core.cleanup
  acquire =
      modify (λ s. record s { num_pos = some scan.burst_at_each_point })
      >> Core.open_scan scan "step"
      >> Core.stage scan
      >> Core.run_baseline_reading scan
      >> acquire_core
      >> Core.finalize scan
      >> Core.unstage scan
      >> Core.cleanup scan

  -- OpenInteractiveScan.run
  unfoldable pub open_interactive_scan : Run V (Unit {0})
  unfolding Stubs.open_scan_def Base.read_scan_motors Core.open_scan Core.stage
      Core.run_baseline_reading
  open_interactive_scan =
      Stubs.open_scan_def scan
      >> Base.read_scan_motors scan
      >> Core.open_scan scan "step"
      >> Core.stage scan
      >> Core.run_baseline_reading scan

  -- AddInteractiveScanPoint._at_each_point
  unfoldable pub interactive_point : Run V (Unit {0})
  unfolding Stubs.trigger Stubs.wait Stubs.read_and_wait
  interactive_point =
      (self >>= λ s. Stubs.trigger scan "trigger" s.point_id)
      >> Stubs.wait scan "trigger" nowhere (some "trigger") none (some scan.exp_time)
      >> (self >>= λ s.
          Stubs.read_and_wait scan "readout_primary" nowhere (some "primary") (some s.point_id))
      >> Core.next_point scan

  -- AddInteractiveScanPoint.run
  unfoldable pub add_interactive_scan_point : Run V (Unit {0})
  unfolding Core.open_scan interactive_point Core.close_scan
  add_interactive_scan_point =
      Core.open_scan scan "step" >> interactive_point >> Core.close_scan scan

  -- CloseInteractiveScan.run
  unfoldable pub close_interactive_scan : Run V (Unit {0})
  unfolding Core.finalize Core.unstage Core.cleanup Stubs.close_scan_def
  close_interactive_scan =
      Core.finalize scan >> Core.unstage scan >> Core.cleanup scan >> Stubs.close_scan_def scan

  -- OpenScanDef.run, CloseScanDef.run and CloseScanGroup.run
  unfoldable pub open_scan_def : Run V (Unit {0})
  unfolding Stubs.open_scan_def
  open_scan_def = Stubs.open_scan_def scan

  unfoldable pub close_scan_def : Run V (Unit {0})
  unfolding Stubs.close_scan_def
  close_scan_def = Stubs.close_scan_def scan

  unfoldable pub close_scan_group : Run V (Unit {0})
  unfolding Stubs.close_scan_group
  close_scan_group = Stubs.close_scan_group scan

  -- DeviceRPC.run, on the request's parameter.
  unfoldable pub device_rpc : Dict String (Field V) → Run V (Unit {0})
  unfolding Stubs.rpc
  device_rpc parameter =
      Stubs.rpc scan (elim (lookup "device" parameter) [ some (text d) ↦ one d | _ ↦ nowhere ])
        parameter []
