-- ===== src/ScanServer/Scans/Flyers.antt =====
-- The scans of flyers and of moving motors (scan_server/scan_server/scans.py), whose cores wait for
-- what Redis says: FlyScanBase, RoundScanFlySim, MonitorScan and ContLineScan.
use bec.Prelude.{
  ℕ, zero, suc, ◌-◌, ◌*◌, String, Option, none, some, Bool, true, false, ◌&&◌, List, [], ◌∷◌, ◌==◌,
  string_eq, option_eq, nat_eq, if◌then◌else◌, get_elem?, map, ltb,
}
use bec.Prelude.Dict.{Dict, lookup}
use bec.ScanServer.Scans.Effects.{
  Field, text, number, flag, value, opaque, configuration, one, nowhere, scan_abortion, value_error,
  index_error, type_error, key_error, Request, Settings, StatusReply, waits, Run, ◌>>=◌, ◌>>◌, pure,
  fail, self, modify, yield_none, when, or_else,
}
use bec.ScanServer.Scans.Stubs
use bec.ScanServer.Scans.Base
use bec.ScanServer.Scans.Base.{Library, Entry, row, scalar, array, listed, entries, count}
use bec.ScanServer.Scans.Core
use bec.ScanServer.Scans.Kinds
use bec.ScanServer.Scans.Kinds.{Methods}
use bec.ScanServer.Scans.Positions.{Floats, Matrices, get_round_scan_positions}

-- The RID in the metadata, a text.
unfoldable pub rid_of : {V : Type 0} → Dict String (Field V) → Option String
unfolding lookup
rid_of d = elim (lookup "RID" d) [ some (text r) ↦ some r | _ ↦ none ]

-- self.scan_motors[0]
abbrev pub first_motor : {V : Type 0} → Run V String
first_motor = self >>= λ s. or_else (Core.first s.scan_motors) (fail index_error) pure

-- `if progress: self.num_pos = progress`
abbrev pub note_progress : {V : Type 0} → Option ℕ → Request V → Request V
note_progress none s = s
note_progress (some zero) s = s
note_progress (some (suc n)) s = record s { num_pos = some (suc n) }

-- The positions' entry i, and its first coordinate.
abbrev pub first_of : {V : Type 0} → Option (Entry V) → Run V V
first_of none = fail index_error
first_of (some (scalar v)) = fail type_error
first_of (some (row [])) = fail index_error
first_of (some (row (v ∷ vs))) = pure v

abbrev pub last_of : {V : Type 0} → List (Entry V) → Option (Entry V)
last_of [] = none
last_of (p ∷ []) = some p
last_of (p ∷ q ∷ ps) = last_of (q ∷ ps)

-- Is the flyer idle, after this request and instruction?
abbrev pub is_idle : Option String → ℕ → Option StatusReply → Bool
is_idle rid diid none = false
is_idle rid diid (some m) = (m.status == 0 && rid == m.rid) && some diid == m.diid

module _ {V : Type 0} where
  -- The loop of FlyScanBase.scan_core, on the polls: a request status and a progress each time.
  unfoldable pub await_flyer : Option String → ℕ → List (Option StatusReply) → Run V (Unit {0})
  unfolding Stubs.get_req_status Stubs.get_device_progress
  await_flyer rid diid [] = waits
  await_flyer rid diid (status ∷ []) = waits
  await_flyer rid diid (status ∷ progress ∷ polls) =
      let rest = await_flyer rid diid polls in
      modify (λ s. record (note_progress (Stubs.get_device_progress progress rid) s) {
        statuses = polls;
      })
      >> (if Stubs.get_req_status status rid diid == 0 then rest else pure tt)

  -- The loop of RoundScanFlySim.scan_core: it reads, and then polls.
  unfoldable pub read_until_idle :
      Settings V → Option String → ℕ → List (Option StatusReply) → Run V (Unit {0})
  unfolding Stubs.read_and_wait
  read_until_idle scan rid diid [] =
      Stubs.read_and_wait scan "readout_primary" nowhere (some "primary") none >> waits
  read_until_idle scan rid diid (status ∷ polls) =
      let rest = read_until_idle scan rid diid polls in
      Stubs.read_and_wait scan "readout_primary" nowhere (some "primary") none
      >> modify (λ s. record s { statuses = polls })
      >> (if is_idle rid diid status then pure tt else rest)

  -- The loop of MonitorScan.scan_core: it publishes each readback until the move is completed.
  unfoldable pub publish_readbacks : Settings V → String → List (Bool × Option ℕ) → Run V (Unit {0})
  unfolding Stubs.publish_data_as_read
  publish_readbacks scan flyer [] = waits
  publish_readbacks scan flyer ((true, r) ∷ polls) = modify (λ s. record s { flyer_polls = polls })
  publish_readbacks scan flyer ((false, none) ∷ polls) = publish_readbacks scan flyer polls
  publish_readbacks scan flyer ((false, some r) ∷ polls) =
      (self >>= λ s. Stubs.publish_data_as_read scan flyer r s.point_id)
      >> modify (λ s. record s {
        point_id = suc s.point_id;
        num_pos = elim (s.num_pos) [ none ↦ none | some n ↦ some (suc n) ];
      })
      >> publish_readbacks scan flyer polls

  -- ContLineScan._at_each_point
  unfoldable pub line_point : Settings V → Run V (Unit {0})
  unfolding Stubs.trigger Stubs.read
  line_point scan =
      (self >>= λ s. Stubs.trigger scan "trigger" s.point_id)
      >> (self >>= λ s. Stubs.read scan "primary" nowhere (some s.point_id) (some "primary"))
      >> Core.next_point scan

  -- The loop of ContLineScan.scan_core, on the motor's readbacks.
  unfoldable pub follow_motor :
      Settings V → (V → V → Bool) → (V → V → Bool) → List (Option V) → Run V (Unit {0})
  unfolding line_point
  follow_motor scan is_close ltb_v [] =
      self >>= λ s. if ltb s.point_id (count s.positions) then waits else pure tt
  follow_motor scan is_close ltb_v (r ∷ rs) =
      let rest = follow_motor scan is_close ltb_v rs in
      self >>= λ s. when (ltb s.point_id (count s.positions)) (
        or_else r rest (λ v. first_of (get_elem? (entries s.positions) s.point_id) >>= λ target.
        if is_close v target
        then line_point scan >> rest
        else if ltb_v target v
        then fail scan_abortion
        else rest))

module _ {V : Type 0} (lib : Library V) (scan : Settings V) where
  -- FlyScanBase.scan_core
  unfoldable pub fly_core : Run V (Unit {0})
  unfolding Stubs.kickoff Stubs.complete await_flyer
  fly_core =
      (first_motor >>= λ m. Stubs.kickoff scan m (opaque scan.caller_kwargs))
      >> (first_motor >>= λ m. Stubs.complete scan m)
      >> or_else (rid_of scan.metadata) (fail key_error)
          (λ rid. self >>= λ s. await_flyer (some rid) (s.diid - 1) s.statuses)

  unfoldable pub fly_scan_base : Methods V
  unfolding fly_core Core.finalize
  fly_scan_base = record {
    scan_type = "fly";
    pre_move = false;
    read_scan_motors = yield_none;
    prepare_positions = yield_none;
    scan_core = fly_core;
    finalize = Core.finalize scan;
  }

  -- The positions of RoundScanFlySim.
  unfoldable pub round_fly_positions :
      Floats V → Dict String (List (Field V)) → Option (Option (List (List V)))
  unfolding get_round_scan_positions
  round_fly_positions float ((d, value r_in ∷ value r_out ∷ number nr ∷ number nth ∷ r) ∷ l) =
      some
        (get_round_scan_positions float r_in r_out nr nth (float.decimal 0 0) (float.decimal 0 0))
  round_fly_positions float _ = none

  -- RoundScanFlySim._calculate_positions
  unfoldable pub calculate_round_fly : Floats V → Run V (Unit {0})
  unfolding round_fly_positions
  calculate_round_fly float = Kinds.set_divided float (round_fly_positions float scan.caller_args)

  -- RoundScanFlySim.prepare_positions
  unfoldable pub prepare_round_fly : Floats V → Run V (Unit {0})
  unfolding calculate_round_fly Base.check_limits
  prepare_round_fly float =
      calculate_round_fly float
      >> modify (λ s. record s { num_pos = some (count s.positions * scan.burst_at_each_point) })
      >> Base.check_limits lib
      >> yield_none

  unfoldable pub round_fly_core : Run V (Unit {0})
  unfolding Stubs.kickoff read_until_idle
  round_fly_core =
      (first_motor >>= λ flyer. self >>= λ s.
      Stubs.kickoff scan flyer (configuration s.num_pos s.positions.rows scan.exp_time))
      >> (self >>= λ s. read_until_idle scan (rid_of scan.metadata) (s.diid - 1) s.statuses)

  unfoldable pub round_scan_fly_sim : Floats V → Methods V
  unfolding Base.read_scan_motors prepare_round_fly round_fly_core
  round_scan_fly_sim float = record {
    scan_type = "fly";
    pre_move = false;
    read_scan_motors = Base.read_scan_motors scan;
    prepare_positions = prepare_round_fly float;
    scan_core = round_fly_core;
    finalize = yield_none;
  }

  -- The numbers of each motor's arguments.
  abbrev pub number_lists : Dict String (List (Field V)) → Option (List (List V))
  number_lists [] = some []
  number_lists ((d, a) ∷ args) = elim (Kinds.start_stop a) [
    | none ↦ none
    | some (from, to) ↦ elim (number_lists args) [
      | none ↦ none
      | some ls ↦ some ((from ∷ to ∷ []) ∷ ls)
    ]
  ]

  -- MonitorScan._calculate_positions, which gives a Python list
  unfoldable pub calculate_monitor : Run V (Unit {0})
  unfolding Kinds.zip
  calculate_monitor =
      or_else (number_lists scan.caller_args) (fail value_error)
        (λ ls. Kinds.set_rows (listed (Kinds.zip ls)))

  -- MonitorScan.prepare_positions
  unfoldable pub prepare_monitor : Run V (Unit {0})
  unfolding calculate_monitor Base.set_position_offset Base.check_limits
  prepare_monitor =
      calculate_monitor
      >> modify (λ s. record s { num_pos = some 0 })
      >> Base.set_position_offset lib scan
      >> Base.check_limits lib

  -- MonitorScan.scan_core, of its one motor.
  unfoldable pub monitor_core : String → Run V (Unit {0})
  unfolding Stubs.set Stubs.wait publish_readbacks
  monitor_core flyer =
      (self >>= λ s.
      first_of (get_elem? (entries s.positions) 0) >>= λ v. Stubs.set scan flyer v "scan_motor" [])
      >> Stubs.wait scan "move" (one flyer) none (some "scan_motor") none
      >> (self >>= λ s. first_of (get_elem? (entries s.positions) 1) >>= λ v.
          Stubs.set scan flyer v "scan_motor" (("response", flag true) ∷ []))
      >> or_else (rid_of scan.metadata) (fail key_error)
          (λ rid. self >>= λ s. publish_readbacks scan flyer s.flyer_polls)

  unfoldable pub monitor_scan : String → Methods V
  unfolding Base.read_scan_motors prepare_monitor monitor_core Core.finalize
  monitor_scan flyer = record {
    scan_type = "fly";
    pre_move = true;
    read_scan_motors = Base.read_scan_motors scan;
    prepare_positions = prepare_monitor;
    scan_core = monitor_core flyer;
    finalize = Core.finalize scan;
  }

  -- ContLineScan.scan_core; `shift` subtracts the offset from a coordinate.
  unfoldable pub cont_line_core : (V → V) → (V → V → Bool) → (V → V → Bool) → Run V (Unit {0})
  unfolding Core.move_to Stubs.set follow_motor
  cont_line_core shift is_close ltb_v =
      (self >>= λ s.
      or_else (Core.first s.positions.rows) (fail index_error)
        (λ r. Core.move_to scan (map shift r)))
      >> (first_motor >>= λ m. self >>= λ s.
          first_of (last_of (entries s.positions)) >>= λ v. Stubs.set scan m v "scan_motor" [])
      >> (self >>= λ s. follow_motor scan is_close ltb_v s.readbacks)

  unfoldable pub cont_line_scan :
      Matrices V → ℕ → (V → V) → (V → V → Bool) → (V → V → Bool) → Methods V
  unfolding Base.read_scan_motors Base.prepare_positions Kinds.calculate_line cont_line_core
      Core.finalize
  cont_line_scan np steps shift is_close ltb_v = record {
    scan_type = "step";
    pre_move = true;
    read_scan_motors = Base.read_scan_motors scan;
    prepare_positions = Base.prepare_positions lib scan (Kinds.calculate_line np scan steps);
    scan_core = cont_line_core shift is_close ltb_v;
    finalize = Core.finalize scan;
  }
