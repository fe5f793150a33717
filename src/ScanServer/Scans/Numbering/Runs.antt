-- ===== src/ScanServer/Scans/Numbering/Runs.antt =====
-- Every class of scan (scan_server/scan_server/scans.py) numbers its messages without a gap.
use bec.Prelude.{nat_eq, String, false, ◌≡◌, string_eq}
use bec.Prelude.Dict.{has}
use bec.ScanServer.Scans.Effects.{
  Field, Request, Settings, StatusReply, Run, waits, self, modify, when, or_else, for_each,
  for_range, yield_none, ◌>>=◌, ◌>>◌,
}
use bec.ScanServer.Scans.Effects
use bec.ScanServer.Scans.Stubs
use bec.ScanServer.Scans.Base
use bec.ScanServer.Scans.Base.{Library, Entry, row, scalar}
use bec.ScanServer.Scans.Core
use bec.ScanServer.Scans.Kinds
use bec.ScanServer.Scans.Kinds.{Methods}
use bec.ScanServer.Scans.Hoare.{Keeps, run_rules}
use bec.ScanServer.Scans.Numbering.{IsNumbered, yield_none-Keeps}
use bec.ScanServer.Scans.Numbering.Yields.{
  close_scan-Keeps, stage-Keeps, unstage-Keeps, pre_scan-Keeps, baseline_reading-Keeps,
  open_scan-Keeps, send_rpc_and_wait-Keeps,
}
use bec.ScanServer.Scans.Numbering.Steps.{
  check_limits-Keeps, read_scan_motors-Keeps, move_to-Keeps, at_each_point-Keeps, scan_core-Keeps,
  finalize-Keeps,
}

module _ {V : Type 0} (P : Request V → Type 0) where
  pub waits-Keeps : Keeps {A = Unit {0}} P waits
  waits-Keeps s p = p

module _ {V : Type 0} (lib : Library V) (s : Settings V)
    (fresh : has "DIID" s.metadata ≡ false) where
  value_of-Keeps : (dev : String) (v : Stubs.Returned V) → Keeps IsNumbered (Base.value_of dev v)
  unfolding Base.value_of
  value_of-Keeps dev (Stubs.plain (Effects.readings d)) = search run_rules
  value_of-Keeps dev (Stubs.plain (Effects.status_dict r)) = search run_rules
  value_of-Keeps dev (Stubs.plain (Effects.object n)) = search run_rules
  value_of-Keeps dev (Stubs.status_of r) = search run_rules

  pub set_position_offset-Keeps : Keeps IsNumbered (Base.set_position_offset lib s)
  unfolding Base.set_position_offset Base.read_start Base.offset_positions
  set_position_offset-Keeps =
      search (run_rules, send_rpc_and_wait-Keeps s fresh, value_of-Keeps) depth 14 fits 3000

  pub prepare_positions-Keeps :
      (calculate : Run V (Unit {0}))
      → Keeps IsNumbered calculate
      → Keeps IsNumbered (Base.prepare_positions lib s calculate)
  unfolding Base.prepare_positions Base.optimize_trajectory
  prepare_positions-Keeps calculate h =
      search (run_rules, set_position_offset-Keeps, check_limits-Keeps) depth 14 fits 3000

  pub run-Keeps :
      (c : Methods V)
      → Keeps IsNumbered c.read_scan_motors
      → Keeps IsNumbered c.prepare_positions
      → Keeps IsNumbered c.scan_core
      → Keeps IsNumbered c.finalize
      → Keeps IsNumbered (Kinds.run s c)
  unfolding Kinds.run Core.open_scan Core.stage Core.run_baseline_reading Core.pre_scan Core.unstage
      Core.cleanup Core.close_scan Core.move_and_wait
  run-Keeps c h1 h2 h3 h4 =
      search
        (
          run_rules,
          h1,
          h2,
          h3,
          h4,
          yield_none-Keeps,
          open_scan-Keeps s fresh,
          stage-Keeps s fresh,
          baseline_reading-Keeps s fresh,
          pre_scan-Keeps s fresh,
          move_to-Keeps s fresh,
          unstage-Keeps s fresh,
          close_scan-Keeps s fresh,
        )
        depth 20 fits 4000

  pub step_scan-Keeps :
      (calculate : Run V (Unit {0}))
      → Keeps IsNumbered calculate
      → Keeps IsNumbered (Kinds.run s (Kinds.step_scan lib s calculate))
  unfolding Kinds.step_scan
  step_scan-Keeps calculate h =
      run-Keeps (Kinds.step_scan lib s calculate) (read_scan_motors-Keeps s fresh)
        (prepare_positions-Keeps calculate h)
        (scan_core-Keeps s fresh _ (at_each_point-Keeps s fresh)) (finalize-Keeps s fresh)
