-- ===== src/ScanServer/Scans/Numbering/Steps.antt =====
-- The steps of a scan (scan_server/scan_server/scans.py) keep the numbering of its messages.
use bec.Prelude.{ℕ, suc, String, none, some, false, List, [], ◌∷◌, ◌≡◌, string_eq}
use bec.Prelude.Dict.{has}
use bec.ScanServer.Scans.Effects.{nowhere, Request, Settings, Run}
use bec.ScanServer.Scans.Base
use bec.ScanServer.Scans.Base.{Library, Entry, row, scalar}
use bec.ScanServer.Scans.Core
use bec.ScanServer.Scans.Hoare.{Keeps, run_rules}
use bec.ScanServer.Scans.Numbering.{IsNumbered}
use bec.ScanServer.Scans.Numbering.Yields.{
  trigger-Keeps, wait-Keeps, read-Keeps, read_and_wait-Keeps, set_one-Keeps,
}

module _ {V : Type 0} (P : Request V → Type 0) (lib : Library V) where
  -- What checks positions yields nothing.
  check_axis-Keeps :
      (low high : V) (dev : String) (i : ℕ) (ps : List (Entry V))
      → Keeps P (Base.check_axis lib low high dev i ps)
  unfolding Base.check_axis
  check_axis-Keeps low high dev i [] = search run_rules
  check_axis-Keeps low high dev i (scalar v ∷ ps) = search run_rules
  check_axis-Keeps low high dev i (row r ∷ ps) =
      search (run_rules, check_axis-Keeps low high dev i ps)

  check_motors-Keeps :
      (ps : List (Entry V)) (i : ℕ) (devs : List String) → Keeps P (Base.check_motors lib ps i devs)
  unfolding Base.check_motors
  check_motors-Keeps ps i [] = search run_rules
  check_motors-Keeps ps i (dev ∷ devs) =
      search (run_rules, check_axis-Keeps, check_motors-Keeps ps (suc i) devs)

  pub check_limits-Keeps : Keeps P (Base.check_limits lib)
  unfolding Base.check_limits
  check_limits-Keeps = search (run_rules, check_motors-Keeps)

module _ {V : Type 0} (scan : Settings V) (fresh : has "DIID" scan.metadata ≡ false) where
  pub read_scan_motors-Keeps : Keeps IsNumbered (Base.read_scan_motors scan)
  unfolding Base.read_scan_motors
  read_scan_motors-Keeps = search (run_rules, read_and_wait-Keeps scan fresh)

  pub wait_for_primary-Keeps : Keeps IsNumbered (Core.wait_for_primary scan)
  unfolding Core.wait_for_primary
  wait_for_primary-Keeps =
      wait-Keeps scan fresh "read" nowhere (some "primary") (some "readout_primary") none

  pub move_to-Keeps : (pos : List V) → Keeps IsNumbered (Core.move_to scan pos)
  unfolding Core.move_to
  move_to-Keeps [] = search run_rules
  move_to-Keeps (v ∷ vs) = search (run_rules, set_one-Keeps scan fresh, wait-Keeps scan fresh)

  pub trigger_and_read-Keeps : Keeps IsNumbered (Core.trigger_and_read scan)
  unfolding Core.trigger_and_read
  trigger_and_read-Keeps =
      search (run_rules, trigger-Keeps scan fresh, wait-Keeps scan fresh, read-Keeps scan fresh)

  pub next_point-Keeps : Keeps IsNumbered (Core.next_point scan)
  next_point-Keeps = search run_rules

  pub at_each_point-Keeps :
      (ind : ℕ) (pos : Entry V) → Keeps IsNumbered (Core.at_each_point scan ind pos)
  unfolding Core.at_each_point Core.move_and_wait
  at_each_point-Keeps ind pos =
      search
        (
          run_rules,
          move_to-Keeps,
          wait_for_primary-Keeps,
          trigger_and_read-Keeps,
          wait-Keeps scan fresh,
          next_point-Keeps,
        )
        depth 14 fits 3000

  pub scan_core-Keeps :
      (at_point : ℕ → Entry V → Run V (Unit {0}))
      → ((i : ℕ) (p : Entry V) → Keeps IsNumbered (at_point i p))
      → Keeps IsNumbered (Core.scan_core scan at_point)
  unfolding Core.scan_core Core.burst
  scan_core-Keeps at_point h = search (run_rules, h) depth 14 fits 3000

  pub finalize-Keeps : Keeps IsNumbered (Core.finalize scan)
  unfolding Core.finalize Core.return_to_start
  finalize-Keeps = search (run_rules, move_to-Keeps, wait_for_primary-Keeps)
