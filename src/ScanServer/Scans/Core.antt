-- ===== src/ScanServer/Scans/Core.antt =====
-- The steps of a scan (ScanBase in scan_server/scan_server/scans.py): its brackets, its moves and its
-- points.
use bec.Prelude.{ℕ, suc, String, Option, none, some, Bool, List, [], ◌∷◌, string_eq, option_eq, ltb}
use bec.ScanServer.Scans.Effects.{
  positions, nowhere, Settings, Run, ◌>>=◌, ◌>>◌, pure, self, modify, when, or_else, for_each,
  for_range,
}
use bec.ScanServer.Scans.Stubs
use bec.ScanServer.Scans.Stubs.{Returned, plain, status_of}
use bec.ScanServer.Scans.Base.{Entry, row, scalar, entries}

abbrev pub first : {A : Type 0} → List A → Option A
first [] = none
first (a ∷ l) = some a

module _ {V : Type 0} (scan : Settings V) where
  -- open_scan, by the class's scan_type.
  unfoldable pub open_scan : String → Run V (Unit {0})
  unfolding Stubs.open_scan
  open_scan scan_type = self >>= λ s.
      Stubs.open_scan scan s.scan_motors scan.readout_priority s.num_pos scan.scan_name scan_type
        (positions s.positions.rows s.positions.scalars)

  unfoldable pub stage : Run V (Unit {0})
  unfolding Stubs.stage
  stage = Stubs.stage scan

  unfoldable pub run_baseline_reading : Run V (Unit {0})
  unfolding Stubs.baseline_reading
  run_baseline_reading = Stubs.baseline_reading scan

  unfoldable pub unstage : Run V (Unit {0})
  unfolding Stubs.unstage
  unstage = Stubs.unstage scan

  unfoldable pub close_scan : Run V (Unit {0})
  unfolding Stubs.close_scan
  close_scan = Stubs.close_scan scan

  unfoldable pub cleanup : Run V (Unit {0})
  unfolding close_scan
  cleanup = close_scan

  -- A single value is put into a list.
  abbrev pub coordinates : Entry V → List V
  coordinates (row r) = r
  coordinates (scalar v) = v ∷ []

  -- `_move_and_wait`
  unfoldable pub move_to : List V → Run V (Unit {0})
  unfolding for_each Stubs.set_one Stubs.wait
  move_to [] = pure tt
  move_to (v ∷ vs) =
      (self >>= λ s. for_each s.scan_motors 0 (Stubs.set_one scan (v ∷ vs)))
      >> Stubs.wait scan "move" nowhere (some "scan_motor") (some "scan_motor") none

  unfoldable pub move_and_wait : Entry V → Run V (Unit {0})
  unfolding move_to
  move_and_wait pos = move_to (coordinates pos)

  unfoldable pub wait_for_primary : Run V (Unit {0})
  unfolding Stubs.wait
  wait_for_primary = Stubs.wait scan "read" nowhere (some "primary") (some "readout_primary") none

  abbrev pub next_point : Run V (Unit {0})
  next_point = modify (λ s. record s { point_id = suc s.point_id })

  -- The trigger of a point, its wait and the reading, which three classes have alike.
  unfoldable pub trigger_and_read : Run V (Unit {0})
  unfolding Stubs.trigger Stubs.wait Stubs.read
  trigger_and_read =
      (self >>= λ s. Stubs.trigger scan "trigger" s.point_id)
      >> Stubs.wait scan "trigger" nowhere (some "trigger") none (some scan.exp_time)
      >> (self >>= λ s.
          Stubs.read scan "readout_primary" nowhere (some s.point_id) (some "primary"))

  -- `_at_each_point` of the point with this index.
  unfoldable pub at_each_point : ℕ → Entry V → Run V (Unit {0})
  unfolding move_and_wait wait_for_primary trigger_and_read Stubs.wait
  at_each_point ind pos =
      move_and_wait pos
      >> when (ltb 0 ind) wait_for_primary
      >> trigger_and_read
      >> Stubs.wait scan "read" nowhere (some "scan_motor") (some "readout_primary") none
      >> next_point

  -- The bursts at one point.
  unfoldable pub burst : (ℕ → Entry V → Run V (Unit {0})) → ℕ → Entry V → Run V (Unit {0})
  unfolding for_range
  burst at_point ind pos =
      for_range scan.burst_at_each_point 0
        (λ k. modify (λ s. record s { burst_index = k }) >> at_point ind pos)
      >> modify (λ s. record s { burst_index = 0 })

  unfoldable pub scan_core : (ℕ → Entry V → Run V (Unit {0})) → Run V (Unit {0})
  unfolding for_each burst
  scan_core at_point = self >>= λ s. for_each (entries s.positions) 0 (burst at_point)

  unfoldable pub return_to_start : Run V (Unit {0})
  unfolding move_to
  return_to_start = self >>= λ s. move_to s.start_pos

  unfoldable pub finalize : Run V (Unit {0})
  unfolding return_to_start wait_for_primary
  finalize = return_to_start >> wait_for_primary

  -- pre_scan, by the class's pre_move.
  unfoldable pub pre_scan : Bool → Run V (Unit {0})
  unfolding move_and_wait Stubs.pre_scan
  pre_scan pre_move =
      (self >>= λ s.
      or_else (first (entries s.positions)) (pure tt) (λ pos. when pre_move (move_and_wait pos)))
      >> Stubs.pre_scan scan
