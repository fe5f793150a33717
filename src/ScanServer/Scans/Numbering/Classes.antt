-- ===== src/ScanServer/Scans/Numbering/Classes.antt =====
-- Every class of scan (scan_server/scan_server/scans.py) numbers its messages without a gap.
use bec.Prelude.{ℕ, nat_eq, String, Option, Bool, false, List, ◌≡◌, string_eq}
use bec.Prelude.Dict.{Dict, has}
use bec.ScanServer.Scans.Effects.{Field, Request, Settings}
use bec.ScanServer.Scans.Base.{Library}
use bec.ScanServer.Scans.Positions.{Floats, Matrices}
use bec.ScanServer.Scans.Core
use bec.ScanServer.Scans.Kinds
use bec.ScanServer.Scans.Kinds.{Methods}
use bec.ScanServer.Scans.Flyers
use bec.ScanServer.Scans.Requests
use bec.ScanServer.Scans.Hoare.{Keeps, On, run_rules}
use bec.ScanServer.Scans.Numbering.{IsNumbered, yield_none-Keeps}
use bec.ScanServer.Scans.Numbering.Yields.{
  close_scan-Keeps, stage-Keeps, unstage-Keeps, baseline_reading-Keeps, open_scan-Keeps,
  trigger-Keeps, wait-Keeps, read_and_wait-Keeps, set-Keeps, kickoff-Keeps, complete-Keeps,
  open_scan_def-Keeps, close_scan_def-Keeps, close_scan_group-Keeps, rpc-Keeps,
  scan_report_instruction-Keeps,
}
use bec.ScanServer.Scans.Numbering.Steps.{
  check_limits-Keeps, read_scan_motors-Keeps, wait_for_primary-Keeps, move_to-Keeps,
  trigger_and_read-Keeps, finalize-Keeps,
}
use bec.ScanServer.Scans.Classes.{World, ScanClass, run_class}
use bec.ScanServer.Scans.Numbering.Runs.{
  set_position_offset-Keeps, prepare_positions-Keeps, run-Keeps, step_scan-Keeps,
}
use bec.ScanServer.Scans.Numbering.Flights.{
  await_flyer-Keeps, read_until_idle-Keeps, publish_readbacks-Keeps, first_of-Keeps,
  follow_motor-Keeps, first_motor-Keeps,
}

module _ {V : Type 0} (lib : Library V) (s : Settings V)
    (fresh : has "DIID" s.metadata ≡ false) where
  fly_scan_base-Keeps : Keeps IsNumbered (Kinds.run s (Flyers.fly_scan_base lib s))
  unfolding Flyers.fly_scan_base Flyers.fly_core
  fly_scan_base-Keeps =
      run-Keeps lib s fresh (Flyers.fly_scan_base lib s) yield_none-Keeps yield_none-Keeps
        (search
          (
            run_rules,
            first_motor-Keeps s fresh,
            kickoff-Keeps s fresh,
            complete-Keeps s fresh,
            await_flyer-Keeps s fresh,
          )
          depth 14 fits 3000)
        (finalize-Keeps s fresh)

  array-Keeps :
      (float : Floats V) (rows : Option (List (List V)))
      → Keeps IsNumbered (Kinds.set_array float rows)
  array-Keeps float rows = search run_rules

  round_scan_fly_sim-Keeps :
      (float : Floats V) → Keeps IsNumbered (Kinds.run s (Flyers.round_scan_fly_sim lib s float))
  unfolding Flyers.round_scan_fly_sim Flyers.prepare_round_fly Flyers.calculate_round_fly
      Flyers.round_fly_core
  round_scan_fly_sim-Keeps float =
      run-Keeps lib s fresh (Flyers.round_scan_fly_sim lib s float) (read_scan_motors-Keeps s fresh)
        (search (run_rules, check_limits-Keeps, yield_none-Keeps) depth 14 fits 3000)
        (search
          (
            run_rules,
            first_motor-Keeps s fresh,
            kickoff-Keeps s fresh,
            read_until_idle-Keeps s fresh,
          )
          depth 14 fits 3000)
        yield_none-Keeps

  monitor_scan-Keeps :
      (flyer : String) → Keeps IsNumbered (Kinds.run s (Flyers.monitor_scan lib s flyer))
  unfolding Flyers.monitor_scan Flyers.prepare_monitor Flyers.calculate_monitor Flyers.monitor_core
      has
  monitor_scan-Keeps flyer =
      run-Keeps lib s fresh (Flyers.monitor_scan lib s flyer) (read_scan_motors-Keeps s fresh)
        (search (run_rules, set_position_offset-Keeps lib s fresh, check_limits-Keeps) depth 14 fits
          3000)
        (search
          (
            run_rules,
            first_of-Keeps s fresh,
            set-Keeps s fresh,
            wait-Keeps s fresh,
            publish_readbacks-Keeps s fresh,
          )
          depth 16 fits 4000)
        (finalize-Keeps s fresh)

  cont_line_scan-Keeps :
      (np : Matrices V) (n : ℕ) (shift : V → V) (is_close less : V → V → Bool)
      → Keeps IsNumbered (Kinds.run s (Flyers.cont_line_scan lib s np n shift is_close less))
  unfolding Flyers.cont_line_scan Kinds.calculate_line Flyers.cont_line_core has
  cont_line_scan-Keeps np n shift is_close less =
      run-Keeps lib s fresh (Flyers.cont_line_scan lib s np n shift is_close less)
        (read_scan_motors-Keeps s fresh) (prepare_positions-Keeps lib s fresh _ (search run_rules))
        (search
          (
            run_rules,
            move_to-Keeps s fresh,
            first_motor-Keeps s fresh,
            first_of-Keeps s fresh,
            set-Keeps s fresh,
            follow_motor-Keeps s fresh,
          )
          depth 16 fits 4000)
        (finalize-Keeps s fresh)

  time_scan-Keeps :
      (points : ℕ) (interval : V)
      → Keeps IsNumbered (Kinds.run s (Requests.time_scan s points interval))
  unfolding Requests.time_scan Requests.time_core Requests.time_point
  time_scan-Keeps points interval =
      run-Keeps lib s fresh (Requests.time_scan s points interval) (read_scan_motors-Keeps s fresh)
        (search (run_rules, yield_none-Keeps))
        (search
          (
            run_rules,
            wait_for_primary-Keeps s fresh,
            trigger_and_read-Keeps s fresh,
            wait-Keeps s fresh,
          )
          depth 16 fits 4000)
        (finalize-Keeps s fresh)

  acquire-Keeps : Keeps IsNumbered (Requests.acquire s)
  unfolding Requests.acquire Requests.acquire_core Requests.acquire_point Core.open_scan Core.stage
      Core.run_baseline_reading Core.unstage Core.cleanup Core.close_scan
  acquire-Keeps =
      search
        (
          run_rules,
          wait_for_primary-Keeps s fresh,
          trigger_and_read-Keeps s fresh,
          open_scan-Keeps s fresh,
          stage-Keeps s fresh,
          baseline_reading-Keeps s fresh,
          finalize-Keeps s fresh,
          unstage-Keeps s fresh,
          close_scan-Keeps s fresh,
        )
        depth 20 fits 4000

  set_target-Keeps :
      (metadata : Dict String (Field V)) (i : ℕ) (motor : String)
      → has "DIID" metadata ≡ false
      → Keeps IsNumbered (Requests.set_target s metadata i motor)
  unfolding Requests.set_target
  set_target-Keeps metadata i motor h = search (run_rules, set-Keeps s fresh, h) depth 10

  prepare_move-Keeps : Keeps IsNumbered (Requests.prepare_move s lib)
  unfolding Requests.prepare_move Requests.calculate_move
  prepare_move-Keeps =
      search (run_rules, set_position_offset-Keeps lib s fresh, check_limits-Keeps) depth 10

  move-Keeps : Keeps IsNumbered (Requests.move s lib)
  unfolding Requests.move Requests.report_move Requests.move_point has
  move-Keeps =
      search (run_rules, prepare_move-Keeps, yield_none-Keeps, set_target-Keeps) depth 14 fits 3000

  updated_move-Keeps : Keeps IsNumbered (Requests.updated_move s lib)
  unfolding Requests.updated_move Requests.report_move Requests.updated_move_point has
  updated_move-Keeps =
      search
        (
          run_rules,
          prepare_move-Keeps,
          scan_report_instruction-Keeps s fresh,
          set_target-Keeps,
          wait-Keeps s fresh,
        )
        depth 16 fits 4000

  device_rpc-Keeps : (p : Dict String (Field V)) → Keeps IsNumbered (Requests.device_rpc s p)
  unfolding Requests.device_rpc has
  device_rpc-Keeps p = search (rpc-Keeps s fresh)

  interactive-Keeps :
      Keeps IsNumbered (Requests.open_interactive_scan s)
      × Keeps IsNumbered (Requests.add_interactive_scan_point s)
      × Keeps IsNumbered (Requests.close_interactive_scan s)
  unfolding Requests.open_interactive_scan Requests.add_interactive_scan_point
      Requests.interactive_point Requests.close_interactive_scan Core.open_scan Core.stage
      Core.run_baseline_reading Core.unstage Core.cleanup Core.close_scan
  interactive-Keeps = (
    search
        (
          run_rules,
          open_scan_def-Keeps s fresh,
          read_scan_motors-Keeps s fresh,
          open_scan-Keeps s fresh,
          stage-Keeps s fresh,
          baseline_reading-Keeps s fresh,
        )
        depth 14 fits 3000,
    search
        (
          run_rules,
          open_scan-Keeps s fresh,
          trigger-Keeps s fresh,
          wait-Keeps s fresh,
          read_and_wait-Keeps s fresh,
          close_scan-Keeps s fresh,
        )
        depth 14 fits 3000,
    search
        (
          run_rules,
          finalize-Keeps s fresh,
          unstage-Keeps s fresh,
          close_scan-Keeps s fresh,
          close_scan_def-Keeps s fresh,
        )
        depth 14 fits 3000,
  )

module _ {V : Type 0} (world : World V) (s : Settings V) where
  -- Whatever class of scans.py a scan has and however its run ends, every message that it has yielded
  -- has a DIID, and these are 0, 1, 2, … without a gap or a repetition, and its counter is the next one,
  -- if that held before the run, as it does of a new scan, and the request's metadata has no DIID of its
  -- own.
  pub run_class-IsNumbered :
      (c : ScanClass V) (r : Request V)
      → has "DIID" s.metadata ≡ false
      → IsNumbered r
      → On IsNumbered (run_class world s c r)
  unfolding run_class Kinds.calculate_grid Kinds.calculate_round Kinds.calculate_fermat
      Kinds.calculate_roi Kinds.calculate_list Kinds.calculate_line Requests.open_scan_def
      Requests.close_scan_def Requests.close_scan_group Requests.device_rpc has
  run_class-IsNumbered ScanClass.scan r f h = step_scan-Keeps world.lib s f _ (search run_rules) r h
  run_class-IsNumbered ScanClass.round_scan r f h =
      step_scan-Keeps world.lib s f _ (search run_rules) r h
  run_class-IsNumbered ScanClass.round_scan_fly_sim r f h =
      round_scan_fly_sim-Keeps world.lib s f world.float r h
  run_class-IsNumbered ScanClass.list_scan r f h =
      step_scan-Keeps world.lib s f _ (search run_rules) r h
  run_class-IsNumbered ScanClass.acquire r f h = acquire-Keeps world.lib s f r h
  run_class-IsNumbered ScanClass.fly_scan_base r f h = fly_scan_base-Keeps world.lib s f r h
  run_class-IsNumbered ScanClass.move r f h = move-Keeps world.lib s f r h
  run_class-IsNumbered ScanClass.updated_move r f h = updated_move-Keeps world.lib s f r h
  run_class-IsNumbered ScanClass.open_interactive_scan r f h =
      (interactive-Keeps world.lib s f).0 r h
  run_class-IsNumbered ScanClass.add_interactive_scan_point r f h =
      (interactive-Keeps world.lib s f).1 r h
  run_class-IsNumbered ScanClass.close_interactive_scan r f h =
      (interactive-Keeps world.lib s f).2 r h
  run_class-IsNumbered ScanClass.open_scan_def r f h = open_scan_def-Keeps s f r h
  run_class-IsNumbered ScanClass.close_scan_def r f h = close_scan_def-Keeps s f r h
  run_class-IsNumbered ScanClass.close_scan_group r f h = close_scan_group-Keeps s f r h
  run_class-IsNumbered (ScanClass.fermat_spiral_scan v w) r f h =
      step_scan-Keeps world.lib s f _ (search run_rules) r h
  run_class-IsNumbered (ScanClass.round_roi_scan v n) r f h =
      step_scan-Keeps world.lib s f _ (search run_rules) r h
  run_class-IsNumbered (ScanClass.line_scan n) r f h =
      step_scan-Keeps world.lib s f _ (search run_rules) r h
  run_class-IsNumbered (ScanClass.cont_line_scan n) r f h =
      cont_line_scan-Keeps world.lib s f world.np n world.shift world.is_close world.float.ltb r h
  run_class-IsNumbered (ScanClass.time_scan n v) r f h = time_scan-Keeps world.lib s f _ _ r h
  run_class-IsNumbered (ScanClass.monitor_scan d) r f h = monitor_scan-Keeps world.lib s f _ r h
  run_class-IsNumbered (ScanClass.device_rpc p) r f h = device_rpc-Keeps world.lib s f p r h
