-- ===== src/ScanServer/Scans/Classes.antt =====
-- The classes of scans (scan_server/scan_server/scans.py) by their names, and how ScanManager
-- (scan_server/scan_server/scan_manager.py) and ScanAssembler (scan_server/scan_server/scan_assembler.py)
-- find the class of a request.
pub mod FirstCome
pub mod Registry
use bec.Prelude.{ℕ, String, Option, none, some, Bool, true, false, List, [], ◌∷◌}
use bec.Prelude.Dict.{Dict}
use bec.ScanServer.Scans.Effects.{Field, Settings, Run}
use bec.ScanServer.Scans.Base.{Library}
use bec.ScanServer.Scans.Positions.{Floats, Matrices}
use bec.ScanServer.Scans.Kinds
use bec.ScanServer.Scans.Flyers
use bec.ScanServer.Scans.Requests

-- The parameters of the scans, with the two functions of ContLineScan that depend on its offset and
-- on a tolerance.
pub record World (V : Type 0) : Type 0 where
  pub lib : Library V
  pub np : Matrices V
  pub float : Floats V
  pub shift : V → V
  pub is_close : V → V → Bool

-- The classes, each with the keywords of its own.
pub data ScanClass (V : Type 0) : Type 0 where
  scan round_scan round_scan_fly_sim list_scan acquire fly_scan_base move updated_move : ScanClass V
  open_interactive_scan add_interactive_scan_point close_interactive_scan : ScanClass V
  open_scan_def close_scan_def close_scan_group : ScanClass V
  fermat_spiral_scan : V → V → ScanClass V
  round_roi_scan : V → ℕ → ScanClass V
  line_scan cont_line_scan : ℕ → ScanClass V
  time_scan : ℕ → V → ScanClass V
  monitor_scan : String → ScanClass V
  device_rpc : Dict String (Field V) → ScanClass V

module _ {V : Type 0} (world : World V) (s : Settings V) where
  abbrev pub steps : Run V (Unit {0}) → Run V (Unit {0})
  steps calculate = Kinds.run s (Kinds.step_scan world.lib s calculate)

  -- The generator that a class's run gives.
  unfoldable pub run_class : ScanClass V → Run V (Unit {0})
  unfolding Kinds.run Kinds.step_scan Kinds.calculate_grid Kinds.calculate_round
      Kinds.calculate_fermat Kinds.calculate_roi Kinds.calculate_list Kinds.calculate_line
      Flyers.cont_line_scan Flyers.monitor_scan Flyers.round_scan_fly_sim Flyers.fly_scan_base
      Requests.time_scan Requests.acquire Requests.move Requests.updated_move
      Requests.open_interactive_scan Requests.add_interactive_scan_point
      Requests.close_interactive_scan Requests.open_scan_def Requests.close_scan_def
      Requests.close_scan_group Requests.device_rpc
  run_class scan = steps (Kinds.calculate_grid world.np s)
  run_class round_scan = steps (Kinds.calculate_round world.float s)
  run_class (fermat_spiral_scan step kind) = steps (Kinds.calculate_fermat world.float s step kind)
  run_class (round_roi_scan dr nth) = steps (Kinds.calculate_roi world.float s dr nth)
  run_class list_scan = steps (Kinds.calculate_list s)
  run_class (line_scan n) = steps (Kinds.calculate_line world.np s n)
  run_class (cont_line_scan n) =
      Kinds.run s
        (Flyers.cont_line_scan world.lib s world.np n world.shift world.is_close world.float.ltb)
  run_class (monitor_scan flyer) = Kinds.run s (Flyers.monitor_scan world.lib s flyer)
  run_class round_scan_fly_sim = Kinds.run s (Flyers.round_scan_fly_sim world.lib s world.float)
  run_class fly_scan_base = Kinds.run s (Flyers.fly_scan_base world.lib s)
  run_class (time_scan points interval) = Kinds.run s (Requests.time_scan s points interval)
  run_class acquire = Requests.acquire s
  run_class move = Requests.move s world.lib
  run_class updated_move = Requests.updated_move s world.lib
  run_class open_interactive_scan = Requests.open_interactive_scan s
  run_class add_interactive_scan_point = Requests.add_interactive_scan_point s
  run_class close_interactive_scan = Requests.close_interactive_scan s
  run_class open_scan_def = Requests.open_scan_def s
  run_class close_scan_def = Requests.close_scan_def s
  run_class close_scan_group = Requests.close_scan_group s
  run_class (device_rpc parameter) = Requests.device_rpc s parameter
