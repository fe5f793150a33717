-- ===== src/ScanServer/Scans/Kinds.antt =====
-- The kinds of scan (scan_server/scan_server/scans.py): the methods that a class overrides, as a
-- record, and the runs that are written with them.
use bec.Prelude.{
  ℕ, zero, suc, String, Option, none, some, Bool, true, false, List, [], ◌∷◌, ◌==◌, string_eq,
  option_eq, nat_eq, if◌then◌else◌, length, map, every,
}
use bec.Prelude.Dict.{Dict}
use bec.ScanServer.Scans.Effects.{
  Field, number, value, values, value_error, index_error, zero_division_error, type_error,
  Positions, Settings, Run, ◌>>◌, pure, fail, modify, or_else, yield_none,
}
use bec.ScanServer.Scans.Base
use bec.ScanServer.Scans.Core
use bec.ScanServer.Scans.Base.{Library, Entry, array, listed}
use bec.ScanServer.Scans.Positions.{
  Floats, Matrices, get_2d_raster_pos, get_fermat_spiral_pos, get_round_roi_scan_positions,
  get_round_scan_positions,
}

-- The class of a scan that runs as ScanBase does.
pub record Methods (V : Type 0) : Type 0 where
  pub scan_type : String
  pub pre_move : Bool
  pub read_scan_motors : Run V (Unit {0})
  pub prepare_positions : Run V (Unit {0})
  pub scan_core : Run V (Unit {0})
  pub finalize : Run V (Unit {0})

-- The two numbers at the head of a motor's arguments.
abbrev pub start_stop : {V : Type 0} → List (Field V) → Option (V × V)
start_stop (value a ∷ value b ∷ r) = some (a, b)
start_stop _ = none

abbrev pub set_rows : {V : Type 0} → Positions V → Run V (Unit {0})
set_rows p = modify (λ s. record s { positions = p })

-- zip(*axes), which ends with the shortest axis; the heads of the axes are none if one is empty.
abbrev pub heads : {V : Type 0} → List (List V) → Option (List V)
heads [] = some []
heads ([] ∷ axes) = none
heads ((v ∷ vs) ∷ axes) = elim (heads axes) [ none ↦ none | some r ↦ some (v ∷ r) ]

abbrev pub tails : {V : Type 0} → List (List V) → List (List V)
tails [] = []
tails ([] ∷ axes) = [] ∷ tails axes
tails ((v ∷ vs) ∷ axes) = vs ∷ tails axes

unfoldable pub zip_axes : {V : Type 0} → ℕ → List (List V) → List (List V)
zip_axes zero axes = []
zip_axes (suc n) axes =
    let rest = zip_axes n (tails axes) in elim (heads axes) [ none ↦ [] | some r ↦ r ∷ rest ]

-- The length of the first axis; there is one, and no zip is longer.
abbrev pub first_length : {V : Type 0} → List (List V) → ℕ
first_length [] = 0
first_length (axis ∷ axes) = length axis

unfoldable pub zip : {V : Type 0} → List (List V) → List (List V)
unfolding zip_axes
zip axes = zip_axes (first_length axes) axes

module _ {V : Type 0} (scan : Settings V) where
  -- ScanBase.run
  unfoldable pub run : Methods V → Run V (Unit {0})
  unfolding Core.open_scan Core.stage Core.run_baseline_reading Core.pre_scan Core.unstage
      Core.cleanup
  run c =
      c.read_scan_motors
      >> c.prepare_positions
      >> yield_none
      >> Core.open_scan scan c.scan_type
      >> Core.stage scan
      >> Core.run_baseline_reading scan
      >> Core.pre_scan scan c.pre_move
      >> c.scan_core
      >> c.finalize
      >> Core.unstage scan
      >> Core.cleanup scan

module _ {V : Type 0} (lib : Library V) (scan : Settings V) where
  -- A class that only says how its positions are calculated.
  unfoldable pub step_scan : Run V (Unit {0}) → Methods V
  unfolding Base.read_scan_motors Base.prepare_positions Core.scan_core Core.at_each_point
      Core.finalize
  step_scan calculate_positions = record {
    scan_type = "step";
    pre_move = true;
    read_scan_motors = Base.read_scan_motors scan;
    prepare_positions = Base.prepare_positions lib scan calculate_positions;
    scan_core = Core.scan_core scan (Core.at_each_point scan);
    finalize = Core.finalize scan;
  }

module _ {V : Type 0} (np : Matrices V) where
  -- The axes of Scan, of each motor its start, stop and number of steps.
  abbrev pub grid_axes : Dict String (List (Field V)) → Option (List (List V))
  grid_axes [] = some []
  grid_axes ((d, value a ∷ value b ∷ number n ∷ r) ∷ args) = elim (grid_axes args) [
    | none ↦ none
    | some axes ↦ some (np.linspace a b n ∷ axes)
  ]
  grid_axes ((d, _) ∷ args) = none

  abbrev pub line_axes : ℕ → Dict String (List (Field V)) → Option (List (List V))
  line_axes steps [] = some []
  line_axes steps ((d, a) ∷ args) = elim (start_stop a) [
    | none ↦ none
    | some (from, to) ↦ elim (line_axes steps args) [
      | none ↦ none
      | some axes ↦ some (np.linspace from to steps ∷ axes)
    ]
  ]

  -- The positions on the axes of Scan; of more than two axes the first two count.
  unfoldable pub grid_positions : List (List V) → Option (List (List V))
  unfolding get_2d_raster_pos
  grid_positions [] = none
  grid_positions (axis ∷ []) = some (map (λ v. v ∷ []) axis)
  grid_positions (xs ∷ ys ∷ axes) = some (get_2d_raster_pos np true xs ys)

  -- Scan._calculate_positions
  unfoldable pub calculate_grid : Settings V → Run V (Unit {0})
  unfolding grid_positions
  calculate_grid scan =
      or_else (grid_axes scan.caller_args) (fail index_error)
        (λ axes. or_else (grid_positions axes) (fail value_error) (λ rows. set_rows (array rows)))

  -- LineScan._calculate_positions, and the same of ContLineScan
  unfoldable pub calculate_line : Settings V → ℕ → Run V (Unit {0})
  unfolding zip
  calculate_line scan steps =
      or_else (line_axes steps scan.caller_args) (fail index_error)
        (λ axes. set_rows (array (zip axes)))

-- The position list at the head of each motor's arguments.
abbrev pub lists : {V : Type 0} → Dict String (List (Field V)) → Option (List (List V))
lists [] = some []
lists ((d, values vs ∷ r) ∷ args) = elim (lists args) [ none ↦ none | some ls ↦ some (vs ∷ ls) ]
lists ((d, _) ∷ args) = none

-- Have all lists one length? No list at all is refused too.
abbrev pub are_equal_lengths : {V : Type 0} → List (List V) → Bool
are_equal_lengths [] = false
are_equal_lengths (l ∷ ls) = every (λ m. length m == length l) ls

module _ {V : Type 0} where
  -- ListScan.__init__, the check of its lists
  unfoldable pub check_lists : Settings V → Run V (Unit {0})
  check_lists scan =
      or_else (lists scan.caller_args) (fail type_error)
        (λ ls. if are_equal_lengths ls then pure tt else fail value_error)

  -- ListScan._calculate_positions, which gives a Python list
  unfoldable pub calculate_list : Settings V → Run V (Unit {0})
  unfolding zip
  calculate_list scan =
      or_else (lists scan.caller_args) (fail type_error) (λ ls. set_rows (listed (zip ls)))

module _ {V : Type 0} (float : Floats V) where
  -- The positions of FermatSpiralScan, RoundScan and RoundROIScan, by the motors' arguments.
  unfoldable pub fermat_positions : V → V → Dict String (List (Field V)) → Option (List (List V))
  unfolding get_fermat_spiral_pos
  fermat_positions step spiral_type
        ((d, value a ∷ value b ∷ r) ∷ (d', value a' ∷ value b' ∷ r') ∷ l) =
      some (get_fermat_spiral_pos float a b a' b' step spiral_type false)
  fermat_positions step spiral_type _ = none

  -- RoundScan and RoundROIScan may also divide by zero.
  unfoldable pub round_positions : Dict String (List (Field V)) → Option (Option (List (List V)))
  unfolding get_round_scan_positions
  round_positions ((d, m ∷ value r_in ∷ value r_out ∷ number nr ∷ number nth ∷ r) ∷ l) =
      some
        (get_round_scan_positions float r_in r_out nr nth (float.decimal 0 0) (float.decimal 0 0))
  round_positions _ = none

  unfoldable pub roi_positions :
      V → ℕ → Dict String (List (Field V)) → Option (Option (List (List V)))
  unfolding get_round_roi_scan_positions
  roi_positions dr nth ((d, value lx ∷ r) ∷ (d', value ly ∷ r') ∷ l) =
      some (get_round_roi_scan_positions float lx ly dr nth (float.decimal 0 0) (float.decimal 0 0))
  roi_positions dr nth _ = none

  -- An array of positions, or an IndexError where the arguments do not give them.
  abbrev pub set_array : Option (List (List V)) → Run V (Unit {0})
  set_array rows = or_else rows (fail index_error) (λ r. set_rows (array r))

  -- The same, or the ZeroDivisionError of the computation.
  abbrev pub set_divided : Option (Option (List (List V))) → Run V (Unit {0})
  set_divided result =
      or_else result (fail index_error)
        (λ rows. or_else rows (fail zero_division_error) (λ r. set_rows (array r)))

  -- FermatSpiralScan._calculate_positions
  unfoldable pub calculate_fermat : Settings V → V → V → Run V (Unit {0})
  unfolding fermat_positions
  calculate_fermat scan step spiral_type =
      set_array (fermat_positions step spiral_type scan.caller_args)

  -- RoundScan._calculate_positions, with the second motor at the head of the arguments
  unfoldable pub calculate_round : Settings V → Run V (Unit {0})
  unfolding round_positions
  calculate_round scan = set_divided (round_positions scan.caller_args)

  -- RoundROIScan._calculate_positions
  unfoldable pub calculate_roi : Settings V → V → ℕ → Run V (Unit {0})
  unfolding roi_positions
  calculate_roi scan dr nth = set_divided (roi_positions dr nth scan.caller_args)
