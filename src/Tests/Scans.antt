-- ===== src/Tests/Scans.antt =====
-- Concrete scans, with numbers for positions, and the theorems on scans at them.
use mathlib.Core.List.{reverse, flatten, Perm}
use bec.Prelude.{
  if◌then◌else◌, arith, ◌==◌, ℕ, ◌+◌, ◌-◌, ◌*◌, leb, ltb, String, Option, none, some, Bool, true,
  false, List, [], ◌∷◌, ◌≡◌, refl, sym, ◌∙◌, ap, map, length, string_eq,
}
use bec.Prelude.Dict
use bec.Prelude.Dict.{has}
use bec.ScanServer.Scans.Effects.{
  text, values, Request, Settings, Run, Outcome, returns, raises, waits, readings, modify, pure,
  fail, self, when, or_else, for_each, yield_none, merge, ◌>>◌,
}
use bec.ScanServer.Scans.Positions
use bec.ScanServer.Scans.Stubs
use bec.ScanServer.Scans.Base
use bec.ScanServer.Scans.Base.{Library, Entry, entries, count, array, no_positions}
use bec.ScanServer.Scans.Kinds
use bec.ScanServer.Scans.Classes.{World, ScanClass, run_class}
use bec.ScanServer.Scans.Positions.{Floats, Matrices, get_2d_raster_pos, get_round_scan_positions}
use bec.ScanServer.Scans.Positions.Raster.{IsNumpy, grid, snake, get_2d_raster_pos-snake}
use bec.ScanServer.Scans.Positions.Rings.{length-get_round_scan_positions}
use bec.ScanServer.Scans.Hoare.{On}
use bec.ScanServer.Scans.Numbering.{IsNumbered, upto, collect}
use bec.ScanServer.Scans.Numbering.Classes.{run_class-IsNumbered}
use bec.ScanServer.Scans.Points.{points, announced}
use bec.ScanServer.Scans.Points.Runs.{IsReady, number_of_points, run-points}
use bec.ScanServer.Scans.Limits.{returned, respects, restrictions, check_limits-returned}
use bec.ScanServer.Scans.Offset.{prepare_list_scan-eq}

-- numpy's functions on lists of rows.
zip_cons : List ℕ → List (List ℕ) → List (List ℕ)
zip_cons [] m = []
zip_cons (v ∷ vs) [] = []
zip_cons (v ∷ vs) (r ∷ m) = (v ∷ r) ∷ zip_cons vs m

transpose : List (List ℕ) → List (List ℕ)
unfolding zip_cons
transpose [] = []
transpose (r ∷ []) = map (λ v. v ∷ []) r
transpose (r ∷ q ∷ m) = zip_cons r (transpose (q ∷ m))

abbrev list_numpy : Matrices ℕ
unfolding transpose
list_numpy = record {
  transpose = transpose;
  fliplr = map reverse;
  meshgrid = λ xs ys. (map (λ y. xs) ys, map (λ y. map (λ x. y) xs) ys);
  ravel = flatten;
  linspace = λ a b n. Positions.range a n;
}

zip_cons-map :
    (f : ℕ → ℕ) (g : ℕ → List ℕ) (xs : List ℕ)
    → zip_cons (map f xs) (map g xs) ≡ map (λ x. f x ∷ g x) xs
unfolding zip_cons
zip_cons-map f g [] = refl
zip_cons-map f g (x ∷ xs) = ap (λ m. (f x ∷ g x) ∷ m) (zip_cons-map f g xs)

map_id : (xs : List ℕ) → map (λ x. x) xs ≡ xs
map_id [] = refl
map_id (x ∷ xs) = ap (λ ys. x ∷ ys) (map_id xs)

map_single : (f : ℕ → ℕ) (xs : List ℕ) → map (λ v. v ∷ []) (map f xs) ≡ map (λ x. f x ∷ []) xs
map_single f [] = refl
map_single f (x ∷ xs) = ap (λ m. (f x ∷ []) ∷ m) (map_single f xs)

transpose_x :
    (xs : List ℕ) (y : ℕ) (ys : List ℕ)
    → transpose (map (λ y. xs) (y ∷ ys)) ≡ map (λ x. map (λ y. x) (y ∷ ys)) xs
unfolding transpose
transpose_x xs y [] = refl
transpose_x xs y (z ∷ ys) =
    ap (λ m. zip_cons xs m) (transpose_x xs z ys)
    ∙ ap (λ us. zip_cons us (map (λ x. map (λ y. x) (z ∷ ys)) xs)) (sym (map_id xs))
    ∙ zip_cons-map (λ x. x) (λ x. map (λ y. x) (z ∷ ys)) xs

transpose_y :
    (xs : List ℕ) (y : ℕ) (ys : List ℕ)
    → transpose (map (λ y. map (λ x. y) xs) (y ∷ ys)) ≡ map (λ x. y ∷ ys) xs
unfolding transpose
transpose_y xs y [] = map_single (λ x. y) xs
transpose_y xs y (z ∷ ys) =
    ap (λ m. zip_cons (map (λ x. y) xs) m) (transpose_y xs z ys)
    ∙ zip_cons-map (λ x. y) (λ x. z ∷ ys) xs

list_numpy-IsNumpy : IsNumpy list_numpy
unfolding list_numpy transpose
list_numpy-IsNumpy = record {
  transpose_x = transpose_x;
  transpose_y = transpose_y;
  fliplr_rows = λ m. refl;
  ravel_rows = λ m. refl;
}

get_2d_raster_pos-snake_example :
    (get_2d_raster_pos list_numpy false (1 ∷ 2 ∷ 3 ∷ []) (4 ∷ 5 ∷ [])
      ≡ grid (1 ∷ 2 ∷ 3 ∷ []) (4 ∷ 5 ∷ []))
    × (get_2d_raster_pos list_numpy true (1 ∷ 2 ∷ 3 ∷ []) (4 ∷ 5 ∷ [])
        ≡ snake true (1 ∷ 2 ∷ 3 ∷ []) (4 ∷ 5 ∷ []))
    × Perm
        (get_2d_raster_pos list_numpy true (1 ∷ 2 ∷ 3 ∷ []) (4 ∷ 5 ∷ []))
        (get_2d_raster_pos list_numpy false (1 ∷ 2 ∷ 3 ∷ []) (4 ∷ 5 ∷ []))
    × (length (get_2d_raster_pos list_numpy true (1 ∷ 2 ∷ 3 ∷ []) (4 ∷ 5 ∷ [])) ≡ 3 * 2)
get_2d_raster_pos-snake_example =
    get_2d_raster_pos-snake list_numpy (1 ∷ 2 ∷ 3 ∷ []) 4 (5 ∷ []) list_numpy-IsNumpy

-- Two devices, of which the second has no limits.
abbrev limits_of : String → Option (ℕ × ℕ)
limits_of d = if d == "samx" then some (0, 10) else if d == "samy" then some (0, 0) else none

abbrev shift_row : List ℕ → List ℕ → List ℕ
shift_row [] vs = []
shift_row (v ∷ vs) [] = v ∷ vs
shift_row (v ∷ vs) (w ∷ ws) = (v + w) ∷ shift_row vs ws

abbrev library : Library ℕ
library = record {
  limits = limits_of;
  add_to_rows = λ rows v. some (map (λ r. shift_row r v) rows);
  leb = leb;
  optimize_corridor = λ rows. rows;
}

abbrev floats : Floats ℕ
floats = record {
  add = λ a b. a + b;
  sub = λ a b. a - b;
  mul = λ a b. a * b;
  div = λ a b. a;
  abs = λ a. a;
  sqrt = λ a. a;
  sin = λ a. a;
  cos = λ a. a;
  floor = λ a. a;
  pi = 3;
  decimal = λ n k. n;
  truncate = λ a. a;
  ltb = ltb;
}

abbrev world : World ℕ
unfolding list_numpy
world = record {
  lib = library;
  np = list_numpy;
  float = floats;
  shift = λ a. a;
  is_close = λ a b. true;
}

-- A list scan of samx over 1, 2, with two bursts at each point.
abbrev settings : Bool → Settings ℕ
settings relative = record {
  scan_name = "list_scan";
  metadata = ("RID", text "rid") ∷ [];
  caller_args = ("samx", values (1 ∷ 2 ∷ []) ∷ []) ∷ [];
  caller_kwargs = 0;
  readout_priority = Base.update_readout_priority ("samx" ∷ []);
  exp_time = 1;
  relative = relative;
  burst_at_each_point = 2;
  optim_trajectory = none;
  uuid = λ n. "uuid";
}

abbrev started : Request ℕ
started = record {
  diid = 0;
  point_id = 0;
  scan_motors = "samx" ∷ [];
  start_pos = [];
  positions = no_positions;
  num_pos = none;
  burst_index = 0;
  uuids = 0;
  rpc_replies =
      none ∷ some (record { success = true; return_val = readings (("samx", 5) ∷ []) }) ∷ [];
  statuses = [];
  readbacks = [];
  flyer_polls = [];
  sent = [];
}

abbrev state_of : {A : Type 0} → Outcome ℕ A → Request ℕ
state_of (returns a s) = s
state_of (raises e s) = s
state_of (waits s) = s

abbrev prepare : Run ℕ (Unit {0})
prepare =
    Base.read_scan_motors (settings false)
    >> Base.prepare_positions library (settings false) (Kinds.calculate_list (settings false))

ready : Request ℕ
ready = state_of (prepare started)

prepare_runs : prepare started ≡ returns tt ready
unfolding ready Base.read_scan_motors Base.prepare_positions Kinds.calculate_list
    Base.optimize_trajectory Base.set_position_offset Base.read_start Base.offset_positions
    Base.check_limits Base.check_motors Base.check_axis Base.value_of Base.update_readout_priority
    Kinds.zip Kinds.zip_axes Stubs.read_and_wait Stubs.read Stubs.wait Stubs.check_device_and_groups
    Stubs.exclude_nones Stubs.device_msg Stubs.device_msg_metadata Stubs.send_rpc_and_wait Stubs.rpc
    Stubs.get_from_rpc Stubs.read_reply modify pure fail self when or_else for_each yield_none merge
    Dict.insert Dict.lookup
prepare_runs = refl

ready-IsReady : IsReady (settings false) ready
unfolding ready Base.read_scan_motors Base.prepare_positions Kinds.calculate_list
    Base.optimize_trajectory Base.set_position_offset Base.read_start Base.offset_positions
    Base.check_limits Base.check_motors Base.check_axis Base.value_of Base.update_readout_priority
    Kinds.zip Kinds.zip_axes Stubs.read_and_wait Stubs.read Stubs.wait Stubs.check_device_and_groups
    Stubs.exclude_nones Stubs.device_msg Stubs.device_msg_metadata Stubs.send_rpc_and_wait Stubs.rpc
    Stubs.get_from_rpc Stubs.read_reply modify pure fail self when or_else for_each yield_none merge
    Dict.insert Dict.lookup
ready-IsReady = record {
  counted = refl;
  fits = (omega arith, (omega arith, tt));
  start_fits = omega arith;
  untriggered = refl;
  unread = refl;
  unopened = refl;
  first_point = refl;
}

run-points_example :
    (t : Request ℕ) × (Kinds.run
        (settings false)
        (Kinds.step_scan library (settings false) (Kinds.calculate_list (settings false)))
        started
      ≡ returns tt t)
    × (collect announced t.sent ≡ number_of_points (settings false) ready ∷ [])
    × (collect (points "trigger") t.sent ≡ upto (number_of_points (settings false) ready))
    × (collect (points "read") t.sent ≡ upto (number_of_points (settings false) ready))
    × (t.point_id ≡ number_of_points (settings false) ready)
run-points_example =
    run-points library (settings false) (Kinds.calculate_list (settings false)) started ready
      prepare_runs ready-IsReady

run_class-IsNumbered_example :
    On IsNumbered (run_class world (settings false) ScanClass.list_scan started)
unfolding has
run_class-IsNumbered_example =
    run_class-IsNumbered world (settings false) ScanClass.list_scan started refl refl

check_limits-returned_example :
    returned (Base.check_limits library ready)
    ≡ respects library (entries ready.positions) (restrictions library 0 ready.scan_motors)
check_limits-returned_example = check_limits-returned library ready

length-get_round_scan_positions_example :
    (ps : List (List ℕ)) × (get_round_scan_positions floats 0 50 5 3 0 0 ≡ some ps)
    × (2 * length ps ≡ 3 * ((5 + 1) * (5 + 2)))
length-get_round_scan_positions_example =
    length-get_round_scan_positions floats 0 50 0 0 5 3 (omega arith) (omega arith)

-- The same scan, relative.
abbrev prepare_relative : Run ℕ (Unit {0})
prepare_relative =
    Base.prepare_positions library (settings true) (Kinds.calculate_list (settings true))

-- The motor has no limits, since the extra position has no row to check.
abbrev unlimited : Request ℕ
unlimited = record started {
  scan_motors = "samy" ∷ [];
  rpc_replies = some (record { success = true; return_val = readings (("samy", 5) ∷ []) }) ∷ [];
}

relative_ready : Request ℕ
relative_ready = state_of (prepare_relative unlimited)

prepare_relative_runs : prepare_relative unlimited ≡ returns tt relative_ready
unfolding relative_ready Base.prepare_positions Kinds.calculate_list Base.optimize_trajectory
    Base.set_position_offset Base.read_start Base.offset_positions Base.add_start Base.check_limits
    Base.check_motors Base.check_axis Base.value_of Base.update_readout_priority Kinds.zip
    Kinds.zip_axes Stubs.device_msg Stubs.device_msg_metadata Stubs.send_rpc_and_wait Stubs.rpc
    Stubs.get_from_rpc Stubs.read_reply modify pure fail self when or_else for_each merge
    Dict.insert Dict.lookup
prepare_relative_runs = refl

prepare_list_scan-eq_example :
    (relative_ready.positions ≡ record {
      is_array = false;
      rows = Kinds.zip {V = ℕ} ((1 ∷ 2 ∷ []) ∷ []);
      scalars = relative_ready.start_pos;
    })
    × (relative_ready.num_pos ≡ some (length (Kinds.zip {V = ℕ} ((1 ∷ 2 ∷ []) ∷ [])) * 2))
prepare_list_scan-eq_example =
    prepare_list_scan-eq library (settings true) ((1 ∷ 2 ∷ []) ∷ []) unlimited relative_ready refl
      refl refl prepare_relative_runs

-- It moves the motor to 1, to 2 and then to the start position 5, which was to be the offset.
relative_positions :
    relative_ready.positions
    ≡ record { is_array = false; rows = (1 ∷ []) ∷ (2 ∷ []) ∷ []; scalars = 5 ∷ [] }
unfolding relative_ready Base.prepare_positions Kinds.calculate_list Base.optimize_trajectory
    Base.set_position_offset Base.read_start Base.offset_positions Base.add_start Base.check_limits
    Base.check_motors Base.check_axis Base.value_of Base.update_readout_priority Kinds.zip
    Kinds.zip_axes Stubs.device_msg Stubs.device_msg_metadata Stubs.send_rpc_and_wait Stubs.rpc
    Stubs.get_from_rpc Stubs.read_reply modify pure fail self when or_else for_each merge
    Dict.insert Dict.lookup
relative_positions = refl
