-- ===== src/ScanServer/Scans/Base.antt =====
-- RequestBase and ScanBase (scan_server/scan_server/scans.py). A method that subclasses override is
-- an argument of those that call it. No pre-scan macros are set, and sleeps take no time.
use bec.Prelude.{
  ℕ, zero, suc, ◌*◌, String, Option, none, some, Bool, true, false, ◌&&◌, List, [], ◌∷◌, ◌++◌, ◌==◌,
  string_eq, option_eq, if◌then◌else◌, get_elem?, length, map,
}
use bec.Prelude.Dict.{Dict, lookup}
use bec.ScanServer.Scans.Effects.{
  Field, text, many, readings, object, status_dict, value_error, index_error, type_error, key_error,
  limit_error, Positions, Settings, Run, ◌>>=◌, ◌>>◌, pure, fail, self, modify, when, or_else,
  for_each,
}
use bec.ScanServer.Scans.Stubs
use bec.ScanServer.Scans.Stubs.{Returned, plain, status_of}

-- What the scans use of the device manager, of numpy and of floats: the known devices with their
-- limits, `+=` of an array and a list, the order, and optimize_corridor.
pub record Library (V : Type 0) : Type 0 where
  pub limits : String → Option (V × V)
  pub add_to_rows : List (List V) → List V → Option (List (List V))
  pub leb : V → V → Bool
  pub optimize_corridor : List (List V) → List (List V)

pub data Entry (V : Type 0) : Type 0 where
  row : List V → Entry V
  scalar : V → Entry V

-- A dict's arguments in one list, each name before its own.
unfoldable pub unpack_scan_args : {V : Type 0} → Dict String (List (Field V)) → List (Field V)
unpack_scan_args [] = []
unpack_scan_args ((cmd_name, cmd_args) ∷ scan_args) =
    text cmd_name ∷ (cmd_args ++ unpack_scan_args scan_args)

abbrev pub is_known : {V : Type 0} → Library V → String → Bool
is_known lib d = elim (lib.limits d) [ none ↦ false | some l ↦ true ]

-- The loop of `_get_scan_motors` for scans without argument bundles.
unfoldable pub known_motors : {V : Type 0} → Library V → Dict String (List (Field V)) → List String
known_motors lib [] = []
known_motors lib ((motor, a) ∷ d) =
    if is_known lib motor then motor ∷ known_motors lib d else known_motors lib d

-- `_get_scan_motors`, by the class's arg_bundle_size; no arguments give no motors either way.
unfoldable pub get_scan_motors :
    {V : Type 0} → Library V → ℕ → Dict String (List (Field V)) → List String
unfolding known_motors
get_scan_motors lib zero d = known_motors lib d
get_scan_motors lib (suc n) d = map (λ a. a.0) d

-- update_readout_priority, on the dict of `__init__`.
unfoldable pub update_readout_priority : List String → Dict String (List String)
update_readout_priority motors = ("monitored", motors) ∷ ("baseline", []) ∷ ("ignored", []) ∷ []

module _ {V : Type 0} where
  abbrev pub no_positions : Positions V
  no_positions = record { is_array = false; rows = []; scalars = [] }

  abbrev pub array : List (List V) → Positions V
  array rows = record { is_array = true; rows = rows; scalars = [] }

  abbrev pub listed : List (List V) → Positions V
  listed rows = record { is_array = false; rows = rows; scalars = [] }

  abbrev pub entries : Positions V → List (Entry V)
  entries p = map row p.rows ++ map scalar p.scalars

  -- len(self.positions)
  abbrev pub count : Positions V → ℕ
  count p = length (entries p)

  -- `self.positions += self.start_pos`: an array is shifted, a list is extended.
  unfoldable pub add_start : Library V → Positions V → List V → Option (Positions V)
  add_start lib p start =
      if p.is_array
      then elim (lib.add_to_rows p.rows start) [
        | none ↦ none
        | some rows ↦ some (record p { rows = rows })
      ]
      else some (record p { scalars = p.scalars ++ start })

  -- The positions of one motor against its limits.
  unfoldable pub check_axis : Library V → V → V → String → ℕ → List (Entry V) → Run V (Unit {0})
  check_axis lib low high dev i [] = pure tt
  check_axis lib low high dev i (scalar v ∷ ps) = fail type_error
  check_axis lib low high dev i (row r ∷ ps) = or_else (get_elem? r i) (fail index_error) (λ v.
      if lib.leb low v && lib.leb v high
      then check_axis lib low high dev i ps
      else fail (limit_error dev))

  -- `_check_limits`, from motor i on. It returns at the first motor without limits.
  unfoldable pub check_motors : Library V → List (Entry V) → ℕ → List String → Run V (Unit {0})
  unfolding check_axis
  check_motors lib ps i [] = pure tt
  check_motors lib ps i (dev ∷ devs) = or_else (lib.limits dev) (fail key_error) (λ l.
      if lib.leb l.1 l.0
      then pure tt
      else check_axis lib l.0 l.1 dev i ps >> check_motors lib ps (suc i) devs)

  unfoldable pub check_limits : Library V → Run V (Unit {0})
  unfolding check_motors
  check_limits lib = self >>= λ s. check_motors lib (entries s.positions) 0 s.scan_motors

  -- `val[dev].get("value")`
  unfoldable pub value_of : String → Returned V → Run V V
  value_of dev (plain (readings d)) = or_else (lookup dev d) (fail key_error) pure
  value_of dev (plain (status_dict r)) = fail key_error
  value_of dev (plain (object n)) = fail type_error
  value_of dev (status_of r) = fail type_error

module _ {V : Type 0} (scan : Settings V) where
  unfoldable pub read_scan_motors : Run V (Unit {0})
  unfolding Stubs.read_and_wait
  read_scan_motors =
      self >>= λ s. Stubs.read_and_wait scan "scan_motor" (many s.scan_motors) none none

  -- The position of one motor, appended to start_pos.
  unfoldable pub read_start : String → Run V (Unit {0})
  unfolding Stubs.send_rpc_and_wait value_of
  read_start dev = Stubs.send_rpc_and_wait scan dev "read" >>= λ val.
      value_of dev val >>= λ v. modify (λ s. record s { start_pos = s.start_pos ++ v ∷ [] })

module _ {V : Type 0} (lib : Library V) (scan : Settings V) where
  -- `_optimize_trajectory`
  unfoldable pub optimize_trajectory : Run V (Unit {0})
  optimize_trajectory = when (scan.optim_trajectory == some "corridor") (
      modify (λ s. record s {
        positions = record (s.positions) { rows = lib.optimize_corridor s.positions.rows };
      }))

  -- `self.positions += self.start_pos` where the scan is relative.
  unfoldable pub offset_positions : Run V (Unit {0})
  unfolding add_start
  offset_positions = when scan.relative (
      self >>= λ s.
      or_else (add_start lib s.positions s.start_pos) (fail value_error)
        (λ p. modify (λ t. record t { positions = p })))

  -- `_set_position_offset`
  unfoldable pub set_position_offset : Run V (Unit {0})
  unfolding for_each read_start offset_positions
  set_position_offset =
      modify (λ s. record s { start_pos = [] })
      >> (self >>= λ s. for_each s.scan_motors 0 (λ i dev. read_start scan dev))
      >> offset_positions

  -- prepare_positions, on the class's `_calculate_positions`.
  unfoldable pub prepare_positions : Run V (Unit {0}) → Run V (Unit {0})
  unfolding optimize_trajectory set_position_offset check_limits
  prepare_positions calculate_positions =
      calculate_positions
      >> optimize_trajectory
      >> modify (λ s. record s { num_pos = some (count s.positions * scan.burst_at_each_point) })
      >> set_position_offset
      >> check_limits lib
