-- ===== src/ScanServer/Scans/Points/Runs.antt =====
-- A whole step scan (ScanBase.run in scan_server/scan_server/scans.py): the points that it announces
-- are those that it triggers and reads.
use bec.Prelude.{
  ℕ, suc, ◌+◌, ◌*◌, ◌≤◌, none, some, Bool, true, List, [], ◌∷◌, ◌≡◌, refl, sym, ◌∙◌, ap, subst,
  string_eq, arith, length, All,
}
use bec.ScanServer.Scans.Effects.{
  Positions, Request, Settings, returns, Run, modify, pure, when, or_else, for_each, for_range,
  yield_none, ◌>>◌,
}
use bec.ScanServer.Scans.Base
use bec.ScanServer.Scans.Base.{Library, Entry, row, scalar, entries, count}
use bec.ScanServer.Scans.Core
use bec.ScanServer.Scans.Kinds
use bec.ScanServer.Scans.Kinds.{Methods}
use bec.ScanServer.Scans.Hoare.{
  Does, then-Does, self-Does, modify-Does, when-Does, for_each-Does, for_range-Does,
}
use bec.ScanServer.Scans.Numbering.{upto, collect}
use bec.ScanServer.Scans.Points.{
  Frame, At, points, announced, wait-At, brackets-At, open_scan-At, yield_none-At,
}
use bec.ScanServer.Scans.Points.Steps.{Fits, move_to-At, at_each_point-At}

module _ {V : Type 0} (scan : Settings V) (f : Frame V) (l : List ℕ) where
  -- A change of burst_index only.
  set_burst-At :
      (t r p k : ℕ)
      → Does (At f l t r p) (modify (λ s. record s { burst_index = k })) (At f l t r p)
  set_burst-At t r p k = modify-Does (At f l t r p) (At f l t r p) _ (λ s a. record {
    motors_same = a.motors_same;
    places_same = a.places_same;
    start_same = a.start_same;
    total_same = a.total_same;
    triggered = a.triggered;
    read = a.read;
    opened = a.opened;
    point = a.point;
  })

  -- The scan has come to point n.
  abbrev Upto : ℕ → Request V → Type 0
  Upto n = At f l n n n

  at_entry-At :
      (ind : ℕ) (pos : Entry V) (p n : ℕ)
      → Fits scan f l (Core.coordinates scan pos)
      → suc p ≡ n
      → Does (Upto p) (Core.at_each_point scan ind pos) (Upto n)
  at_entry-At ind pos p n h e =
      subst (λ m. Does (Upto p) (Core.at_each_point scan ind pos) (Upto m)) e
        (at_each_point-At scan f l ind pos p h)

  abbrev one_burst : ℕ → Entry V → ℕ → Run V (Unit {0})
  one_burst ind pos k =
      modify (λ s. record s { burst_index = k }) >> Core.at_each_point scan ind pos

  bursts-At :
      (ind : ℕ) (pos : Entry V) (p n : ℕ)
      → Fits scan f l (Core.coordinates scan pos)
      → Does (Upto (p + 0)) (for_range n 0 (one_burst ind pos)) (Upto (p + (0 + n)))
  bursts-At ind pos p n h =
      for_range-Does (λ k. Upto (p + k)) n 0 (one_burst ind pos)
        (λ k.
          then-Does (Upto (p + k)) (Upto (p + k)) (Upto (p + suc k))
            (modify (λ s. record s { burst_index = k })) (Core.at_each_point scan ind pos)
            (set_burst-At (p + k) (p + k) (p + k) k)
            (at_entry-At ind pos (p + k) (p + suc k) h (omega arith)))

  burst-At :
      (ind : ℕ) (pos : Entry V) (p n : ℕ)
      → Fits scan f l (Core.coordinates scan pos)
      → p + scan.burst_at_each_point ≡ n
      → Does (Upto p) (Core.burst scan (Core.at_each_point scan) ind pos) (Upto n)
  unfolding Core.burst
  burst-At ind pos p n h e =
      let b = scan.burst_at_each_point in
      let start : p + 0 ≡ p = omega arith in
      let stop : p + (0 + b) ≡ n = omega arith in
      then-Does (Upto p) (Upto n) (Upto n) (for_range b 0 (one_burst ind pos)) _
        (subst (λ m. Does (Upto p) (for_range b 0 (one_burst ind pos)) (Upto m)) stop
          (subst (λ m. Does (Upto m) (for_range b 0 (one_burst ind pos)) (Upto (p + (0 + b)))) start
            (bursts-At ind pos p b h)))
        (set_burst-At n n n 0)

  entries-At :
      (es : List (Entry V))
      → All (λ pos. Fits scan f l (Core.coordinates scan pos)) es
      → Does
          (Upto 0)
          (for_each es 0 (Core.burst scan (Core.at_each_point scan)))
          (Upto (length es * scan.burst_at_each_point))
  entries-At es fits =
      let b = scan.burst_at_each_point in
      let loop = for_each es 0 (Core.burst scan (Core.at_each_point scan)) in
      let start : 0 * b ≡ 0 = omega arith in
      let stop : (0 + length es) * b ≡ length es * b = omega arith in
      subst (λ m. Does (Upto 0) loop (Upto m)) stop
        (subst (λ m. Does (Upto m) loop (Upto ((0 + length es) * b))) start
          (for_each-Does (λ j. Upto (j * b)) es 0 (Core.burst scan (Core.at_each_point scan))
            (λ pos. Fits scan f l (Core.coordinates scan pos))
            (λ j pos _ g. burst-At j pos (j * b) (suc j * b) g (omega arith)) fits))

  scan_core-At :
      All (λ pos. Fits scan f l (Core.coordinates scan pos)) (entries f.places)
      → Does
          (Upto 0)
          (Core.scan_core scan (Core.at_each_point scan))
          (Upto (count f.places * scan.burst_at_each_point))
  unfolding Core.scan_core
  scan_core-At fits =
      let core =
        λ (ps : Positions V). for_each (entries ps) 0 (Core.burst scan (Core.at_each_point scan)) in
      self-Does (Upto 0) (Upto (count f.places * scan.burst_at_each_point)) (λ s. core s.positions)
        (λ s a.
          subst
            (λ ps.
              (t : Request V) × (core ps s ≡ returns tt t)
              × Upto (count f.places * scan.burst_at_each_point) t)
            (sym a.places_same) (entries-At (entries f.places) fits s a))

  move_first-At :
      (pre_move : Bool) (es : List (Entry V))
      → All (λ pos. Fits scan f l (Core.coordinates scan pos)) es
      → Does
          (Upto 0)
          (or_else (Core.first es) (pure tt) (λ pos. when pre_move (Core.move_and_wait scan pos)))
          (Upto 0)
  unfolding or_else pure Core.move_and_wait
  move_first-At pre_move [] fits = λ s a. (s, refl, a)
  move_first-At pre_move (pos ∷ es) fits =
      when-Does (Upto 0) pre_move _ (move_to-At scan f l 0 0 0 (Core.coordinates scan pos) fits.0)

  pre_scan-At :
      (pre_move : Bool)
      → All (λ pos. Fits scan f l (Core.coordinates scan pos)) (entries f.places)
      → Does (Upto 0) (Core.pre_scan scan pre_move) (Upto 0)
  unfolding Core.pre_scan
  pre_scan-At pre_move fits =
      then-Does (Upto 0) (Upto 0) (Upto 0) _ _
        (self-Does (Upto 0) (Upto 0)
          (λ s.
            or_else (Core.first (entries s.positions)) (pure tt)
              (λ pos. when pre_move (Core.move_and_wait scan pos)))
          (λ s a.
            subst
              (λ ps.
                (t : Request V) × (or_else (Core.first (entries ps)) (pure tt)
                    (λ pos. when pre_move (Core.move_and_wait scan pos)) s
                  ≡ returns tt t)
                × Upto 0 t)
              (sym a.places_same) (move_first-At pre_move (entries f.places) fits s a)))
        (brackets-At scan f l 0 0 0).2

  finalize-At : (n : ℕ) → Fits scan f l f.start → Does (Upto n) (Core.finalize scan) (Upto n)
  unfolding Core.finalize Core.return_to_start Core.wait_for_primary
  finalize-At n h =
      then-Does (Upto n) (Upto n) (Upto n) _ _
        (self-Does (Upto n) (Upto n) (λ s. Core.move_to scan s.start_pos)
          (λ s a.
            subst (λ v. (t : Request V) × (Core.move_to scan v s ≡ returns tt t) × Upto n t)
              (sym a.start_same) (move_to-At scan f l n n n f.start h s a)))
        (wait-At scan f l n n n "read" "primary" (some "readout_primary") none)

-- The run of a step scan after its positions are prepared.
module _ {V : Type 0} (scan : Settings V) where
  abbrev frame_of : Request V → Frame V
  frame_of s = record {
    motors = s.scan_motors;
    places = s.positions;
    start = s.start_pos;
    total = s.num_pos;
  }

  abbrev pub number_of_points : Request V → ℕ
  number_of_points s = count s.positions * scan.burst_at_each_point

  -- A scan before its opening: nothing is announced, triggered or read, num_pos is as
  -- prepare_positions sets it, and each position and the start have a coordinate for every motor.
  pub record IsReady (s : Request V) : Type 0 where
    pub counted : s.num_pos ≡ some (number_of_points s)
    pub fits :
        All (λ pos. length s.scan_motors ≤ length (Core.coordinates scan pos)) (entries s.positions)
    pub start_fits : length s.scan_motors ≤ length s.start_pos
    pub untriggered : collect (points "trigger") s.sent ≡ []
    pub unread : collect (points "read") s.sent ≡ []
    pub unopened : collect announced s.sent ≡ []
    pub first_point : s.point_id ≡ 0

module _ {V : Type 0} (scan : Settings V) (f : Frame V) (n : ℕ) (P : Request V → Type 0) where
  -- What follows the preparation in ScanBase.run.
  rest-At :
      (m : Run V (Unit {0}))
      → f.total ≡ some n
      → All (λ pos. length f.motors ≤ length (Core.coordinates scan pos)) (entries f.places)
      → length f.motors ≤ length f.start
      → count f.places * scan.burst_at_each_point ≡ n
      → Does P m (At f [] 0 0 0)
      → Does P
          (m
            >> yield_none
            >> Core.open_scan scan "step"
            >> Core.stage scan
            >> Core.run_baseline_reading scan
            >> Core.pre_scan scan true
            >> Core.scan_core scan (Core.at_each_point scan)
            >> Core.finalize scan
            >> Core.unstage scan
            >> Core.cleanup scan)
          (At f (n ∷ []) n n n)
  unfolding Core.stage Core.run_baseline_reading Core.unstage Core.cleanup Core.close_scan
  rest-At m total fits start_fits e h =
      let l = n ∷ [] in
      let Q : ℕ → Request V → Type 0 = λ k. At f l k k k in
      let h1 =
        then-Does P (At f [] 0 0 0) (At f [] 0 0 0) m yield_none h
          (yield_none-At scan f 0 0 0 []) in
      let h2 =
        then-Does P (At f [] 0 0 0) (Q 0) _ _ h1 (open_scan-At scan f 0 0 0 n total "step") in
      let h3 = then-Does P (Q 0) (Q 0) _ _ h2 (brackets-At scan f l 0 0 0).0 in
      let h4 = then-Does P (Q 0) (Q 0) _ _ h3 (brackets-At scan f l 0 0 0).1 in
      let h5 = then-Does P (Q 0) (Q 0) _ _ h4 (pre_scan-At scan f l true fits) in
      let core =
        subst (λ k. Does (Q 0) (Core.scan_core scan (Core.at_each_point scan)) (Q k)) e
          (scan_core-At scan f l fits) in
      let h6 = then-Does P (Q 0) (Q n) _ _ h5 core in
      let h7 = then-Does P (Q n) (Q n) _ _ h6 (finalize-At scan f l n start_fits) in
      let h8 = then-Does P (Q n) (Q n) _ _ h7 (brackets-At scan f l n n n).3 in
      then-Does P (Q n) (Q n) _ _ h8 (brackets-At scan f l n n n).4

module _ {V : Type 0} (lib : Library V) (scan : Settings V) where
  -- A step scan whose preparation has returned and has left it ready, with a coordinate for every
  -- motor in each position, then runs to its end. It has announced once, in open_scan, the number of
  -- its positions times the bursts at each point, and has triggered and read exactly the points from
  -- 0 up to that number, each once and in order, which is also where its point counter stands.
  pub run-points :
      (calculate : Run V (Unit {0})) (s ready : Request V)
      → (Base.read_scan_motors scan >> Base.prepare_positions lib scan calculate) s
        ≡ returns tt ready
      → IsReady scan ready
      → (t : Request V) × (Kinds.run scan (Kinds.step_scan lib scan calculate) s ≡ returns tt t)
        × (collect announced t.sent ≡ number_of_points scan ready ∷ [])
        × (collect (points "trigger") t.sent ≡ upto (number_of_points scan ready))
        × (collect (points "read") t.sent ≡ upto (number_of_points scan ready))
        × (t.point_id ≡ number_of_points scan ready)
  unfolding Kinds.run Kinds.step_scan Core.stage Core.run_baseline_reading Core.unstage Core.cleanup
      Core.close_scan
  run-points calculate s ready e h =
      let f = frame_of scan ready in
      let n = number_of_points scan ready in
      let prepared : Does (λ x. x ≡ s)
          (Base.read_scan_motors scan >> Base.prepare_positions lib scan calculate)
          (At f [] 0 0 0) =
        λ x q. (
          ready,
          ap (Base.read_scan_motors scan >> Base.prepare_positions lib scan calculate) q ∙ e,
          record {
            motors_same = refl;
            places_same = refl;
            start_same = refl;
            total_same = refl;
            triggered = h.untriggered;
            read = h.unread;
            opened = h.unopened;
            point = h.first_point;
          },
        ) in
      let (t, e', a) =
        rest-At scan f n (λ x. x ≡ s) _ (h.counted) h.fits h.start_fits refl prepared s refl in
      (t, e', a.opened, a.triggered, a.read, a.point)
