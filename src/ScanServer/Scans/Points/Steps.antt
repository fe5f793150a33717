-- ===== src/ScanServer/Scans/Points/Steps.antt =====
-- A step scan (ScanBase in scan_server/scan_server/scans.py) from its opening to its end: how many
-- points it triggers and reads.
use bec.Prelude.{
  ℕ, suc, ◌+◌, ◌≤◌, ◌<◌, none, some, List, [], ◌∷◌, ◌≡◌, refl, sym, ap, subst, string_eq, arith,
  length, All, ltb,
}
use bec.ScanServer.Scans.Effects.{nowhere, Request, Settings, returns, pure}
use bec.ScanServer.Scans.Stubs
use bec.ScanServer.Scans.Base.{Entry}
use bec.ScanServer.Scans.Core
use bec.ScanServer.Scans.Hoare.{Does, then-Does, self-Does, modify-Does, when-Does, for_each-Does}
use bec.ScanServer.Scans.Points.{Frame, At, trigger-At, read-At, wait-At, set_one-At}

module _ {V : Type 0} (scan : Settings V) (f : Frame V) (l : List ℕ) where
  -- A target has a coordinate for each motor, or none at all.
  abbrev pub Fits : List V → Type 0
  Fits pos = length f.motors ≤ length pos

  all_true : {A : Type 0} (xs : List A) → All (λ a. Unit {0}) xs
  all_true [] = tt
  all_true (x ∷ xs) = (tt, all_true xs)

  pub move_to-At :
      (t r p : ℕ) (pos : List V)
      → Fits pos
      → Does (At f l t r p) (Core.move_to scan pos) (At f l t r p)
  unfolding Core.move_to pure
  move_to-At t r p [] h = λ s a. (s, refl, a)
  move_to-At t r p (v ∷ vs) h =
      then-Does (At f l t r p) (At f l t r p) (At f l t r p) _ _
        (self-Does (At f l t r p) (At f l t r p) _ (λ s a.
          for_each-Does (λ n. At f l t r p) s.scan_motors 0 (Stubs.set_one scan (v ∷ vs))
            (λ d. Unit {0})
            (λ j d b g. set_one-At scan f l t r p (v ∷ vs) j d (
              subst (λ ms. j < 0 + length ms → j < length (v ∷ vs)) (sym a.motors_same)
                (λ b'. omega arith) b))
            (all_true s.scan_motors) s a))
        (wait-At scan f l t r p "move" "scan_motor" (some "scan_motor") none)

  trigger_and_read-At :
      (p : ℕ) → Does (At f l p p p) (Core.trigger_and_read scan) (At f l (suc p) (suc p) p)
  unfolding Core.trigger_and_read
  trigger_and_read-At p =
      then-Does (At f l p p p) (At f l (suc p) p p) (At f l (suc p) (suc p) p) _ _
        (then-Does (At f l p p p) (At f l (suc p) p p) (At f l (suc p) p p) _ _
          (self-Does (At f l p p p) (At f l (suc p) p p)
            (λ s. Stubs.trigger scan "trigger" s.point_id)
            (λ s a.
              subst
                (λ n.
                  (t : Request V) × (Stubs.trigger scan "trigger" n s ≡ returns tt t)
                  × At f l (suc p) p p t)
                (sym a.point) (trigger-At scan f l p p s a)))
          (wait-At scan f l (suc p) p p "trigger" "trigger" none (some scan.exp_time)))
        (self-Does (At f l (suc p) p p) (At f l (suc p) (suc p) p)
          (λ s. Stubs.read scan "readout_primary" nowhere (some s.point_id) (some "primary"))
          (λ s a.
            subst
              (λ n.
                (t : Request V) × (Stubs.read scan "readout_primary" nowhere (some n)
                    (some "primary") s
                  ≡ returns tt t)
                × At f l (suc p) (suc p) p t)
              (sym a.point) (read-At scan f l (suc p) p s a)))

  pub at_each_point-At :
      (ind : ℕ) (pos : Entry V) (p : ℕ)
      → Fits (Core.coordinates scan pos)
      → Does (At f l p p p) (Core.at_each_point scan ind pos) (At f l (suc p) (suc p) (suc p))
  unfolding Core.at_each_point Core.move_and_wait Core.wait_for_primary
  at_each_point-At ind pos p h =
      then-Does (At f l p p p) (At f l (suc p) (suc p) p) (At f l (suc p) (suc p) (suc p)) _ _
        (then-Does (At f l p p p) (At f l (suc p) (suc p) p) (At f l (suc p) (suc p) p) _ _
          (then-Does (At f l p p p) (At f l p p p) (At f l (suc p) (suc p) p) _ _
            (then-Does (At f l p p p) (At f l p p p) (At f l p p p) _ _
              (move_to-At p p p (Core.coordinates scan pos) h)
              (when-Does (At f l p p p) (ltb 0 ind) _
                (wait-At scan f l p p p "read" "primary" (some "readout_primary") none)))
            (trigger_and_read-At p))
          (wait-At scan f l (suc p) (suc p) p "read" "scan_motor" (some "readout_primary") none))
        (modify-Does (At f l (suc p) (suc p) p) (At f l (suc p) (suc p) (suc p)) _ (λ s a. record {
          motors_same = a.motors_same;
          places_same = a.places_same;
          start_same = a.start_same;
          total_same = a.total_same;
          triggered = a.triggered;
          read = a.read;
          opened = a.opened;
          point = ap suc a.point;
        }))
