-- ===== src/ScanServer/Scans/Limits.antt =====
-- The check of a scan's positions against the limits of its motors (`_check_limits` of RequestBase,
-- scan_server/scan_server/scans.py).
use bec.Prelude.{
  ℕ, suc, String, Option, none, some, Bool, true, false, ◌&&◌, List, [], ◌∷◌, ◌≡◌, ◌⊎◌, inl, inr,
  refl, if◌then◌else◌, get_elem?, every, arith, Option-cases,
}
use bec.ScanServer.Scans.Effects.{Request, Outcome, returns, pure, fail, self, or_else}
use bec.ScanServer.Scans.Base
use bec.ScanServer.Scans.Base.{Library, Entry, row, scalar, entries}

-- Did a run return?
abbrev pub returned : {V A : Type 0} → Outcome V A → Bool
returned (returns a s) = true
returned _ = false

module _ {V : Type 0} (lib : Library V) where
  -- Is the coordinate i of a position there, and within the limits?
  abbrev pub is_within : ℕ → V → V → Entry V → Bool
  is_within i low high (scalar v) = false
  is_within i low high (row r) = elim (get_elem? r i) [
    | none ↦ false
    | some v ↦ lib.leb low v && lib.leb v high
  ]

  -- The limits of the motors, from number i on, before the first one that has no restriction; none
  -- where a motor among them is unknown.
  abbrev pub restrictions : ℕ → List String → Option (List (ℕ × V × V))
  restrictions i [] = some []
  restrictions i (d ∷ ds) =
      let rest = restrictions (suc i) ds in
      elim (lib.limits d) [
        | none ↦ none
        | some (low, high) ↦
            if lib.leb high low
            then some []
            else elim rest [ none ↦ none | some l ↦ some ((i, low, high) ∷ l) ]
      ]

  -- Does every position respect all of these limits?
  abbrev pub respects : List (Entry V) → Option (List (ℕ × V × V)) → Bool
  respects ps none = false
  respects ps (some l) = every (λ b. every (is_within b.0 b.1 b.2) ps) l

  -- One motor is accepted without a change of the object, or an error is raised.
  check_axis-cases :
      (low high : V) (d : String) (i : ℕ) (ps : List (Entry V)) (s : Request V)
      → ((Base.check_axis lib low high d i ps s ≡ returns tt s)
          × (every (is_within i low high) ps ≡ true))
        ⊎ ((returned (Base.check_axis lib low high d i ps s) ≡ false)
            × (every (is_within i low high) ps ≡ false))
  unfolding Base.check_axis pure fail or_else
  check_axis-cases low high d i [] s = inl (refl, refl)
  check_axis-cases low high d i (scalar v ∷ ps) s = inr (refl, refl)
  check_axis-cases low high d i (row r ∷ ps) s = ground (arith, check_axis-cases low high d i ps s)

  check_motors-returned :
      (ps : List (Entry V)) (i : ℕ) (ds : List String) (s : Request V)
      → returned (Base.check_motors lib ps i ds s) ≡ respects ps (restrictions i ds)
  unfolding Base.check_motors pure fail or_else
  check_motors-returned ps i [] s = refl
  check_motors-returned ps i (d ∷ ds) s = elim (Option-cases (lib.limits d)) [
    | inl e ↦ ground arith
    | inr (l, e) ↦
        ground (arith, check_axis-cases l.0 l.1 d i ps s, check_motors-returned ps (suc i) ds s)
  ]

  -- The check of a scan returns exactly when every position of the scan has, for each motor that
  -- stands before the first motor without a restriction, a coordinate within that motor's limits,
  -- and those motors are known. The motors from that first one on are not looked at.
  pub check_limits-returned :
      (s : Request V)
      → returned (Base.check_limits lib s)
        ≡ respects (entries s.positions) (restrictions 0 s.scan_motors)
  unfolding Base.check_limits self
  check_limits-returned s = check_motors-returned (entries s.positions) 0 s.scan_motors s
