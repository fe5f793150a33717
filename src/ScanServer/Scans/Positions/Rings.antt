-- ===== src/ScanServer/Scans/Positions/Rings.antt =====
-- How many points the round patterns have, and where Fermat's spiral stays
-- (scan_server/scan_server/scans.py).
use bec.Prelude.{
  some, ◌≤◌, ℕ, zero, suc, ◌+◌, ◌*◌, Bool, true, List, [], ◌∷◌, ◌≡◌, refl, ap, length,
  length-append, arith, All, Bool-cases, inl, inr,
}
use bec.ScanServer.Scans.Positions.{
  Floats, range, comprehend, is_inside, get_fermat_spiral_pos, ring, rings,
  get_round_scan_positions,
}

length-range : (i n : ℕ) → length (range i n) ≡ n
unfolding range
length-range i zero = refl
length-range i (suc n) = ap suc (length-range (suc i) n)

module _ {V : Type 0} (float : Floats V) where
  length-ring :
      (rr cx cy : V) (nth ir : ℕ) (is : List ℕ) → length (ring float rr cx cy nth ir is) ≡ length is
  unfolding ring
  length-ring rr cx cy nth ir [] = refl
  length-ring rr cx cy nth ir (ith ∷ is) = ap suc (length-ring rr cx cy nth ir is)

  -- The n rings from number i on.
  length-rings :
      (r dr cx cy : V) (nth i n : ℕ)
      → 2 * length (rings float r dr cx cy nth (range i n)) + nth * n ≡ nth * (n * (2 * i + n))
  unfolding rings range
  length-rings r dr cx cy nth i zero = omega arith
  length-rings r dr cx cy nth i (suc n) = omega (
    arith,
    length-rings r dr cx cy nth (suc i) n,
    length-append
        (ring float (float.add r (float.mul (float.decimal i 0) dr)) cx cy nth i
          (range 0 (nth * i)))
        (rings float r dr cx cy nth (range (suc i) n)),
    length-ring (float.add r (float.mul (float.decimal i 0) dr)) cx cy nth i (range 0 (nth * i)),
    length-range 0 (nth * i),
  )

-- With at least one radius nr and one angle nth, a round scan has nr + 1 rings, not nr: its points are
-- nth for the first ring and nth more for each further one, nth * (nr + 1) * (nr + 2) / 2 in all.
pub length-get_round_scan_positions :
    {V : Type 0} (float : Floats V) (r_in r_out cenx ceny : V) (nr nth : ℕ)
    → 1 ≤ nr
    → 1 ≤ nth
    → (ps : List (List V)) × (get_round_scan_positions float r_in r_out nr nth cenx ceny ≡ some ps)
      × (2 * length ps ≡ nth * ((nr + 1) * (nr + 2)))
unfolding get_round_scan_positions
length-get_round_scan_positions float r_in r_out cenx ceny nr nth h k =
    let dr = float.div (float.sub r_in r_out) (float.decimal nr 0) in
    (
      rings float r_in dr cenx ceny nth (range 1 (nr + 1)),
      ground (arith, h, k),
      omega (arith, length-rings float r_in dr cenx ceny nth 1 (nr + 1)),
    )

-- What a comprehension keeps passes its test.
comprehend-All :
    {V : Type 0} (is : List ℕ) (p : List V → Bool) (f : ℕ → List V)
    → All (λ r. p r ≡ true) (comprehend is (λ i. p (f i)) f)
unfolding comprehend
comprehend-All [] p f = tt
comprehend-All (i ∷ is) p f = elim (Bool-cases (p (f i))) [
  | inl e ↦ rw e (e, comprehend-All is p f)
  | inr e ↦ rw e (comprehend-All is p f)
]

-- No point of Fermat's spiral is further from 0 in a coordinate than half of the distance between
-- that motor's start and stop.
get_fermat_spiral_pos-is_inside :
    {V : Type 0} (float : Floats V) (a b c d step kind : V) (center : Bool)
    → All
        (λ r. is_inside float (float.abs (float.sub b a)) (float.abs (float.sub d c)) r ≡ true)
        (get_fermat_spiral_pos float a b c d step kind center)
unfolding get_fermat_spiral_pos
get_fermat_spiral_pos-is_inside float a b c d step kind center = search comprehend-All
