-- ===== src/ScanServer/Scans/Positions.antt =====
-- The functions that compute positions (scan_server/scan_server/scans.py): a raster, Fermat's
-- spiral and the two round patterns, over the operations of floats and of numpy that they use.
pub mod Raster
pub mod Rings
use bec.Prelude.{
  Option, none, some, ◌||◌, ◌==◌, nat_eq, ℕ, zero, suc, ◌+◌, ◌-◌, ◌*◌, Bool, false, ◌&&◌, not, List,
  [], ◌∷◌, ◌++◌, if◌then◌else◌,
}

-- Floats: `decimal n k` is the literal n / 10 ^ k, `truncate` is int(…), and `ltb` is <.
pub record Floats (V : Type 0) : Type 0 where
  pub add : V → V → V
  pub sub : V → V → V
  pub mul : V → V → V
  pub div : V → V → V
  pub abs : V → V
  pub sqrt : V → V
  pub sin : V → V
  pub cos : V → V
  pub floor : V → V
  pub pi : V
  pub decimal : ℕ → ℕ → V
  pub truncate : V → ℕ
  pub ltb : V → V → Bool

-- The functions of numpy on matrices, given as lists of rows: `T`, fliplr, meshgrid and ravel, and
-- linspace.
pub record Matrices (V : Type 0) : Type 0 where
  pub transpose : List (List V) → List (List V)
  pub fliplr : List (List V) → List (List V)
  pub meshgrid : List V → List V → List (List V) × List (List V)
  pub ravel : List (List V) → List V
  pub linspace : V → V → ℕ → List V

-- The numbers from i, n of them: Python's range(i, i + n).
unfoldable pub range : ℕ → ℕ → List ℕ
range i zero = []
range i (suc n) = i ∷ range (suc i) n

module _ {V : Type 0} where
  -- m[::2], and the assignment of rows to it.
  unfoldable pub even_rows : List (List V) → List (List V)
  even_rows [] = []
  even_rows (r ∷ []) = r ∷ []
  even_rows (r ∷ q ∷ rs) = r ∷ even_rows rs

  unfoldable pub set_even_rows : List (List V) → List (List V) → List (List V)
  set_even_rows [] new = []
  set_even_rows (r ∷ []) [] = r ∷ []
  set_even_rows (r ∷ []) (n ∷ new) = n ∷ []
  set_even_rows (r ∷ q ∷ rs) [] = r ∷ q ∷ rs
  set_even_rows (r ∷ q ∷ rs) (n ∷ new) = n ∷ q ∷ set_even_rows rs new

  -- np.vstack((x, y)).T of two vectors
  unfoldable pub columns : List V → List V → List (List V)
  columns [] ys = []
  columns (x ∷ xs) [] = []
  columns (x ∷ xs) (y ∷ ys) = (x ∷ y ∷ []) ∷ columns xs ys

  -- get_2D_raster_pos of the axes xs and ys
  unfoldable pub get_2d_raster_pos : Matrices V → Bool → List V → List V → List (List V)
  unfolding even_rows set_even_rows columns
  get_2d_raster_pos np snaked xs ys =
      let grids = np.meshgrid xs ys in
      let y_rows = np.transpose grids.1 in
      let y_rows' =
        if snaked then set_even_rows y_rows (np.fliplr (even_rows y_rows)) else y_rows in
      columns (np.ravel (np.transpose grids.0)) (np.ravel y_rows')

-- The members of a comprehension that the generating functions keep.
unfoldable pub comprehend : {V : Type 0} → List ℕ → (ℕ → Bool) → (ℕ → List V) → List (List V)
comprehend [] p f = []
comprehend (i ∷ is) p f = if p i then f i ∷ comprehend is p f else comprehend is p f

module _ {V : Type 0} (float : Floats V) where
  abbrev pub nat : ℕ → V
  nat n = float.decimal n 0

  abbrev pub max : V → V → V
  max a b = if float.ltb a b then b else a

  -- A point of Fermat's spiral, by its index.
  abbrev pub spiral_point : V → V → ℕ → List V
  spiral_point phi step i =
      let radius = float.mul (float.mul step (float.decimal 57 2)) (float.sqrt (nat i)) in
      let angle = float.mul (nat i) phi in
      float.mul radius (float.sin angle) ∷ float.mul radius (float.cos angle) ∷ []

  -- Is a coordinate at most half of a length away from 0?
  abbrev pub is_within : V → V → Bool
  is_within length v = not (float.ltb (float.div length (nat 2)) (float.abs v))

  abbrev pub is_inside : V → V → List V → Bool
  is_inside length1 length2 (x ∷ y ∷ []) = is_within length1 x && is_within length2 y
  is_inside length1 length2 _ = false

  unfoldable pub get_fermat_spiral_pos : V → V → V → V → V → V → Bool → List (List V)
  unfolding comprehend range
  get_fermat_spiral_pos m1_start m1_stop m2_start m2_stop step spiral_type center =
      let phi =
        float.add
          (float.mul (float.mul (nat 2) float.pi)
            (float.div (float.add (nat 1) (float.sqrt (nat 5))) (nat 2)))
          (float.mul spiral_type float.pi) in
      let start = if center then 0 else 1 in
      let length_axis1 = float.abs (float.sub m1_stop m1_start) in
      let length_axis2 = float.abs (float.sub m2_stop m2_start) in
      let n_max = float.truncate (
        float.div
          (float.div (float.mul (float.mul length_axis1 length_axis2) (float.decimal 32 1)) step)
          step) in
      comprehend (range start (n_max - start))
        (λ i. is_inside length_axis1 length_axis2 (spiral_point phi step i)) (spiral_point phi step)

  -- The angle of point ith of ring ir.
  abbrev pub angle : ℕ → ℕ → ℕ → V
  angle nth ir ith = float.mul (nat ith) (float.div (float.mul (nat 2) float.pi) (nat (nth * ir)))

  -- A point of a ring in a region of interest.
  abbrev pub roi_point : V → V → V → ℕ → ℕ → ℕ → List V
  roi_point dr cenx ceny nth ir ith =
      let rr = float.mul (nat ir) dr in
      float.add (float.mul rr (float.cos (angle nth ir ith))) cenx
      ∷ float.add (float.mul rr (float.sin (angle nth ir ith))) ceny
      ∷ []

  -- The test of a point of a ring, before the centre is added to it.
  abbrev pub is_in_roi : V → V → V → ℕ → ℕ → ℕ → Bool
  is_in_roi lx ly dr nth ir ith =
      let rr = float.mul (nat ir) dr in
      float.ltb (float.abs (float.mul rr (float.cos (angle nth ir ith)))) (float.div lx (nat 2))
      && float.ltb (float.abs (float.mul rr (float.sin (angle nth ir ith)))) (float.div ly (nat 2))

  -- The rings of the region, in their order.
  unfoldable pub roi_rings : V → V → V → V → V → ℕ → List ℕ → List (List V)
  unfolding comprehend range
  roi_rings lx ly dr cenx ceny nth [] = []
  roi_rings lx ly dr cenx ceny nth (ir ∷ irs) =
      comprehend (range 0 (nth * ir)) (is_in_roi lx ly dr nth ir) (roi_point dr cenx ceny nth ir)
      ++ roi_rings lx ly dr cenx ceny nth irs

  -- none is the ZeroDivisionError on no angles.
  unfoldable pub get_round_roi_scan_positions : V → V → V → ℕ → V → V → Option (List (List V))
  unfolding roi_rings range
  get_round_roi_scan_positions lx ly dr nth cenx ceny =
      let nr = 1 + float.truncate (float.floor (float.div (max lx ly) dr)) in
      if nth == 0 then none else some (roi_rings lx ly dr cenx ceny nth (range 1 (nr + 1)))

  -- The points of one ring.
  unfoldable pub ring : V → V → V → ℕ → ℕ → List ℕ → List (List V)
  ring rr cenx ceny nth ir [] = []
  ring rr cenx ceny nth ir (ith ∷ is) =
      (float.add (float.mul rr (float.sin (angle nth ir ith))) cenx
        ∷ float.add (float.mul rr (float.cos (angle nth ir ith))) ceny
        ∷ [])
      ∷ ring rr cenx ceny nth ir is

  unfoldable pub rings : V → V → V → V → ℕ → List ℕ → List (List V)
  unfolding ring range
  rings r_in dr cenx ceny nth [] = []
  rings r_in dr cenx ceny nth (ir ∷ irs) =
      ring (float.add r_in (float.mul (nat ir) dr)) cenx ceny nth ir (range 0 (nth * ir))
      ++ rings r_in dr cenx ceny nth irs

  -- none is the ZeroDivisionError on no radii or no angles.
  unfoldable pub get_round_scan_positions : V → V → ℕ → ℕ → V → V → Option (List (List V))
  unfolding rings range
  get_round_scan_positions r_in r_out nr nth cenx ceny =
      let dr = float.div (float.sub r_in r_out) (nat nr) in
      if nr == 0 || nth == 0 then none else some (rings r_in dr cenx ceny nth (range 1 (nr + 1)))
