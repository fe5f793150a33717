-- ===== src/ScanServer/Scans/Positions/Raster.antt =====
-- What get_2D_raster_pos computes (scan_server/scan_server/scans.py): the points of the grid, on each
-- second line backwards.
use mathlib.Core.List.Perm
use mathlib.Core.List.{reverse_aux, reverse, reverse_perm, flatten, Perm}
use bec.Prelude.{
  suc, ◌+◌, ◌*◌, Bool, true, false, not, List, [], ◌∷◌, ◌++◌, map, ◌≡◌, refl, sym, ◌∙◌, ap,
  if◌then◌else◌, length, length-append, arith,
}
use bec.ScanServer.Scans.Positions.{Matrices, even_rows, set_even_rows, columns, get_2d_raster_pos}

module _ {V : Type 0} where
  -- What numpy documents of the functions that the raster uses, on axes of which the second is not
  -- empty: meshgrid repeats the axes along each other, fliplr reverses each row, and ravel joins the
  -- rows.
  pub record IsNumpy (np : Matrices V) : Type 0 where
    pub transpose_x :
        (xs : List V) (y : V) (ys : List V)
        → np.transpose (np.meshgrid xs (y ∷ ys)).0 ≡ map (λ x. map (λ _. x) (y ∷ ys)) xs
    pub transpose_y :
        (xs : List V) (y : V) (ys : List V)
        → np.transpose (np.meshgrid xs (y ∷ ys)).1 ≡ map (λ _. y ∷ ys) xs
    pub fliplr_rows : (m : List (List V)) → np.fliplr m ≡ map reverse m
    pub ravel_rows : (m : List (List V)) → np.ravel m ≡ flatten m

  -- The points of a line at x.
  abbrev pub line : V → List V → List (List V)
  line x ys = map (λ y. x ∷ y ∷ []) ys

  -- The grid line by line, each in the order of ys, or every second one backwards.
  abbrev pub grid : List V → List V → List (List V)
  grid [] ys = []
  grid (x ∷ xs) ys = line x ys ++ grid xs ys

  abbrev pub snake : Bool → List V → List V → List (List V)
  snake back [] ys = []
  snake back (x ∷ xs) ys = line x (if back then reverse ys else ys) ++ snake (not back) xs ys

  -- The lines' second coordinates.
  abbrev turns : Bool → List V → List V → List (List V)
  turns back [] ys = []
  turns back (x ∷ xs) ys = (if back then reverse ys else ys) ∷ turns (not back) xs ys

  set_even_rows-turns :
      (xs ys : List V)
      → set_even_rows (map (λ _. ys) xs) (map reverse (even_rows (map (λ _. ys) xs)))
        ≡ turns true xs ys
  unfolding set_even_rows even_rows
  set_even_rows-turns [] ys = refl
  set_even_rows-turns (x ∷ []) ys = refl
  set_even_rows-turns (x ∷ x' ∷ xs) ys =
      ap (λ rows. reverse ys ∷ ys ∷ rows) (set_even_rows-turns xs ys)

  columns-line :
      (x : V) (ys rest : List V) (xs : List V) (zs : List V)
      → length ys ≡ length zs
      → columns (map (λ _. x) ys ++ xs) (zs ++ rest) ≡ line x zs ++ columns xs rest
  unfolding columns
  columns-line x [] rest xs [] h = refl
  columns-line x [] rest xs (z ∷ zs) h = absurd (omega arith)
  columns-line x (y ∷ ys) rest xs [] h = absurd (omega arith)
  columns-line x (y ∷ ys) rest xs (z ∷ zs) h =
      ap (λ r. (x ∷ z ∷ []) ∷ r) (columns-line x ys rest xs zs (omega arith))

  length-reverse_aux : (ys rs : List V) → length (reverse_aux ys rs) ≡ length ys + length rs
  length-reverse_aux [] rs = omega arith
  length-reverse_aux (y ∷ ys) rs = omega (arith, length-reverse_aux ys (y ∷ rs))

  length-turn : (back : Bool) (ys : List V) → length (if back then reverse ys else ys) ≡ length ys
  length-turn true ys = omega (arith, length-reverse_aux ys [])
  length-turn false ys = refl

  columns-snake :
      (back : Bool) (xs ys : List V)
      → columns (flatten (map (λ x. map (λ _. x) ys) xs)) (flatten (turns back xs ys))
        ≡ snake back xs ys
  unfolding columns flatten
  columns-snake back [] ys = refl
  columns-snake back (x ∷ xs) ys =
      columns-line x ys _ _ (if back then reverse ys else ys) (sym (length-turn back ys))
      ∙ ap (λ r. line x (if back then reverse ys else ys) ++ r) (columns-snake (not back) xs ys)

  columns-grid :
      (xs ys : List V)
      → columns (flatten (map (λ x. map (λ _. x) ys) xs)) (flatten (map (λ _. ys) xs)) ≡ grid xs ys
  unfolding columns flatten
  columns-grid [] ys = refl
  columns-grid (x ∷ xs) ys =
      columns-line x ys _ _ ys refl ∙ ap (λ r. line x ys ++ r) (columns-grid xs ys)

  turn-Perm :
      (x : V) (back : Bool) (ys : List V)
      → Perm (line x (if back then reverse ys else ys)) (line x ys)
  turn-Perm x true ys = Perm.map (λ y. x ∷ y ∷ []) (reverse_perm ys)
  turn-Perm x false ys = Perm.refl (line x ys)

  snake-Perm : (back : Bool) (xs ys : List V) → Perm (snake back xs ys) (grid xs ys)
  snake-Perm back [] ys = Perm.refl []
  snake-Perm back (x ∷ xs) ys = Perm.append (turn-Perm x back ys) (snake-Perm (not back) xs ys)

  length-line : (x : V) (ys : List V) → length (line x ys) ≡ length ys
  length-line x [] = refl
  length-line x (y ∷ ys) = ap suc (length-line x ys)

  length-snake : (back : Bool) (xs ys : List V) → length (snake back xs ys) ≡ length xs * length ys
  length-snake back [] ys = omega arith
  length-snake back (x ∷ xs) ys = omega (
    arith,
    length-append (line x (if back then reverse ys else ys)) (snake (not back) xs ys),
    length-line x (if back then reverse ys else ys),
    length-turn back ys,
    length-snake (not back) xs ys,
  )

module _ {V : Type 0} (np : Matrices V) (law : IsNumpy np) (xs : List V) (y : V) (ys : List V) where
  get_2d_raster_pos-grid : get_2d_raster_pos np false xs (y ∷ ys) ≡ grid xs (y ∷ ys)
  unfolding get_2d_raster_pos
  get_2d_raster_pos-grid =
      rw
        (
          law.transpose_x xs y ys,
          law.transpose_y xs y ys,
          law.ravel_rows (map (λ _. y ∷ ys) xs),
          law.ravel_rows (map (λ x. map (λ _. x) (y ∷ ys)) xs),
        )
        (columns-grid xs (y ∷ ys))

  get_2d_raster_pos-snake_lem : get_2d_raster_pos np true xs (y ∷ ys) ≡ snake true xs (y ∷ ys)
  unfolding get_2d_raster_pos
  get_2d_raster_pos-snake_lem =
      rw
        (
          law.transpose_x xs y ys,
          law.transpose_y xs y ys,
          law.fliplr_rows (even_rows (map (λ _. y ∷ ys) xs)),
          set_even_rows-turns xs (y ∷ ys),
          law.ravel_rows (turns true xs (y ∷ ys)),
          law.ravel_rows (map (λ x. map (λ _. x) (y ∷ ys)) xs),
        )
        (columns-snake true xs (y ∷ ys))

-- With numpy as it is documented and a second axis that is not empty, get_2D_raster_pos gives the
-- grid of the two axes line by line: without snaking each line in the order of the second axis, with
-- snaking the first line and then every second one backwards. Snaking only reorders the points, and
-- there are as many of them as the product of the axes' lengths.
pub get_2d_raster_pos-snake :
    {V : Type 0} (np : Matrices V) (xs : List V) (y : V) (ys : List V)
    → IsNumpy np
    → (get_2d_raster_pos np false xs (y ∷ ys) ≡ grid xs (y ∷ ys))
      × (get_2d_raster_pos np true xs (y ∷ ys) ≡ snake true xs (y ∷ ys))
      × Perm (get_2d_raster_pos np true xs (y ∷ ys)) (get_2d_raster_pos np false xs (y ∷ ys))
      × (length (get_2d_raster_pos np true xs (y ∷ ys)) ≡ length xs * suc (length ys))
get_2d_raster_pos-snake np xs y ys law =
    let g = get_2d_raster_pos-grid np law xs y ys in
    let e = get_2d_raster_pos-snake_lem np law xs y ys in
    (g, e, rw (g, e) (snake-Perm true xs (y ∷ ys)), rw e (length-snake true xs (y ∷ ys)))
