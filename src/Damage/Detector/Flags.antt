-- ===== src/Damage/Detector/Flags.antt =====
-- The flags that the comparison loops set, by the index of their tile.
use cheirizo.Prelude.{
  take, drop, min, ◌-◌, ℕ, zero, suc, ◌+◌, ◌*◌, ◌<◌, Bool, false, ◌≡◌, refl, ap, List, [], ◌∷◌,
  ◌++◌, length, get_or, arith, get_or-append_left, get_or-append_right, length-append,
}
use cheirizo.Damage.Regions.Quiet.{AllFalse}
use cheirizo.Damage.Stats.{DamageFloats, DamageConfig}
use cheirizo.Damage.Detector.{tile_flag, row_flags, rows_flags, compare_rows}
use cheirizo.Damage.Compare.{count_different_pixels_self}

module _ (fl : DamageFloats) (c : DamageConfig fl) (prev curr : List ℕ) (w h : ℕ) where
  length-row_flags : (left tx ty : ℕ) → length (row_flags fl c prev curr w h left tx ty) ≡ left
  unfolding row_flags
  length-row_flags zero tx ty = refl
  length-row_flags (suc left) tx ty = ap suc (length-row_flags left (tx + 1) ty)

  get_or-row_flags :
      (left tx ty i : ℕ)
      → i < left
      → get_or (row_flags fl c prev curr w h left tx ty) i false
        ≡ tile_flag fl c prev curr w h (tx + i) ty
  unfolding row_flags
  get_or-row_flags zero tx ty i lt = absurd (omega arith)
  get_or-row_flags (suc left) tx ty zero lt = let e : tx + 0 ≡ tx = omega arith in rw e
  get_or-row_flags (suc left) tx ty (suc i) lt =
      let e : tx + suc i ≡ tx + 1 + i = omega arith in
      rw e (get_or-row_flags left (tx + 1) ty i (omega arith))

  get_or-rows_flags_from :
      (n left ty k i : ℕ)
      → k < left
      → i < n
      → get_or (rows_flags fl c prev curr w h n left ty) (k * n + i) false
        ≡ tile_flag fl c prev curr w h i (ty + k)
  unfolding rows_flags
  get_or-rows_flags_from n zero ty k i lt lt' = absurd (omega arith)
  get_or-rows_flags_from n (suc left) ty zero i lt lt' =
      let e : 0 * n + i ≡ i = omega arith in
      let e' : ty + 0 ≡ ty = omega arith in
      let e'' : 0 + i ≡ i = omega arith in
      let within : i < length (row_flags fl c prev curr w h n 0 ty) =
        rw (length-row_flags n 0 ty) lt' in
      rw
        (
          e,
          e',
          get_or-append_left (row_flags fl c prev curr w h n 0 ty)
              (rows_flags fl c prev curr w h n left (ty + 1)) i false within,
        )
        (rw e'' at (get_or-row_flags n 0 ty i lt'))
  get_or-rows_flags_from n (suc left) ty (suc k) i lt lt' =
      let e : suc k * n + i ≡ length (row_flags fl c prev curr w h n 0 ty) + (k * n + i) =
        grind (arith, length-row_flags n 0 ty) in
      let e' : ty + suc k ≡ ty + 1 + k = omega arith in
      rw
        (
          e',
          get_or-append_right (row_flags fl c prev curr w h n 0 ty)
              (rows_flags fl c prev curr w h n left (ty + 1)) (suc k * n + i) (k * n + i) false e,
        )
        (get_or-rows_flags_from n left (ty + 1) k i (omega arith) lt')

  -- The flag at the index of a tile of the grid is the flag of that tile.
  pub get_or-rows_flags :
      (n left ty tx : ℕ)
      → ty < left
      → tx < n
      → get_or (rows_flags fl c prev curr w h n left 0) (ty * n + tx) false
        ≡ tile_flag fl c prev curr w h tx ty
  get_or-rows_flags n left ty tx lt lt' =
      let e : 0 + ty ≡ ty = omega arith in rw e at (get_or-rows_flags_from n left 0 ty tx lt lt')

  pub length-rows_flags :
      (n left ty : ℕ) → length (rows_flags fl c prev curr w h n left ty) ≡ n * left
  unfolding rows_flags
  length-rows_flags n zero ty = omega arith
  length-rows_flags n (suc left) ty = grind (
    arith,
    length-append (row_flags fl c prev curr w h n 0 ty)
        (rows_flags fl c prev curr w h n left (ty + 1)),
    length-row_flags n 0 ty,
    length-rows_flags n left (ty + 1),
  )

AllFalse-append : (xs ys : List Bool) → AllFalse xs → AllFalse ys → AllFalse (xs ++ ys)
AllFalse-append [] ys a b = b
AllFalse-append (x ∷ xs) ys a b = (a.0, AllFalse-append xs ys a.1 b)

-- A frame compared with itself sets no flag.
module _ (fl : DamageFloats) (c : DamageConfig fl) (frame : List ℕ) (w h : ℕ) where
  compare_rows_self :
      (tx tw stride threshold left y : ℕ)
      → compare_rows fl frame frame tx tw stride threshold left y ≡ 0
  unfolding compare_rows
  compare_rows_self tx tw stride threshold zero y = refl
  compare_rows_self tx tw stride threshold (suc left) y = ground (
    arith,
    count_different_pixels_self (take (tw * 4) (drop (y * stride + tx * 4) frame)) threshold,
    compare_rows_self tx tw stride threshold left (y + 1),
  )

  tile_flag_self : (tx ty : ℕ) → tile_flag fl c frame frame w h tx ty ≡ false
  unfolding tile_flag
  tile_flag_self tx ty = ground (
    arith,
    compare_rows_self (tx * c.tile_size) (min c.tile_size (w - tx * c.tile_size)) (w * 4)
        c.pixel_threshold (min c.tile_size (h - ty * c.tile_size)) (ty * c.tile_size),
  )

  row_flags_self : (left tx ty : ℕ) → AllFalse (row_flags fl c frame frame w h left tx ty)
  unfolding row_flags
  row_flags_self zero tx ty = tt
  row_flags_self (suc left) tx ty = (tile_flag_self tx ty, row_flags_self left (tx + 1) ty)

  pub rows_flags_self : (n left ty : ℕ) → AllFalse (rows_flags fl c frame frame w h n left ty)
  unfolding rows_flags
  rows_flags_self n zero ty = tt
  rows_flags_self n (suc left) ty =
      AllFalse-append (row_flags fl c frame frame w h n 0 ty)
        (rows_flags fl c frame frame w h n left (ty + 1)) (row_flags_self n 0 ty)
        (rows_flags_self n left (ty + 1))
