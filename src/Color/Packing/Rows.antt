-- ===== src/Color/Packing/Rows.antt =====
-- Where the rows of the auxiliary luma come from.
use cheirizo.Prelude.{
  ℕ, zero, suc, ◌+◌, ◌-◌, ◌*◌, ◌/◌, ◌%◌, ◌≤◌, ◌<◌, min, false, ltb, leb, if◌then◌else◌, List, [],
  ◌++◌, ◌≡◌, ◌∙◌, refl, ap, arith, length, get_or, drop, length-append, length-replicate,
  get_or-append_left, get_or-append_right, Bool-cases, inl, inr,
}
use cheirizo.Color.Planes.{length-take, length-drop, get_or-take, get_or-drop}
use cheirizo.Color.Convert.{Yuv444Frame}
use cheirizo.Color.Packing.{aux_row, aux_rows}

-- The planes have the size of the frame, whose sides are even.
pub record IsFrame (f : Yuv444Frame) : Type 0 where
  pub y_size : length f.y ≡ f.width * f.height
  pub u_size : length f.u ≡ f.width * f.height
  pub v_size : length f.v ≡ f.width * f.height
  pub even_width : f.width % 2 ≡ 0
  pub even_height : f.height % 2 ≡ 0

-- The source of a row of the auxiliary luma: the row's number in its plane.
abbrev pub source_u : ℕ → ℕ
source_u row = 2 * (8 * (row / 16) + row % 16) + 1

abbrev pub source_v : ℕ → ℕ
source_v row = 2 * (8 * (row / 16) + (row % 16 - 8)) + 1

abbrev pub row_of : Yuv444Frame → ℕ → List ℕ
row_of f row =
    if ltb (row % 16) 8
    then aux_row f.u f.width f.height (source_u row)
    else aux_row f.v f.width f.height (source_v row)

pub slice_fits : (w h r len : ℕ) → len ≡ w * h → r < h → r * w + w ≤ len
slice_fits w h r len e lt = grind arith

pub length-aux_row :
    (plane : List ℕ) (w h r : ℕ) → length plane ≡ w * h → length (aux_row plane w h r) ≡ w
length-aux_row plane w h r e = elim (Bool-cases (leb h r)) [
  | inl beyond ↦ rw beyond (length-replicate w 128)
  | inr inside ↦ rw inside (
      let fits = slice_fits w h r _ e (ground arith) in
      let dropped = length-drop (r * w) plane (omega arith) in
      length-take w (drop (r * w) plane) (omega arith))
]

pub get_or-aux_row :
    (plane : List ℕ) (w h r x d : ℕ)
    → r < h
    → x < w
    → get_or (aux_row plane w h r) x d ≡ get_or plane (r * w + x) d
get_or-aux_row plane w h r x d lt k =
    let inside : leb h r ≡ false = ground arith in
    rw inside (get_or-take w x d (drop (r * w) plane) k ∙ get_or-drop (r * w) x d plane)

pub length-row_of : (f : Yuv444Frame) (row : ℕ) → IsFrame f → length (row_of f row) ≡ f.width
length-row_of f row v = elim (Bool-cases (ltb (row % 16) 8)) [
  | inl of_u ↦ rw of_u (length-aux_row f.u f.width f.height _ v.u_size)
  | inr of_v ↦ rw of_v (length-aux_row f.v f.width f.height _ v.v_size)
]

-- The rows from `row` on, in closed form.
unfoldable pub rows_from : Yuv444Frame → ℕ → ℕ → List ℕ
rows_from f row zero = []
rows_from f row (suc n) = row_of f row ++ rows_from f (row + 1) n

-- The two counters are what the row's number says.
pub aux_rows-rows_from :
    (f : Yuv444Frame) (n row u v : ℕ)
    → u ≡ 8 * (row / 16) + min (row % 16) 8
    → v ≡ 8 * (row / 16) + (row % 16 - 8)
    → aux_rows f n row u v ≡ rows_from f row n
unfolding aux_rows rows_from
aux_rows-rows_from f zero row u v hu hv = refl
aux_rows-rows_from f (suc n) row u v hu hv = elim (Bool-cases (ltb (row % 16) 8)) [
  | inl of_u ↦
      let small : row % 16 < 8 = ground arith in
      let e : u ≡ 8 * (row / 16) + row % 16 = omega arith in
      rw (of_u, e)
        (ap (λ rest. aux_row f.u f.width f.height (source_u row) ++ rest)
          (aux_rows-rows_from f n (row + 1) (8 * (row / 16) + row % 16 + 1) v (omega arith)
            (omega arith)))
  | inr of_v ↦
      let big : 8 ≤ row % 16 = ground arith in
      rw (of_v, hv)
        (ap (λ rest. aux_row f.v f.width f.height (source_v row) ++ rest)
          (aux_rows-rows_from f n (row + 1) u (8 * (row / 16) + (row % 16 - 8) + 1) (omega arith)
            (omega arith)))
]

module _ (f : Yuv444Frame) (v : IsFrame f) where
  pub length-rows_from : (n row : ℕ) → length (rows_from f row n) ≡ n * f.width
  unfolding rows_from
  length-rows_from zero row = omega arith
  length-rows_from (suc n) row = grind (
    arith,
    length-append (row_of f row) (rows_from f (row + 1) n),
    length-row_of f row v,
    length-rows_from n (row + 1),
  )

  pub get_or-rows_from :
      (n row i x d : ℕ)
      → i < n
      → x < f.width
      → get_or (rows_from f row n) (i * f.width + x) d ≡ get_or (row_of f (row + i)) x d
  unfolding rows_from
  get_or-rows_from zero row i x d h k = absurd (omega arith)
  get_or-rows_from (suc n) row zero x d h k =
      let first : 0 * f.width + x ≡ x = omega arith in
      let same : row + 0 ≡ row = omega arith in
      rw (first, same) (get_or-append_left (row_of f row) _ x d (rw (length-row_of f row v) k))
  get_or-rows_from (suc n) row (suc i) x d h k =
      let e : row + 1 + i ≡ row + suc i = omega arith in
      get_or-append_right (row_of f row) _ (suc i * f.width + x) (i * f.width + x) d
        (let len = length-row_of f row v in grind arith)
      ∙ get_or-rows_from n (row + 1) i x d (omega arith) k
      ∙ rw e refl
