-- ===== src/Color/Packing/Recovery.antt =====
-- What of the chroma can be read back from the two views.
use cheirizo.Prelude.{
  ℕ, ◌+◌, ◌*◌, ◌/◌, ◌%◌, ◌<◌, true, false, ltb, ◌==◌, if◌then◌else◌, List, ◌≡◌, ◌∙◌, refl, ap,
  arith, get_or, ◌⊎◌, inl, inr, Bool-cases,
}
use cheirizo.Prelude.Words.{div_ceil}
use cheirizo.Color.Planes.{get_or-take, get_or-plane_from}
use cheirizo.Color.Convert.{Yuv444Frame}
use cheirizo.Color.Packing.{Yuv420Frame, chroma_index_420, pack_auxiliary_view, odd_columns}
use cheirizo.Color.Packing.Rows.{
  IsFrame, source_u, source_v, row_of, aux_rows-rows_from, get_or-rows_from, get_or-aux_row,
}

-- The rows of the auxiliary luma that hold the odd row `y` of U and of V.
abbrev pub u_row : ℕ → ℕ
u_row y = 16 * (y / 16) + y % 16 / 2

abbrev pub v_row : ℕ → ℕ
v_row y = 16 * (y / 16) + y % 16 / 2 + 8

-- A receiver's reading of the chroma at an odd column or an odd row.
abbrev pub read_u : Yuv420Frame → ℕ → ℕ → ℕ
read_u aux x y =
    if y % 2 == 1
    then get_or aux.y (u_row y * aux.width + x) 0
    else get_or aux.u (chroma_index_420 (x / 2) (y / 2) (aux.width / 2)) 0

abbrev pub read_v : Yuv420Frame → ℕ → ℕ → ℕ
read_v aux x y =
    if y % 2 == 1
    then get_or aux.y (v_row y * aux.width + x) 0
    else get_or aux.v (chroma_index_420 (x / 2) (y / 2) (aux.width / 2)) 0

module _ (f : Yuv444Frame) (v : IsFrame f) where
  pub aux_y-row :
      (r x : ℕ)
      → r < f.height
      → x < f.width
      → get_or (pack_auxiliary_view f).y (r * f.width + x) 0 ≡ get_or (row_of f r) x 0
  unfolding pack_auxiliary_view
  aux_y-row r x h k =
      let inside : r * f.width + x < f.height * f.width = grind arith in
      let padded : r < div_ceil f.height 16 * 16 = omega arith in
      get_or-take (f.height * f.width) (r * f.width + x) 0 _ inside
      ∙ rw (aux_rows-rows_from f (div_ceil f.height 16 * 16) 0 0 0 refl refl) (
          get_or-rows_from f v (div_ceil f.height 16 * 16) 0 r x 0 padded k
          ∙ ap (λ (row : ℕ). get_or (row_of f row) x 0) (omega arith))

  odd_row_u :
      (x y : ℕ)
      → x < f.width
      → y < f.height
      → y % 2 ≡ 1
      → get_or (pack_auxiliary_view f).y (u_row y * f.width + x) 0 ≡ get_or f.u (y * f.width + x) 0
  odd_row_u x y hx hy odd =
      let of_u : ltb (u_row y % 16) 8 ≡ true = ground arith in
      let e : source_u (u_row y) ≡ y = omega arith in
      aux_y-row (u_row y) x (omega arith) hx
      ∙ rw (of_u, e) (get_or-aux_row f.u f.width f.height y x 0 hy hx)

  odd_row_v :
      (x y : ℕ)
      → x < f.width
      → y < f.height
      → y % 2 ≡ 1
      → v_row y < f.height
      → get_or (pack_auxiliary_view f).y (v_row y * f.width + x) 0 ≡ get_or f.v (y * f.width + x) 0
  odd_row_v x y hx hy odd there =
      let of_v : ltb (v_row y % 16) 8 ≡ false = ground arith in
      let e : source_v (v_row y) ≡ y = omega arith in
      aux_y-row (v_row y) x there hx
      ∙ rw (of_v, e) (get_or-aux_row f.v f.width f.height y x 0 hy hx)

  odd_column :
      (plane : List ℕ) (x y : ℕ)
      → x < f.width
      → y < f.height
      → x % 2 ≡ 1
      → y % 2 ≡ 0
      → get_or
          (odd_columns plane f.width f.height)
          (chroma_index_420 (x / 2) (y / 2) (f.width / 2))
          0
        ≡ get_or plane (y * f.width + x) 0
  odd_column plane x y hx hy odd even =
      let i : y / 2 < f.height / 2 = ground (arith, v.even_height) in
      let j : x / 2 < f.width / 2 = ground (arith, v.even_width) in
      let ey : (0 + y / 2) * 2 ≡ y = omega arith in
      let ex : x / 2 * 2 + 1 ≡ x = omega arith in
      get_or-plane_from _ (f.width / 2) 0 (f.height / 2) (y / 2) (x / 2) 0 i j ∙ rw (ey, ex) refl

  pub read_u-auxiliary :
      (x y : ℕ)
      → x < f.width
      → y < f.height
      → (x % 2 ≡ 1) ⊎ (y % 2 ≡ 1)
      → read_u (pack_auxiliary_view f) x y ≡ get_or f.u (y * f.width + x) 0
  unfolding pack_auxiliary_view
  read_u-auxiliary x y hx hy odd = elim (Bool-cases (y % 2 == 1)) [
    | inl odd_y ↦ rw odd_y (odd_row_u x y hx hy (ground arith))
    | inr even_y ↦ rw even_y (odd_column f.u x y hx hy (ground arith) (ground arith))
  ]

  read_v-auxiliary :
      (x y : ℕ)
      → x < f.width
      → y < f.height
      → (x % 2 ≡ 1) ⊎ (y % 2 ≡ 1)
      → (y % 2 ≡ 0) ⊎ (v_row y < f.height)
      → read_v (pack_auxiliary_view f) x y ≡ get_or f.v (y * f.width + x) 0
  unfolding pack_auxiliary_view
  read_v-auxiliary x y hx hy odd there = elim (Bool-cases (y % 2 == 1)) [
    | inl odd_y ↦ rw odd_y (odd_row_v x y hx hy (ground arith) (ground arith))
    | inr even_y ↦ rw even_y (odd_column f.v x y hx hy (ground arith) (ground arith))
  ]

-- Of a frame whose planes have its size and whose sides are even, the chroma at an odd column or an odd
-- row, on an even row or where the row that holds its V lies within the height of the frame, is read
-- back from the auxiliary view as it was, U and V.
pub auxiliary_recovers :
    (f : Yuv444Frame) (x y : ℕ)
    → IsFrame f
    → x < f.width
    → y < f.height
    → (x % 2 ≡ 1) ⊎ (y % 2 ≡ 1)
    → (y % 2 ≡ 0) ⊎ (v_row y < f.height)
    → (read_u (pack_auxiliary_view f) x y ≡ get_or f.u (y * f.width + x) 0)
      × (read_v (pack_auxiliary_view f) x y ≡ get_or f.v (y * f.width + x) 0)
auxiliary_recovers f x y v hx hy odd there =
    (read_u-auxiliary f v x y hx hy odd, read_v-auxiliary f v x y hx hy odd there)
