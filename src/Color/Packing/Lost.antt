-- ===== src/Color/Packing/Lost.antt =====
-- The rows of V that the truncation of the auxiliary luma cuts off.
use native.Mathlib.Nat.{
  div-lt_iff_lt-mul, mod-lt, mod-eq-sub-div-mul, div-mul-le_self, mul-le-mul_right,
}
use cheirizo.Prelude.{
  ℕ, suc, ◌+◌, ◌*◌, ◌/◌, ◌%◌, ◌≤◌, ◌<◌, ltb, leb, List, [], ◌∷◌, ◌≡◌, ◌∙◌, sym, refl, subst, arith,
  length, get_or, ◌⊎◌, inl, inr, Bool-cases,
}
use cheirizo.Prelude.Words.{div_ceil}
use cheirizo.Color.Planes.{get_or-plane_from, length-plane_from, length-take}
use cheirizo.Color.Convert.{Yuv444Frame}
use cheirizo.Color.Packing.{Yuv420Frame, pack_auxiliary_view, odd_columns}
use cheirizo.Color.Packing.Rows.{
  IsFrame, source_v, row_of, aux_rows-rows_from, length-rows_from, get_or-aux_row,
}
use cheirizo.Color.Packing.Recovery.{v_row, aux_y-row}

list_ext :
    (xs ys : List ℕ)
    → length xs ≡ length ys
    → ((i : ℕ) → i < length xs → get_or xs i 0 ≡ get_or ys i 0)
    → xs ≡ ys
list_ext [] [] e h = refl
list_ext [] (y ∷ ys) e h = absurd (omega arith)
list_ext (x ∷ xs) [] e h = absurd (omega arith)
list_ext (x ∷ xs) (y ∷ ys) e h =
    let rest = list_ext xs ys (omega arith) (λ i lt. h (suc i) (omega arith)) in
    ground (arith, h 0 (omega arith), rest)

-- The rows of a plane agree.
plane_ext :
    (xs ys : List ℕ) (w h : ℕ)
    → length xs ≡ h * w
    → length ys ≡ h * w
    → ((r x : ℕ) → r < h → x < w → get_or xs (r * w + x) 0 ≡ get_or ys (r * w + x) 0)
    → xs ≡ ys
plane_ext xs ys w h ex ey agree = list_ext xs ys (ex ∙ sym ey) λ i lt.
    let pos : 0 < w = grind arith in
    let row : i / w < h = (div-lt_iff_lt-mul pos).1 (omega arith) in
    let column : i % w < w = mod-lt i pos in
    let e : i / w * w + i % w ≡ i =
      let q = mod-eq-sub-div-mul i w in let le = div-mul-le_self i w in omega arith in
    subst (λ (k : ℕ). get_or xs k 0 ≡ get_or ys k 0) e (agree (i / w) (i % w) row column)

-- Two frames that differ at most in V, and there only at the odd rows whose place in the auxiliary luma
-- lies beyond the height of the frame.
pub record DifferBeyond (f g : Yuv444Frame) : Type 0 where
  pub same_width : g.width ≡ f.width
  pub same_height : g.height ≡ f.height
  pub same_u : g.u ≡ f.u
  pub same_v :
      (x y : ℕ)
      → x < f.width
      → y < f.height
      → (y % 2 ≡ 0) ⊎ (v_row y < f.height)
      → get_or g.v (y * f.width + x) 0 ≡ get_or f.v (y * f.width + x) 0

module _ (f g : Yuv444Frame) (v : IsFrame f) (w : IsFrame g) (d : DifferBeyond f g) where
  same_rows :
      (r x : ℕ) → r < f.height → x < f.width → get_or (row_of g r) x 0 ≡ get_or (row_of f r) x 0
  same_rows r x hr hx = elim (Bool-cases (ltb (r % 16) 8)) [
    | inl of_u ↦ rw (of_u, d.same_u, d.same_width, d.same_height) refl
    | inr of_v ↦ elim (Bool-cases (leb f.height (source_v r))) [
      | inl padding ↦ rw (of_v, d.same_width, d.same_height, padding) refl
      | inr inside ↦
          let lt : source_v r < f.height = ground arith in
          let here : v_row (source_v r) < f.height = ground arith in
          rw (of_v, d.same_width, d.same_height)
            (get_or-aux_row g.v f.width f.height (source_v r) x 0 lt hx
              ∙ d.same_v x (source_v r) hx lt (inr here)
              ∙ sym (get_or-aux_row f.v f.width f.height (source_v r) x 0 lt hx))
    ]
  ]

  same_columns : odd_columns g.v f.width f.height ≡ odd_columns f.v f.width f.height
  same_columns =
      plane_ext _ _ (f.width / 2) (f.height / 2)
        (length-plane_from _ (f.width / 2) 0 (f.height / 2))
        (length-plane_from _ (f.width / 2) 0 (f.height / 2))
        λ r x hr hx.
          get_or-plane_from _ (f.width / 2) 0 (f.height / 2) r x 0 hr hx
          ∙ d.same_v (x * 2 + 1) ((0 + r) * 2) (omega arith) (omega arith) (inl (omega arith))
          ∙ sym (get_or-plane_from _ (f.width / 2) 0 (f.height / 2) r x 0 hr hx)

pub length-aux_y :
    (f : Yuv444Frame) → IsFrame f → length (pack_auxiliary_view f).y ≡ f.height * f.width
unfolding pack_auxiliary_view
length-aux_y f v = length-take (f.height * f.width) _ (
    rw (aux_rows-rows_from f (div_ceil f.height 16 * 16) 0 0 0 refl refl) (
      rw (length-rows_from f v (div_ceil f.height 16 * 16) 0) (
        let more : f.height ≤ div_ceil f.height 16 * 16 = omega arith in
        mul-le-mul_right f.width more)))

frame_ext :
    (a b : Yuv420Frame)
    → a.y ≡ b.y
    → a.u ≡ b.u
    → a.v ≡ b.v
    → a.width ≡ b.width
    → a.height ≡ b.height
    → a ≡ b
frame_ext a b y u v w h = ground arith

-- Two frames of even sides, with planes of their size, have the same auxiliary view if they differ only in
-- luma and in V at odd rows whose place in the auxiliary luma lies beyond the height of the frame:
-- those rows are not sent.
pub tail_rows_lost :
    (f g : Yuv444Frame)
    → IsFrame f
    → IsFrame g
    → DifferBeyond f g
    → pack_auxiliary_view g ≡ pack_auxiliary_view f
tail_rows_lost f g v w d =
    let y_same : (pack_auxiliary_view g).y ≡ (pack_auxiliary_view f).y =
      plane_ext _ _ f.width f.height (rw (length-aux_y g w, d.same_width, d.same_height) refl)
        (length-aux_y f v)
        (λ r x hr hx.
          subst
            (λ (k : ℕ).
              get_or (pack_auxiliary_view g).y (r * k + x) 0
              ≡ get_or (pack_auxiliary_view f).y (r * f.width + x) 0)
            d.same_width
            (aux_y-row g w r x (rw d.same_height hr) (rw d.same_width hx)
              ∙ same_rows f g v w d r x hr hx
              ∙ sym (aux_y-row f v r x hr hx))) in
    unfold pack_auxiliary_view in
    frame_ext _ _ y_same (rw (d.same_u, d.same_width, d.same_height) refl)
      (rw (d.same_width, d.same_height) (same_columns f g v w d)) d.same_width d.same_height
