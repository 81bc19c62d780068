-- ===== src/Color/Packing/Main.antt =====
-- The main view, and what both views are fit for.
use native.Mathlib.Nat.{mul_comm}
use cheirizo.Prelude.{
  ℕ, ◌+◌, ◌*◌, ◌/◌, ◌%◌, ◌≤◌, ◌<◌, none, some, List, ◌≡◌, ◌∙◌, refl, arith, length, get_or,
}
use cheirizo.Color.Planes.{plane_from, get_or-plane_from, length-plane_from}
use cheirizo.Color.Convert.{Yuv444Frame, subsample_chroma_420, box_average}
use cheirizo.Color.Packing.{
  Yuv420Frame, chroma_index_420, pack_auxiliary_view, pack_main_view, pack_dual_views,
  validate_for_encoding,
}
use cheirizo.Color.Packing.Rows.{IsFrame}
use cheirizo.Color.Packing.Lost.{length-aux_y}

abbrev pub averages : List ℕ → ℕ → ℕ → List ℕ
averages plane width height =
    plane_from (λ cy cx. box_average plane width cy cx) (width / 2) 0 (height / 2)

abbrev pub main_of : Yuv444Frame → Yuv420Frame
main_of f = record {
  y = f.y;
  u = averages f.u f.width f.height;
  v = averages f.v f.width f.height;
  width = f.width;
  height = f.height;
}

subsample_defined :
    (plane : List ℕ) (w h : ℕ)
    → w % 2 ≡ 0
    → h % 2 ≡ 0
    → length plane ≡ w * h
    → subsample_chroma_420 plane w h ≡ some (averages plane w h)
unfolding subsample_chroma_420
subsample_defined plane w h ew eh len = ground arith

pack_main_view-main_of : (f : Yuv444Frame) → IsFrame f → pack_main_view f ≡ some (main_of f)
unfolding pack_main_view plane_from
pack_main_view-main_of f v =
    rw
      (
        pack_main_view,
        subsample_defined f.u f.width f.height v.even_width v.even_height v.u_size,
        subsample_defined f.v f.width f.height v.even_width v.even_height v.v_size,
      )
      refl

-- The sum of the four samples of a block.
abbrev pub block_sum : List ℕ → ℕ → ℕ → ℕ → ℕ
block_sum plane width cy cx =
    get_or plane (2 * cy * width + 2 * cx) 0
    + get_or plane (2 * cy * width + (2 * cx + 1)) 0
    + get_or plane ((2 * cy + 1) * width + 2 * cx) 0
    + get_or plane ((2 * cy + 1) * width + (2 * cx + 1)) 0

-- The sample is the average of a block, rounded to the nearest and up where that is two.
abbrev pub IsAverage : ℕ → ℕ → Type 0
IsAverage sample sum = (4 * sample ≤ sum + 2) × (sum < 4 * sample + 2)

IsAverage-sample :
    (plane : List ℕ) (w h cy cx : ℕ)
    → cy < h / 2
    → cx < w / 2
    → IsAverage
        (get_or (averages plane w h) (chroma_index_420 cx cy (w / 2)) 0)
        (block_sum plane w cy cx)
unfolding box_average
IsAverage-sample plane w h cy cx hy hx =
    rw (get_or-plane_from (λ cy cx. box_average plane w cy cx) (w / 2) 0 (h / 2) cy cx 0 hy hx)
      (let e : 0 + cy ≡ cy = omega arith in rw e (omega arith, omega arith))

-- Of a frame whose planes have its size and whose sides are even, the main view exists, keeps the luma
-- as it is, and holds the rounded average of each 2x2 block of chroma.
pub pack_main_view_averages :
    (f : Yuv444Frame) (cx cy : ℕ)
    → IsFrame f
    → cx < f.width / 2
    → cy < f.height / 2
    → (m : Yuv420Frame) × (pack_main_view f ≡ some m)
      × (m.y ≡ f.y)
      × IsAverage
          (get_or m.u (chroma_index_420 cx cy (m.width / 2)) 0)
          (block_sum f.u f.width cy cx)
      × IsAverage
          (get_or m.v (chroma_index_420 cx cy (m.width / 2)) 0)
          (block_sum f.v f.width cy cx)
pack_main_view_averages f cx cy v hx hy = (
  main_of f,
  pack_main_view-main_of f v,
  refl,
  IsAverage-sample f.u f.width f.height cy cx hy hx,
  IsAverage-sample f.v f.width f.height cy cx hy hx,
)

valid_sizes :
    (f : Yuv420Frame)
    → f.width % 2 ≡ 0
    → f.height % 2 ≡ 0
    → length f.y ≡ f.width * f.height
    → length f.u ≡ f.width / 2 * (f.height / 2)
    → length f.v ≡ f.width / 2 * (f.height / 2)
    → validate_for_encoding f ≡ none
unfolding validate_for_encoding
valid_sizes f ew eh y u v = ground arith

sizes : (plane : List ℕ) (w h : ℕ) → length (averages plane w h) ≡ w / 2 * (h / 2)
sizes plane w h = length-plane_from _ (w / 2) 0 (h / 2) ∙ mul_comm (h / 2) (w / 2)

auxiliary_valid :
    (f : Yuv444Frame) → IsFrame f → validate_for_encoding (pack_auxiliary_view f) ≡ none
unfolding pack_auxiliary_view
auxiliary_valid f v =
    valid_sizes (pack_auxiliary_view f) v.even_width v.even_height
      (length-aux_y f v ∙ mul_comm f.height f.width)
      (length-plane_from _ (f.width / 2) 0 (f.height / 2) ∙ mul_comm (f.height / 2) (f.width / 2))
      (length-plane_from _ (f.width / 2) 0 (f.height / 2) ∙ mul_comm (f.height / 2) (f.width / 2))

-- Of a frame whose planes have its size and whose sides are even, both views exist and pass the
-- validation for the encoder.
pub pack_dual_views_valid :
    (f : Yuv444Frame)
    → IsFrame f
    → (main aux : Yuv420Frame) × (pack_dual_views f ≡ some (main, aux))
      × (validate_for_encoding main ≡ none)
      × (validate_for_encoding aux ≡ none)
unfolding pack_dual_views
pack_dual_views_valid f v = (
  main_of f,
  pack_auxiliary_view f,
  rw (pack_main_view-main_of f v, pack_dual_views) refl,
  valid_sizes (main_of f) v.even_width v.even_height v.y_size (sizes f.u f.width f.height)
      (sizes f.v f.width f.height),
  auxiliary_valid f v,
)
