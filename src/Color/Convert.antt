-- ===== src/Color/Convert.antt =====
-- src/rdp/channels/graphics/egfx/color/convert.rs: the scalar conversion and the box filter. The AVX2
-- and NEON routines are not modelled.
pub mod Range
pub mod Overflow
use cheirizo.Prelude.{
  ℕ, zero, suc, ◌+◌, ◌-◌, ◌*◌, ◌/◌, ◌%◌, Bool, true, false, ◌&&◌, ltb, leb, ◌==◌, if◌then◌else◌,
  Option, none, some, List, [], ◌∷◌, length, get_or, replicate,
}
use cheirizo.Prelude.Int.{ℤ, pos, negsuc, ◌+ℤ◌, ◌*ℤ◌, shr16, clamp_ℕ}
use cheirizo.Color.Planes.{plane_from}

pub data ColorMatrix : Type 0 where
  bt601 bt709 open_h264 : ColorMatrix

unfoldable pub auto_select : ℕ → ℕ → ColorMatrix
auto_select width height = if leb 1280 width && leb 720 height then bt709 else bt601

abbrev pub Coefficients : Type 0
Coefficients = ℤ × ℤ × ℤ

unfoldable pub y_coefficients_fixed : ColorMatrix → Coefficients
y_coefficients_fixed bt601 = (pos 19595, pos 38470, pos 7471)
y_coefficients_fixed bt709 = (pos 13933, pos 46871, pos 4732)
y_coefficients_fixed open_h264 = (pos 16896, pos 33024, pos 6400)

unfoldable pub u_coefficients_fixed : ColorMatrix → Coefficients
u_coefficients_fixed bt601 = (negsuc 11055, negsuc 21711, pos 32768)
u_coefficients_fixed bt709 = (negsuc 7507, negsuc 25259, pos 32768)
u_coefficients_fixed open_h264 = (negsuc 9727, negsuc 18943, pos 28672)

unfoldable pub v_coefficients_fixed : ColorMatrix → Coefficients
v_coefficients_fixed bt601 = (pos 32768, negsuc 27439, negsuc 5327)
v_coefficients_fixed bt709 = (pos 32768, negsuc 29763, negsuc 3003)
v_coefficients_fixed open_h264 = (pos 28672, negsuc 24063, negsuc 4607)

unfoldable pub is_limited_range : ColorMatrix → Bool
is_limited_range bt601 = false
is_limited_range bt709 = false
is_limited_range open_h264 = true

pub record BgraSample : Type 0 where
  pub r : ℕ
  pub g : ℕ
  pub b : ℕ

-- `bgra[i]`, which is in bounds for a buffer of four bytes per pixel.
unfoldable pub from_bgra_slice : List ℕ → ℕ → BgraSample
from_bgra_slice bgra pixel_index = record {
  b = get_or bgra (pixel_index * 4) 0;
  g = get_or bgra (pixel_index * 4 + 1) 0;
  r = get_or bgra (pixel_index * 4 + 2) 0;
}

-- `kr * r + kg * g + kb * b + 32768`.
unfoldable pub weighted : Coefficients → BgraSample → ℤ
weighted (kr, kg, kb) s = kr *ℤ pos s.r +ℤ kg *ℤ pos s.g +ℤ kb *ℤ pos s.b +ℤ pos 32768

unfoldable pub luma : ColorMatrix → BgraSample → ℕ
unfolding weighted y_coefficients_fixed is_limited_range
luma matrix s =
    let y_base = shr16 (weighted (y_coefficients_fixed matrix) s) in
    if is_limited_range matrix then clamp_ℕ 16 235 (y_base +ℤ pos 16) else clamp_ℕ 0 255 y_base

unfoldable pub chroma : ColorMatrix → Coefficients → BgraSample → ℕ
unfolding weighted is_limited_range
chroma matrix k s =
    let val = shr16 (weighted k s) +ℤ pos 128 in
    if is_limited_range matrix then clamp_ℕ 16 240 val else clamp_ℕ 0 255 val

unfoldable pub convert_bgra_sample_to_yuv : BgraSample → ColorMatrix → ℕ × ℕ × ℕ
unfolding luma chroma u_coefficients_fixed v_coefficients_fixed
convert_bgra_sample_to_yuv s matrix = (
  luma matrix s,
  chroma matrix (u_coefficients_fixed matrix) s,
  chroma matrix (v_coefficients_fixed matrix) s,
)

pub record Yuv444Frame : Type 0 where
  pub y : List ℕ
  pub u : List ℕ
  pub v : List ℕ
  pub width : ℕ
  pub height : ℕ

unfoldable pub pixel_count : Yuv444Frame → ℕ
pixel_count f = f.width * f.height

-- The loop of `bgra_to_yuv444_scalar` over the pixels from `i` on, one list for each plane: `part`
-- picks the plane's sample.
unfoldable pub converted : (ℕ × ℕ × ℕ → ℕ) → List ℕ → ColorMatrix → ℕ → ℕ → List ℕ
converted part bgra matrix i zero = []
converted part bgra matrix i (suc n) =
    part (convert_bgra_sample_to_yuv (from_bgra_slice bgra i) matrix)
    ∷ converted part bgra matrix (i + 1) n

-- `none` is the panic on a buffer of another size.
unfoldable pub bgra_to_yuv444 : List ℕ → ℕ → ℕ → ColorMatrix → Option Yuv444Frame
unfolding converted
bgra_to_yuv444 bgra width height matrix =
    if length bgra == width * height * 4
    then some (record {
      y = converted (λ p. p.0) bgra matrix 0 (width * height);
      u = converted (λ p. p.1) bgra matrix 0 (width * height);
      v = converted (λ p. p.2) bgra matrix 0 (width * height);
      width = width;
      height = height;
    })
    else none

-- The rounded average of the 2x2 block in row `cy` and column `cx` of blocks. The source's `as u8` changes
-- nothing, since the average of bytes is a byte.
unfoldable pub box_average : List ℕ → ℕ → ℕ → ℕ → ℕ
box_average plane width cy cx =
    let y = 2 * cy in
    let x = 2 * cx in
    (get_or plane (y * width + x) 0
      + get_or plane (y * width + (x + 1)) 0
      + get_or plane ((y + 1) * width + x) 0
      + get_or plane ((y + 1) * width + (x + 1)) 0
      + 2)
    / 4

-- `none` is the panic of an assertion.
unfoldable pub subsample_chroma_420 : List ℕ → ℕ → ℕ → Option (List ℕ)
unfolding box_average
subsample_chroma_420 plane width height =
    if width % 2 == 0 && height % 2 == 0 && length plane == width * height
    then some (plane_from (λ cy cx. box_average plane width cy cx) (width / 2) 0 (height / 2))
    else none
