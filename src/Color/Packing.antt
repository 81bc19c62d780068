-- ===== src/Color/Packing.antt =====
-- src/rdp/channels/graphics/egfx/color/yuv444_packing.rs, without the diagnostics and the float
-- conversion back to BGRA. A plane that a loop fills from start to end is built in that order.
pub mod Rows
pub mod Recovery
pub mod Lost
pub mod Main
use cheirizo.Prelude.{
  ℕ, zero, suc, ◌+◌, ◌*◌, ◌/◌, ◌%◌, Bool, true, false, ◌&&◌, ltb, leb, ◌==◌, if◌then◌else◌, Option,
  none, some, List, [], ◌++◌, length, get_or, take, drop, replicate,
}
use cheirizo.Prelude.Words.{div_ceil}
use cheirizo.Color.Planes.{plane_from}
use cheirizo.Color.Convert.{Yuv444Frame, subsample_chroma_420}

pub record Yuv420Frame : Type 0 where
  pub y : List ℕ
  pub u : List ℕ
  pub v : List ℕ
  pub width : ℕ
  pub height : ℕ

abbrev pub chroma_dimensions_420 : ℕ → ℕ → ℕ × ℕ
chroma_dimensions_420 width height = (width / 2, height / 2)

abbrev pub chroma_index_420 : ℕ → ℕ → ℕ → ℕ
chroma_index_420 x y chroma_width = y * chroma_width + x

unfoldable pub new_420 : ℕ → ℕ → Yuv420Frame
new_420 width height = record {
  y = replicate (width * height) 0;
  u = replicate (width / 2 * (height / 2)) 128;
  v = replicate (width / 2 * (height / 2)) 128;
  width = width;
  height = height;
}

unfoldable pub total_size : Yuv420Frame → ℕ
total_size f = length f.y + length f.u + length f.v

pub data EncodingError : Type 0 where
  odd_width odd_height y_size u_size v_size : EncodingError

-- `none` if the frame can be encoded.
unfoldable pub validate_for_encoding : Yuv420Frame → Option EncodingError
validate_for_encoding f =
    let expected_uv = f.width / 2 * (f.height / 2) in
    if f.width % 2 == 0
    then if f.height % 2 == 0
      then if length f.y == f.width * f.height
        then if length f.u == expected_uv
          then if length f.v == expected_uv then none else some v_size
          else some u_size
        else some y_size
      else some odd_height
    else some odd_width

-- `none` is the panic of the subsampling.
unfoldable pub pack_main_view : Yuv444Frame → Option Yuv420Frame
pack_main_view f = elim (subsample_chroma_420 f.u f.width f.height) [
  | none ↦ none
  | some u ↦ elim (subsample_chroma_420 f.v f.width f.height) [
    | none ↦ none
    | some v ↦ some (record { y = f.y; u = u; v = v; width = f.width; height = f.height })
  ]
]

-- One row of the auxiliary luma: a whole row of a source plane, or neutral padding.
abbrev pub aux_row : List ℕ → ℕ → ℕ → ℕ → List ℕ
aux_row plane width height source_row =
    if leb height source_row
    then replicate width 128
    else take width (drop (source_row * width) plane)

-- The loop over the rows of the auxiliary luma, with the counters of the odd rows of U and V.
unfoldable pub aux_rows : Yuv444Frame → ℕ → ℕ → ℕ → ℕ → List ℕ
aux_rows f zero row u_row_counter v_row_counter = []
aux_rows f (suc n) row u_row_counter v_row_counter =
    let of_u =
      aux_row f.u f.width f.height (2 * u_row_counter + 1)
      ++ aux_rows f n (row + 1) (u_row_counter + 1) v_row_counter in
    let of_v =
      aux_row f.v f.width f.height (2 * v_row_counter + 1)
      ++ aux_rows f n (row + 1) u_row_counter (v_row_counter + 1) in
    if ltb (row % 16) 8 then of_u else of_v

-- The chroma at odd columns of even rows.
abbrev pub odd_columns : List ℕ → ℕ → ℕ → List ℕ
odd_columns plane width height =
    plane_from (λ cy cx. get_or plane (cy * 2 * width + (cx * 2 + 1)) 0) (width / 2) 0 (height / 2)

unfoldable pub pack_auxiliary_view : Yuv444Frame → Yuv420Frame
unfolding aux_rows
pack_auxiliary_view f =
    let padded_height = div_ceil f.height 16 * 16 in
    record {
      y = take (f.height * f.width) (aux_rows f padded_height 0 0 0);
      u = odd_columns f.u f.width f.height;
      v = odd_columns f.v f.width f.height;
      width = f.width;
      height = f.height;
    }

unfoldable pub pack_dual_views : Yuv444Frame → Option (Yuv420Frame × Yuv420Frame)
unfolding pack_main_view pack_auxiliary_view
pack_dual_views f = elim (pack_main_view f) [
  | none ↦ none
  | some main_view ↦ some (main_view, pack_auxiliary_view f)
]

unfoldable pub validate_dimensions : ℕ → ℕ → Bool
validate_dimensions width height = width % 2 == 0 && height % 2 == 0 && ltb 0 width && ltb 0 height
