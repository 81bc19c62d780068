-- ===== src/Color/Tests.antt =====
-- The colour conversion and the views of AVC444 at small frames.
use cheirizo.Prelude.{
  ℕ, zero, suc, ◌+◌, ◌*◌, ◌%◌, ◌<◌, min, List, [], ◌∷◌, ◌≡◌, ◌⊎◌, refl, arith, All, inl, inr,
  get_or, replicate,
}
use cheirizo.Prelude.Int.{Within, ◌+ℤ◌, ◌*ℤ◌, shr16}
use cheirizo.Color.Convert.{
  bt601, bt709, open_h264, BgraSample, Yuv444Frame, convert_bgra_sample_to_yuv,
  y_coefficients_fixed, u_coefficients_fixed, v_coefficients_fixed,
}
use cheirizo.Color.Convert.Range.{convert_exact, luma_of, blue_of, red_of}
use cheirizo.Color.Convert.Overflow.{sums, sums_fit, i32_max}
use cheirizo.Color.Planes.{plane_from, row_from}
use cheirizo.Color.Packing.{pack_auxiliary_view}
use cheirizo.Color.Packing.Rows.{IsFrame}
use cheirizo.Color.Packing.Recovery.{read_u, read_v, v_row, auxiliary_recovers}
use cheirizo.Color.Packing.Lost.{DifferBeyond, tail_rows_lost}

abbrev red : BgraSample
red = record { r = 255; g = 0; b = 0 }

pure_red : convert_bgra_sample_to_yuv red open_h264 ≡ (82, 90, 240)
unfolding convert_bgra_sample_to_yuv ◌+ℤ◌ ◌*ℤ◌ shr16
pure_red = refl

convert_exact_example :
    (convert_bgra_sample_to_yuv red bt601 ≡ (
      luma_of 19595 38470 7471 red,
      min 255 (blue_of 11056 21712 32768 red),
      min 255 (red_of 32768 27440 5328 red),
    ))
    × (convert_bgra_sample_to_yuv red bt709 ≡ (
      luma_of 13933 46871 4732 red,
      min 255 (blue_of 7508 25260 32768 red),
      min 255 (red_of 32768 29764 3004 red),
    ))
    × (convert_bgra_sample_to_yuv red open_h264 ≡ (
      luma_of 16896 33024 6400 red + 16,
      blue_of 9728 18944 28672 red,
      red_of 28672 24064 4608 red,
    ))
convert_exact_example = convert_exact red (omega arith, omega arith, omega arith)

sums_fit_example :
    All (Within i32_max) (sums (y_coefficients_fixed bt709) red)
    × All (Within i32_max) (sums (u_coefficients_fixed bt709) red)
    × All (Within i32_max) (sums (v_coefficients_fixed bt709) red)
sums_fit_example = sums_fit red (omega arith, omega arith, omega arith) bt709

-- A frame of 2 x 16, with a sample of its own everywhere.
abbrev numbered : ℕ → List ℕ
numbered n = plane_from (λ y x. n + 2 * y + x) 2 0 16

abbrev tall : Yuv444Frame
tall = record { y = numbered 0; u = numbered 50; v = numbered 100; width = 2; height = 16 }

tall-IsFrame : IsFrame tall
unfolding plane_from row_from
tall-IsFrame = record {
  y_size = refl;
  u_size = refl;
  v_size = refl;
  even_width = refl;
  even_height = refl;
}

auxiliary_recovers_example :
    (read_u (pack_auxiliary_view tall) 0 5 ≡ get_or tall.u (5 * tall.width + 0) 0)
    × (read_v (pack_auxiliary_view tall) 0 5 ≡ get_or tall.v (5 * tall.width + 0) 0)
auxiliary_recovers_example =
    auxiliary_recovers tall 0 5 tall-IsFrame (omega arith) (omega arith) (inr refl)
      (inr (omega arith))

sixth_row : read_v (pack_auxiliary_view tall) 0 5 ≡ 110
unfolding pack_auxiliary_view plane_from row_from
sixth_row = refl

-- Two frames of 2 x 2 whose V differs in the second row.
abbrev small : List ℕ → Yuv444Frame
small v = record { y = replicate 4 7; u = replicate 4 8; v = v; width = 2; height = 2 }

abbrev small_v : List ℕ
small_v = 1 ∷ 2 ∷ 3 ∷ 4 ∷ []

abbrev small_w : List ℕ
small_w = 1 ∷ 2 ∷ 30 ∷ 40 ∷ []

small-DifferBeyond : DifferBeyond (small small_v) (small small_w)
small-DifferBeyond = record {
  same_width = refl;
  same_height = refl;
  same_u = refl;
  same_v = same_first;
}
  where
    same_first :
        (x y : ℕ)
        → x < 2
        → y < 2
        → (y % 2 ≡ 0) ⊎ (v_row y < 2)
        → get_or small_w (y * 2 + x) 0 ≡ get_or small_v (y * 2 + x) 0
    same_first zero zero hx hy there = refl
    same_first (suc zero) zero hx hy there = refl
    same_first x (suc zero) hx hy (inl even) = absurd (omega arith)
    same_first x (suc zero) hx hy (inr inside) = absurd (omega arith)
    same_first x (suc (suc y)) hx hy there = absurd (omega arith)
    same_first (suc (suc x)) zero hx hy there = absurd (omega arith)

tail_rows_lost_example : pack_auxiliary_view (small small_w) ≡ pack_auxiliary_view (small small_v)
tail_rows_lost_example =
    tail_rows_lost (small small_v) (small small_w)
      (record {
        y_size = refl;
        u_size = refl;
        v_size = refl;
        even_width = refl;
        even_height = refl;
      })
      (record {
        y_size = refl;
        u_size = refl;
        v_size = refl;
        even_width = refl;
        even_height = refl;
      })
      small-DifferBeyond
