-- ===== src/Color/Convert/Range.antt =====
-- What the fixed-point conversion of a pixel can come to.
use cheirizo.Prelude.{
  ℕ, suc, ◌-◌, min, if◌then◌else◌, ◌+◌, ◌≤◌, ◌<◌, ◌/◌, ◌*◌, ◌≡◌, refl, ◌∙◌, arith, false,
}
use cheirizo.Prelude.Int.{
  ℤ, pos, negsuc, sub_ℕ, +ℤ_parts, sub_ℕ_parts, +ℤ_pos, *ℤ_pos, *ℤ_neg, shr16, clamp_ℕ, eq-sub_ℕ,
  shr16_offset,
}
use cheirizo.Color.Convert.{
  ColorMatrix, bt601, bt709, open_h264, BgraSample, convert_bgra_sample_to_yuv, luma, chroma,
  u_coefficients_fixed, v_coefficients_fixed, y_coefficients_fixed, weighted, is_limited_range,
}

weighted_ppp :
    (a b c : ℕ) (s : BgraSample)
    → weighted (pos a, pos b, pos c) s ≡ pos (a * s.r + b * s.g + c * s.b + 32768)
unfolding weighted
weighted_ppp a b c s = simp (*ℤ_pos, +ℤ_pos)

weighted_nnp :
    (a b c : ℕ) (s : BgraSample)
    → weighted (negsuc a, negsuc b, pos c) s ≡ sub_ℕ (c * s.b + 32768) (suc a * s.r + suc b * s.g)
unfolding weighted
weighted_nnp a b c s =
    rw (*ℤ_pos c s.b, *ℤ_neg a s.r, *ℤ_neg b s.g)
      (eq-sub_ℕ _ _ _ (omega (arith, +ℤ_parts, sub_ℕ_parts)))

weighted_pnn :
    (a b c : ℕ) (s : BgraSample)
    → weighted (pos a, negsuc b, negsuc c) s ≡ sub_ℕ (a * s.r + 32768) (suc b * s.g + suc c * s.b)
unfolding weighted
weighted_pnn a b c s =
    rw (*ℤ_pos a s.r, *ℤ_neg b s.g, *ℤ_neg c s.b)
      (eq-sub_ℕ _ _ _ (omega (arith, +ℤ_parts, sub_ℕ_parts)))

-- Every channel is a byte.
abbrev pub IsByteSample : BgraSample → Type 0
IsByteSample s = (s.r < 256) × (s.g < 256) × (s.b < 256)

abbrev pub low : ColorMatrix → ℕ
low bt601 = 0
low bt709 = 0
low open_h264 = 16

abbrev pub high : ColorMatrix → ℕ
high bt601 = 255
high bt709 = 255
high open_h264 = 240

range_by :
    (m : ColorMatrix) (x : ℤ)
    → (if is_limited_range m then clamp_ℕ 16 240 x else clamp_ℕ 0 255 x)
      ≡ clamp_ℕ (low m) (high m) x
unfolding is_limited_range
range_by bt601 x = refl
range_by bt709 x = refl
range_by open_h264 x = refl

chroma_nnp :
    (m : ColorMatrix) (a b c : ℕ) (s : BgraSample)
    → suc a * s.r + suc b * s.g ≤ c * s.b + 32768 + 8388608
    → chroma m (negsuc a, negsuc b, pos c) s
      ≡ clamp_ℕ
          (low m)
          (high m)
          (pos ((c * s.b + 32768 + 8388608 - (suc a * s.r + suc b * s.g)) / 65536))
unfolding chroma
chroma_nnp m a b c s h = rw (weighted_nnp a b c s) (
    rw (shr16_offset _ _ h)
      (range_by m (pos ((c * s.b + 32768 + 8388608 - (suc a * s.r + suc b * s.g)) / 65536))))

chroma_pnn :
    (m : ColorMatrix) (a b c : ℕ) (s : BgraSample)
    → suc b * s.g + suc c * s.b ≤ a * s.r + 32768 + 8388608
    → chroma m (pos a, negsuc b, negsuc c) s
      ≡ clamp_ℕ
          (low m)
          (high m)
          (pos ((a * s.r + 32768 + 8388608 - (suc b * s.g + suc c * s.b)) / 65536))
unfolding chroma
chroma_pnn m a b c s h = rw (weighted_pnn a b c s) (
    rw (shr16_offset _ _ h)
      (range_by m (pos ((a * s.r + 32768 + 8388608 - (suc b * s.g + suc c * s.b)) / 65536))))

luma_full :
    (m : ColorMatrix) (s : BgraSample) (a b c : ℕ)
    → is_limited_range m ≡ false
    → y_coefficients_fixed m ≡ (pos a, pos b, pos c)
    → luma m s ≡ clamp_ℕ 0 255 (pos ((a * s.r + b * s.g + c * s.b + 32768) / 65536))
unfolding luma
luma_full m s a b c full e = rw (e, full) (rw (weighted_ppp a b c s) (unfold shr16 in refl))

luma_limited :
    (s : BgraSample)
    → luma open_h264 s
      ≡ clamp_ℕ 16 235 (pos ((16896 * s.r + 33024 * s.g + 6400 * s.b + 32768) / 65536 + 16))
unfolding luma shr16
luma_limited s = rw (weighted_ppp 16896 33024 6400 s, shr16, +ℤ_pos) refl

abbrev pub grey : ℕ → BgraSample
grey n = record { r = n; g = n; b = n }

-- The formulas of the three matrices, in numbers that are not negative.
abbrev pub luma_of : ℕ → ℕ → ℕ → BgraSample → ℕ
luma_of a b c s = (a * s.r + b * s.g + c * s.b + 32768) / 65536

abbrev pub blue_of : ℕ → ℕ → ℕ → BgraSample → ℕ
blue_of a b c s = (c * s.b + 32768 + 8388608 - (a * s.r + b * s.g)) / 65536

abbrev pub red_of : ℕ → ℕ → ℕ → BgraSample → ℕ
red_of a b c s = (a * s.r + 32768 + 8388608 - (b * s.g + c * s.b)) / 65536

-- Where every channel is a byte, the three results are the rounded formulas of the matrix, for each
-- matrix: the clamps do nothing, but that a chroma of 256 becomes 255 in the full range.
pub convert_exact :
    (s : BgraSample)
    → IsByteSample s
    → (convert_bgra_sample_to_yuv s bt601 ≡ (
      luma_of 19595 38470 7471 s,
      min 255 (blue_of 11056 21712 32768 s),
      min 255 (red_of 32768 27440 5328 s),
    ))
      × (convert_bgra_sample_to_yuv s bt709 ≡ (
        luma_of 13933 46871 4732 s,
        min 255 (blue_of 7508 25260 32768 s),
        min 255 (red_of 32768 29764 3004 s),
      ))
      × (convert_bgra_sample_to_yuv s open_h264 ≡ (
        luma_of 16896 33024 6400 s + 16,
        blue_of 9728 18944 28672 s,
        red_of 28672 24064 4608 s,
      ))
unfolding convert_bgra_sample_to_yuv u_coefficients_fixed v_coefficients_fixed
convert_exact s h = (
  rw (luma_full bt601 s 19595 38470 7471 refl refl) (
      rw (chroma_nnp bt601 11055 21711 32768 s (omega arith))
        (rw (chroma_pnn bt601 32768 27439 5327 s (omega arith)) (ground arith))),
  rw (luma_full bt709 s 13933 46871 4732 refl refl) (
      rw (chroma_nnp bt709 7507 25259 32768 s (omega arith))
        (rw (chroma_pnn bt709 32768 29763 3003 s (omega arith)) (ground arith))),
  rw (luma_limited s) (
      rw (chroma_nnp open_h264 9727 18943 28672 s (omega arith))
        (rw (chroma_pnn open_h264 28672 24063 4607 s (omega arith)) (ground arith))),
)

-- A grey pixel keeps its brightness in the full range, and has neutral chroma in every matrix.
pub grey_kept :
    (n : ℕ)
    → n < 256
    → (convert_bgra_sample_to_yuv (grey n) bt601 ≡ (n, 128, 128))
      × (convert_bgra_sample_to_yuv (grey n) bt709 ≡ (n, 128, 128))
      × (convert_bgra_sample_to_yuv (grey n) open_h264
          ≡ ((n * 56320 + 32768) / 65536 + 16, 128, 128))
grey_kept n h =
    let e = convert_exact (grey n) (h, h, h) in
    (e.0 ∙ ground arith, e.1 ∙ ground arith, e.2 ∙ ground arith)
