-- ===== src/Color/Convert/Overflow.antt =====
-- The fixed-point sums of a pixel in 32 bits.
use cheirizo.Prelude.{ℕ, suc, ◌+◌, ◌*◌, ◌≤◌, ◌<◌, arith, List, [], ◌∷◌, All}
use cheirizo.Prelude.Int.{ℤ, pos, negsuc, ◌+ℤ◌, ◌*ℤ◌, Within, *ℤ_pos, *ℤ_neg}
use cheirizo.Color.Convert.{
  ColorMatrix, bt601, bt709, open_h264, BgraSample, Coefficients, weighted, y_coefficients_fixed,
  u_coefficients_fixed, v_coefficients_fixed,
}
use cheirizo.Color.Convert.Range.{IsByteSample}

abbrev pub i32_max : ℕ
i32_max = 2147483647

-- Every product and every partial sum that `weighted` computes, in its order; the last is its value.
abbrev pub sums : Coefficients → BgraSample → List ℤ
sums (kr, kg, kb) s =
    kr *ℤ pos s.r
    ∷ kg *ℤ pos s.g
    ∷ (kr *ℤ pos s.r +ℤ kg *ℤ pos s.g)
    ∷ kb *ℤ pos s.b
    ∷ (kr *ℤ pos s.r +ℤ kg *ℤ pos s.g +ℤ kb *ℤ pos s.b)
    ∷ weighted (kr, kg, kb) s
    ∷ []

product-Within : (k : ℤ) (r : ℕ) → Within 65536 k → r < 256 → Within 16711680 (k *ℤ pos r)
product-Within (pos n) r h lt = rw (*ℤ_pos n r) (grind arith, omega arith)
product-Within (negsuc n) r h lt =
    let m : suc n * r ≤ 16711680 = grind arith in rw (*ℤ_neg n r) (ground arith, ground arith)

sum-Within : (m n : ℕ) (a b : ℤ) → Within m a → Within n b → Within (m + n) (a +ℤ b)
unfolding ◌+ℤ◌
sum-Within m n a b h k = (ground arith, ground arith)

module _ (s : BgraSample) (h : IsByteSample s) where
  sums-Within :
      (kr kg kb : ℤ)
      → Within 65536 kr
      → Within 65536 kg
      → Within 65536 kb
      → All (Within i32_max) (sums (kr, kg, kb) s)
  unfolding weighted
  sums-Within kr kg kb hr hg hb =
      let r = product-Within kr s.r hr h.0 in
      let g = product-Within kg s.g hg h.1 in
      let b = product-Within kb s.b hb h.2 in
      let rg = sum-Within _ _ _ _ r g in
      let rgb = sum-Within _ _ _ _ rg b in
      let all : Within 50167808 (weighted (kr, kg, kb) s) =
        sum-Within 50135040 32768 _ (pos 32768) rgb (omega arith, omega arith) in
      omega arith

  -- Where every channel is a byte, every product and every partial sum of the three conversions fits in
  -- an i32, for each matrix.
  pub sums_fit :
      (m : ColorMatrix)
      → All (Within i32_max) (sums (y_coefficients_fixed m) s)
        × All (Within i32_max) (sums (u_coefficients_fixed m) s)
        × All (Within i32_max) (sums (v_coefficients_fixed m) s)
  unfolding y_coefficients_fixed u_coefficients_fixed v_coefficients_fixed
  sums_fit bt601 = (
    sums-Within _ _ _ (omega arith) (omega arith) (omega arith),
    sums-Within _ _ _ (omega arith) (omega arith) (omega arith),
    sums-Within _ _ _ (omega arith) (omega arith) (omega arith),
  )
  sums_fit bt709 = (
    sums-Within _ _ _ (omega arith) (omega arith) (omega arith),
    sums-Within _ _ _ (omega arith) (omega arith) (omega arith),
    sums-Within _ _ _ (omega arith) (omega arith) (omega arith),
  )
  sums_fit open_h264 = (
    sums-Within _ _ _ (omega arith) (omega arith) (omega arith),
    sums-Within _ _ _ (omega arith) (omega arith) (omega arith),
    sums-Within _ _ _ (omega arith) (omega arith) (omega arith),
  )
