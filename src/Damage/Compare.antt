-- ===== src/Damage/Compare.antt =====
-- src/rdp/channels/graphics/damage/compare.rs, over bytes as numbers below 256.
use cheirizo.Prelude.{ℕ, ◌+◌, ◌-◌, Bool, ◌||◌, ltb, if◌then◌else◌, List, [], ◌∷◌, ◌≡◌, refl, arith}

-- `(p as i16 - c as i16).unsigned_abs() as u8`.
abbrev pub channel_diff : ℕ → ℕ → ℕ
channel_diff p c = (p - c) + (c - p)

-- Whether a colour channel of the two pixels differs by more than the threshold.
unfoldable pub pixel_differs : ℕ → ℕ → ℕ → ℕ → ℕ → ℕ → ℕ → Bool
pixel_differs threshold b g r b' g' r' =
    ltb threshold (channel_diff b b')
    || ltb threshold (channel_diff g g')
    || ltb threshold (channel_diff r r')

-- `chunks_exact(4)` of both rows, in step; what is left over is not read.
unfoldable pub count_different_pixels : List ℕ → List ℕ → ℕ → ℕ
unfolding pixel_differs
count_different_pixels (b ∷ g ∷ r ∷ a ∷ prev) (b' ∷ g' ∷ r' ∷ a' ∷ curr) threshold =
    (if pixel_differs threshold b g r b' g' r' then 1 else 0)
    + count_different_pixels prev curr threshold
count_different_pixels _ _ threshold = 0

-- A row does not differ from itself.
pub count_different_pixels_self :
    (row : List ℕ) (threshold : ℕ) → count_different_pixels row row threshold ≡ 0
unfolding count_different_pixels
count_different_pixels_self [] threshold = refl
count_different_pixels_self (b ∷ []) threshold = refl
count_different_pixels_self (b ∷ g ∷ []) threshold = refl
count_different_pixels_self (b ∷ g ∷ r ∷ []) threshold = refl
count_different_pixels_self (b ∷ g ∷ r ∷ a ∷ row) threshold =
    ground (arith, count_different_pixels_self row threshold)
