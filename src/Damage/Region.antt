-- ===== src/Damage/Region.antt =====
-- src/rdp/channels/graphics/damage/region.rs. The fields are u32, the area u64: a product of two
-- u32 fits, so it is the product of numbers.
pub mod Bounds
use cheirizo.Prelude.{ℕ, ◌+◌, ◌-◌, ◌*◌, ◌≤◌, min, max, Bool, ◌&&◌, ltb, leb, if◌then◌else◌}
use cheirizo.Prelude.Words.{u32_max, sat_add32}

pub record DamageRegion : Type 0 where
  pub x : ℕ
  pub y : ℕ
  pub width : ℕ
  pub height : ℕ

abbrev pub full_frame : ℕ → ℕ → DamageRegion
full_frame w h = record { x = 0; y = 0; width = w; height = h }

unfoldable pub area : DamageRegion → ℕ
area r = r.width * r.height

-- The edges that `overlaps`, `contains`, `union` and `is_adjacent` compute.
abbrev pub right_edge : DamageRegion → ℕ
right_edge r = sat_add32 r.x r.width

abbrev pub bottom_edge : DamageRegion → ℕ
bottom_edge r = sat_add32 r.y r.height

unfoldable pub overlaps : DamageRegion → DamageRegion → Bool
overlaps r o =
    ltb r.x (right_edge o)
    && ltb o.x (right_edge r)
    && ltb r.y (bottom_edge o)
    && ltb o.y (bottom_edge r)

unfoldable pub contains : DamageRegion → ℕ → ℕ → Bool
contains r px py = leb r.x px && ltb px (right_edge r) && leb r.y py && ltb py (bottom_edge r)

unfoldable pub union : DamageRegion → DamageRegion → DamageRegion
union r o =
    let left = min r.x o.x in
    let top = min r.y o.y in
    let right = max (right_edge r) (right_edge o) in
    let bottom = max (bottom_edge r) (bottom_edge o) in
    record { x = left; y = top; width = right - left; height = bottom - top }

-- The gap along one axis, 0 where the ranges overlap.
abbrev pub gap : ℕ → ℕ → ℕ → ℕ → ℕ
gap start end other_start other_end =
    if leb end other_start then other_start - end else start - other_end

unfoldable pub is_adjacent : DamageRegion → DamageRegion → ℕ → Bool
is_adjacent r o merge_distance =
    leb (gap r.x (right_edge r) o.x (right_edge o)) merge_distance
    && leb (gap r.y (bottom_edge r) o.y (bottom_edge o)) merge_distance

-- A rectangle whose edges fit in a u32.
pub record IsRegion (r : DamageRegion) : Type 0 where
  pub fits_x : r.x + r.width ≤ u32_max
  pub fits_y : r.y + r.height ≤ u32_max
