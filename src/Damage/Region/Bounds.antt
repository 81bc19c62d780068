-- ===== src/Damage/Region/Bounds.antt =====
-- `union` is the least rectangle over two, and the tests agree with the points of a rectangle.
use cheirizo.Prelude.{ℕ, ◌+◌, ◌≤◌, ◌<◌, max, ◌≡◌, ◌↔◌, true, arith, ◌||◌}
use cheirizo.Damage.Region.{DamageRegion, IsRegion, area, contains, overlaps, union, is_adjacent}

-- One rectangle within another, edge by edge.
pub record Within (r s : DamageRegion) : Type 0 where
  pub left : s.x ≤ r.x
  pub top : s.y ≤ r.y
  pub right : r.x + r.width ≤ s.x + s.width
  pub bottom : r.y + r.height ≤ s.y + s.height

pub union-IsRegion : (a b : DamageRegion) → IsRegion a → IsRegion b → IsRegion (union a b)
unfolding union
union-IsRegion a b ha hb = ground arith

-- For rectangles that fit in a u32, the union holds both, and lies within every rectangle that
-- holds both.
pub union_least :
    (a b s : DamageRegion)
    → IsRegion a
    → IsRegion b
    → Within a (union a b) × Within b (union a b) × (Within a s → Within b s → Within (union a b) s)
unfolding union
union_least a b s ha hb = (ground arith, ground arith, λ h k. ground arith)

-- Every point of either rectangle is a point of the union, whatever the rectangles.
pub contains-union :
    (a b : DamageRegion) (px py : ℕ)
    → (contains a px py || contains b px py) ≡ true
    → contains (union a b) px py ≡ true
unfolding contains union
contains-union a b px py h = ground arith

pub area-le : (r s : DamageRegion) → r.width ≤ s.width → r.height ≤ s.height → area r ≤ area s
unfolding area
area-le r s h k = grind arith

-- Two rectangles that fit in a u32 and are not empty overlap exactly when they share a point.
pub overlaps_iff :
    (a b : DamageRegion)
    → IsRegion a
    → IsRegion b
    → 0 < area a
    → 0 < area b
    → (overlaps a b ≡ true)
      ↔ ((px : ℕ) × (py : ℕ) × (contains a px py ≡ true) × (contains b px py ≡ true))
unfolding overlaps contains area
overlaps_iff a b ha hb na nb =
    (λ h. (max a.x b.x, max a.y b.y, grind arith, grind arith), λ (px, py, h, k). ground arith)

-- Whichever of two rectangles is asked, and with any distance, the answer is the same; and
-- rectangles that fit in a u32 and overlap are adjacent at every distance.
pub is_adjacent_laws :
    (a b : DamageRegion) (d : ℕ)
    → IsRegion a
    → IsRegion b
    → (is_adjacent a b d ≡ is_adjacent b a d) × (overlaps a b ≡ true → is_adjacent a b d ≡ true)
unfolding is_adjacent overlaps
is_adjacent_laws a b d ha hb = (ground arith, λ h. ground arith)
