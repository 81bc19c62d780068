-- ===== src/Damage/Regions.antt =====
-- src/rdp/channels/graphics/damage/regions.rs. `used` is the flag vector of the inner loops, cut
-- to the part that a loop has still to visit; it starts as long as the regions.
pub mod Merge
pub mod Tiles
pub mod Quiet
use cheirizo.Prelude.{
  ℕ, zero, suc, ◌+◌, ◌-◌, ◌*◌, ◌<◌, min, Bool, true, false, ◌&&◌, ltb, leb, if◌then◌else◌, List, [],
  ◌∷◌, ◌++◌, length, get_or, replicate,
}
use cheirizo.Prelude.Words.{as_u32}
use cheirizo.Damage.Region.{DamageRegion, is_adjacent, union}

-- `current`, `used` from `j` on, and `changed`.
abbrev pub Absorbed : Type 0
Absorbed = DamageRegion × List Bool × Bool

abbrev pub push_used : Bool → Absorbed → Absorbed
push_used u (current, us, changed) = (current, u ∷ us, changed)

module _ (merge_distance : ℕ) where
  -- The loop over `j`.
  pub absorb : DamageRegion → List DamageRegion → List Bool → Bool → Absorbed
  absorb current [] us changed = (current, us, changed)
  absorb current (r ∷ rs) [] changed = (current, [], changed)
  absorb current (r ∷ rs) (u ∷ us) changed = elim u [
    | true ↦ push_used true (absorb current rs us changed)
    | false ↦ elim (is_adjacent current r merge_distance) [
      | true ↦ push_used true (absorb (union current r) rs us true)
      | false ↦ push_used false (absorb current rs us changed)
    ]
  ]

  -- The loop over `i`: the regions that it pushes, and `changed`.
  pub merge_pass : List DamageRegion → List Bool → Bool → List DamageRegion × Bool
  merge_pass [] us changed = ([], changed)
  merge_pass (r ∷ rs) [] changed = ([], changed)
  merge_pass (r ∷ rs) (u ∷ us) changed = elim u [
    | true ↦ merge_pass rs us changed
    | false ↦
        let (current, us', changed') = absorb r rs us changed in
        let (merged, changed'') = merge_pass rs us' changed' in (current ∷ merged, changed'')
  ]

  -- One round of the `while`, with its fresh flags.
  unfoldable pub merge_round : List DamageRegion → List DamageRegion × Bool
  unfolding merge_pass absorb
  merge_round regions = merge_pass regions (replicate (length regions) false) false

  -- The `while changed`, on fuel.
  pub merge_loop : ℕ → List DamageRegion → List DamageRegion
  merge_loop zero regions = regions
  merge_loop (suc fuel) regions =
      let (merged, changed) = merge_round regions in
      elim changed [ true ↦ merge_loop fuel merged | false ↦ merged ]

-- A round that changes something leaves fewer regions, so `length regions` rounds are enough.
unfoldable pub merge_regions : List DamageRegion → ℕ → List DamageRegion
unfolding merge_loop merge_round
merge_regions regions merge_distance =
    if leb (length regions) 1 then regions else merge_loop merge_distance (length regions) regions

module _ (dirty_tiles : List Bool) (tiles_x tile_size frame_width frame_height : ℕ) where
  -- The rectangle of tile `(tx, ty)`, cut to the frame.
  unfoldable pub tile_region : ℕ → ℕ → DamageRegion
  tile_region tx ty =
      let x = as_u32 (tx * tile_size) in
      let y = as_u32 (ty * tile_size) in
      record {
        x = x;
        y = y;
        width = min (as_u32 tile_size) (frame_width - x);
        height = min (as_u32 tile_size) (frame_height - y);
      }

  unfoldable pub tile_regions : ℕ → ℕ → List DamageRegion
  unfolding tile_region
  tile_regions tx ty =
      if get_or dirty_tiles (ty * tiles_x + tx) false
        && (ltb 0 (tile_region tx ty).width && ltb 0 (tile_region tx ty).height)
      then tile_region tx ty ∷ []
      else []

  -- The loop over `tx`, with `left` columns to go.
  pub row_regions : ℕ → ℕ → ℕ → List DamageRegion
  unfolding tile_regions
  row_regions zero tx ty = []
  row_regions (suc left) tx ty = tile_regions tx ty ++ row_regions left (tx + 1) ty

  -- The loop over `ty`, with `left` rows to go.
  pub rows_regions : ℕ → ℕ → List DamageRegion
  unfolding row_regions
  rows_regions zero ty = []
  rows_regions (suc left) ty = row_regions tiles_x 0 ty ++ rows_regions left (ty + 1)

unfoldable pub tiles_to_regions : List Bool → ℕ → ℕ → ℕ → ℕ → ℕ → List DamageRegion
unfolding rows_regions
tiles_to_regions dirty_tiles tiles_x tiles_y tile_size frame_width frame_height =
    rows_regions dirty_tiles tiles_x tile_size frame_width frame_height tiles_y 0
