-- ===== src/Damage/Detector.antt =====
-- src/rdp/channels/graphics/damage/detector.rs. The time that `detect` measures is an argument.
mod Flags
pub mod Quiet
pub mod Output
pub mod Invariant
use cheirizo.Prelude.{
  ℕ, zero, suc, ◌+◌, ◌-◌, ◌*◌, min, Bool, true, false, not, ◌||◌, ltb, leb, ◌==◌, if◌then◌else◌,
  Option, none, some, List, [], ◌∷◌, ◌++◌, length, take, drop, replicate, retain,
}
use cheirizo.Prelude.Words.{as_u32, div_ceil}
use cheirizo.Damage.Region.{DamageRegion, area, full_frame}
use cheirizo.Damage.Regions.{merge_regions, tiles_to_regions}
use cheirizo.Damage.Compare.{count_different_pixels}
use cheirizo.Damage.Stats.{DamageFloats, DamageConfig, DamageStats, default_stats, record_frame}

abbrev pub sum_areas : List DamageRegion → ℕ
sum_areas [] = 0
sum_areas (r ∷ rs) = area r + sum_areas rs

module _ (fl : DamageFloats) where
  open fl use {Float, portion}

  pub record DamageDetector : Type 0 where
    pub config : DamageConfig fl
    pub previous_frame : Option (List ℕ)
    pub previous_dimensions : Option (ℕ × ℕ)
    pub tile_dirty : List Bool
    pub tiles_x : ℕ
    pub tiles_y : ℕ
    pub stats : DamageStats fl
    pub invalidated : Bool

  unfoldable pub new : DamageConfig fl → DamageDetector
  new config = record {
    config = config;
    previous_frame = none;
    previous_dimensions = none;
    tile_dirty = [];
    tiles_x = 0;
    tiles_y = 0;
    stats = default_stats fl;
    invalidated = true;
  }

  unfoldable pub invalidate : DamageDetector → DamageDetector
  invalidate d = record d { invalidated = true }

  unfoldable pub reset_stats : DamageDetector → DamageDetector
  reset_stats d = record d { stats = default_stats fl }

  unfoldable pub set_config : DamageDetector → DamageConfig fl → DamageDetector
  unfolding invalidate
  set_config d config = invalidate (record d { config = config })

  -- For tiles of at least one pixel: `div_ceil` by a tile size of 0 panics.
  unfoldable pub update_tile_grid : DamageDetector → ℕ → ℕ → DamageDetector
  update_tile_grid d width height =
      let tiles_x = div_ceil width d.config.tile_size in
      let tiles_y = div_ceil height d.config.tile_size in
      record d {
        tiles_x = tiles_x;
        tiles_y = tiles_y;
        tile_dirty =
            if length d.tile_dirty == tiles_x * tiles_y
            then d.tile_dirty
            else replicate (tiles_x * tiles_y) false;
      }

  -- `compare_tile`: the loop over `row`, with `left` rows to go.
  unfoldable pub compare_rows : List ℕ → List ℕ → ℕ → ℕ → ℕ → ℕ → ℕ → ℕ → ℕ
  compare_rows prev curr tile_x tile_width stride threshold zero y = 0
  compare_rows prev curr tile_x tile_width stride threshold (suc left) y =
      let offset = y * stride + tile_x * 4 in
      let bytes_per_row = tile_width * 4 in
      (if ltb (length prev) (offset + bytes_per_row) || ltb (length curr) (offset + bytes_per_row)
        then 0
        else count_different_pixels (take bytes_per_row (drop offset prev))
            (take bytes_per_row (drop offset curr)) threshold)
      + compare_rows prev curr tile_x tile_width stride threshold left (y + 1)

  unfoldable pub compare_tile : List ℕ → List ℕ → ℕ → ℕ → ℕ → ℕ → ℕ → ℕ → ℕ
  unfolding compare_rows
  compare_tile prev curr tile_x tile_y tile_width tile_height stride threshold =
      compare_rows prev curr tile_x tile_width stride threshold tile_height tile_y

  -- The flag that the loops set for tile `(tx, ty)`; a tile with no pixels keeps `false`.
  unfoldable pub tile_flag : DamageConfig fl → List ℕ → List ℕ → ℕ → ℕ → ℕ → ℕ → Bool
  unfolding compare_tile
  tile_flag config prev curr width height tx ty =
      let tile_x = tx * config.tile_size in
      let tile_y = ty * config.tile_size in
      let tile_width = min config.tile_size (width - tile_x) in
      let tile_height = min config.tile_size (height - tile_y) in
      if tile_width == 0 || tile_height == 0
      then false
      else ltb (portion (as_u32 (tile_width * tile_height)) config.diff_threshold) (
          compare_tile prev curr tile_x tile_y tile_width tile_height (width * 4)
            config.pixel_threshold)

  module _ (config : DamageConfig fl) (prev curr : List ℕ) (width height : ℕ) where
    -- The loops write each flag once, in the order of the indices `ty * tiles_x + tx`.
    unfoldable pub row_flags : ℕ → ℕ → ℕ → List Bool
    unfolding tile_flag
    row_flags zero tx ty = []
    row_flags (suc left) tx ty =
        tile_flag config prev curr width height tx ty ∷ row_flags left (tx + 1) ty

    unfoldable pub rows_flags : ℕ → ℕ → ℕ → List Bool
    unfolding row_flags
    rows_flags tiles_x zero ty = []
    rows_flags tiles_x (suc left) ty = row_flags tiles_x 0 ty ++ rows_flags tiles_x left (ty + 1)

  unfoldable pub detect_changes :
      DamageDetector → List ℕ → List ℕ → ℕ → ℕ → DamageDetector × List DamageRegion
  unfolding rows_flags
  detect_changes d prev curr width height =
      let flags = rows_flags d.config prev curr width height d.tiles_x d.tiles_y 0 in
      let regions = tiles_to_regions flags d.tiles_x d.tiles_y d.config.tile_size width height in
      let merged = merge_regions regions d.config.merge_distance in
      (record d { tile_dirty = flags }, retain (λ r. leb d.config.min_region_area (area r)) merged)

  abbrev pub dimensions_changed : DamageDetector → ℕ → ℕ → Bool
  dimensions_changed d width height = elim d.previous_dimensions [
    | none ↦ true
    | some (w, h) ↦ not (w == width) || not (h == height)
  ]

  -- The branch that reports the whole frame.
  unfoldable pub detect_full :
      DamageDetector → List ℕ → ℕ → ℕ → ℕ → DamageDetector × List DamageRegion
  unfolding update_tile_grid
  detect_full d frame width height ns =
      let d' = update_tile_grid d width height in
      let frame_area = width * height in
      (
        record d' {
          previous_frame = some frame;
          previous_dimensions = some (width, height);
          invalidated = false;
          stats = record_frame fl d'.stats frame_area frame_area ns;
        },
        full_frame width height ∷ [],
      )

  unfoldable pub detect_against :
      DamageDetector → List ℕ → List ℕ → ℕ → ℕ → ℕ → DamageDetector × List DamageRegion
  unfolding detect_changes
  detect_against d prev frame width height ns =
      let (d', regions) = detect_changes d prev frame width height in
      (
        record d' {
          previous_frame = some frame;
          stats = record_frame fl d'.stats (width * height) (sum_areas regions) ns;
        },
        regions,
      )

  abbrev pub detect_any : DamageDetector → List ℕ → ℕ → ℕ → ℕ → DamageDetector × List DamageRegion
  detect_any d frame width height ns = elim d.previous_frame [
    | none ↦ detect_full d frame width height ns
    | some prev ↦
        if d.invalidated || dimensions_changed d width height
        then detect_full d frame width height ns
        else detect_against d prev frame width height ns
  ]

  -- `none` is the panic of the `assert_eq!` on the length of the frame.
  unfoldable pub detect :
      DamageDetector → List ℕ → ℕ → ℕ → ℕ → Option (DamageDetector × List DamageRegion)
  unfolding detect_full detect_against
  detect d frame width height ns =
      if length frame == width * height * 4 then some (detect_any d frame width height ns) else none
