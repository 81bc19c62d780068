-- ===== src/Damage/Detector/Output.antt =====
-- What `detect` reports when it compares two frames.
use cheirizo.Prelude.{
  length, some, ℕ, ◌+◌, ◌*◌, ◌/◌, ◌≤◌, ◌<◌, Bool, true, false, not, ◌||◌, ◌&&◌, leb, ◌≡◌, refl,
  List, [], ◌∷◌, get_or, All, any, all, arith, retain,
}
use cheirizo.Prelude.Words.{u32_max, div_ceil, div-lt-div_ceil}
use cheirizo.Damage.Region.{DamageRegion, area, contains, union, is_adjacent}
use cheirizo.Damage.Region.Bounds.{area-le, contains-union}
use cheirizo.Damage.Regions.{tiles_to_regions, merge_regions, tile_region}
use cheirizo.Damage.Regions.Merge.{IsApart, merge_keeps, merge_regions-IsApart}
use cheirizo.Damage.Regions.Tiles.{InFrame, tiles_to_regions-InFrame, tiles_to_regions-any}
use cheirizo.Damage.Stats.{DamageFloats}
use cheirizo.Damage.Detector.{
  detect, DamageDetector, detect_against, detect_changes, rows_flags, tile_flag,
}
use cheirizo.Damage.Detector.Invariant.{IsValid}
use cheirizo.Damage.Detector.Quiet.{HasSeen}
use cheirizo.Damage.Detector.Flags.{get_or-rows_flags}

InFrame-union :
    (w h : ℕ)
    → w ≤ u32_max
    → h ≤ u32_max
    → (a b : DamageRegion) → InFrame w h a
    → InFrame w h b
    → InFrame w h (union a b)
unfolding union
InFrame-union w h fw fh a b p q = ground arith

union_grows :
    (w h : ℕ)
    → w ≤ u32_max
    → h ≤ u32_max
    → (a b : DamageRegion) → InFrame w h a
    → InFrame w h b
    → (a.width ≤ (union a b).width)
      × (a.height ≤ (union a b).height)
      × (b.width ≤ (union a b).width)
      × (b.height ≤ (union a b).height)
unfolding union
union_grows w h fw fh a b p q = ground arith

module _ (m : ℕ) where
  -- The filter on `min_region_area`.
  abbrev large : DamageRegion → Bool
  large r = leb m (area r)

  retain-All :
      (P : DamageRegion → Type 0) (rs : List DamageRegion)
      → All P rs
      → All (λ r. P r × (m ≤ area r)) (retain large rs)
  retain-All P [] h = tt
  retain-All P (r ∷ rs) h = ground (arith, retain-All P rs h.1)

  all-retain :
      (p : DamageRegion → Bool) (rs : List DamageRegion)
      → all p rs ≡ true
      → all p (retain large rs) ≡ true
  all-retain p [] h = refl
  all-retain p (r ∷ rs) h = ground (arith, all-retain p rs)

  retain-IsApart : (d : ℕ) (rs : List DamageRegion) → IsApart d rs → IsApart d (retain large rs)
  retain-IsApart d [] h = tt
  retain-IsApart d (r ∷ rs) h =
      ground (arith, all-retain (λ s. not (is_adjacent r s d)) rs h.0, retain-IsApart d rs h.1)

  any-retain :
      (p : DamageRegion → Bool) (rs : List DamageRegion)
      → any (λ r. p r && large r) rs ≡ true
      → any p (retain large rs) ≡ true
  any-retain p [] h = h
  any-retain p (r ∷ rs) h = ground (arith, any-retain p rs)

  -- A point of a region that is large enough, as a test of regions.
  abbrev holds_large : ℕ → ℕ → DamageRegion → Bool
  holds_large px py r = contains r px py && large r

  holds_large-union :
      (w h px py : ℕ)
      → w ≤ u32_max
      → h ≤ u32_max
      → (a b : DamageRegion) → InFrame w h a
      → InFrame w h b
      → (holds_large px py a || holds_large px py b) ≡ true
      → holds_large px py (union a b) ≡ true
  holds_large-union w h px py fw fh a b p q hit =
      let (aw, ah, bw, bh) = union_grows w h fw fh a b p q in
      ground
        (arith, contains-union a b px py, area-le a (union a b) aw ah, area-le b (union a b) bw bh)

module _ (fl : DamageFloats) (d : DamageDetector fl) (prev frame : List ℕ) (w h : ℕ)
    (fw : w ≤ u32_max) (fh : h ≤ u32_max) where
  open d use {config, tiles_x, tiles_y}

  abbrev flags : List Bool
  flags = rows_flags fl config prev frame w h tiles_x tiles_y 0

  abbrev tiles : List DamageRegion
  tiles = tiles_to_regions flags tiles_x tiles_y config.tile_size w h

  -- What every reported region is.
  abbrev pub Reported : DamageRegion → Type 0
  Reported r = InFrame w h r × (config.min_region_area ≤ area r)

  changes_Reported :
      All Reported (detect_changes fl d prev frame w h).1
      × IsApart config.merge_distance (detect_changes fl d prev frame w h).1
  unfolding detect_changes
  changes_Reported = (
    retain-All config.min_region_area (InFrame w h) (merge_regions tiles config.merge_distance)
        (merge_keeps config.merge_distance (InFrame w h) (InFrame-union w h fw fh) (λ _. false)
          (λ a b p q e. e) tiles
          (tiles_to_regions-InFrame flags tiles_x tiles_y config.tile_size w h)).0,
    retain-IsApart config.min_region_area config.merge_distance
        (merge_regions tiles config.merge_distance)
        (merge_regions-IsApart config.merge_distance tiles).0,
  )

  changes_complete :
      (px py : ℕ)
      → 0 < config.tile_size
      → config.tile_size ≤ u32_max
      → tiles_x ≡ div_ceil w config.tile_size
      → tiles_y ≡ div_ceil h config.tile_size
      → px < w
      → py < h
      → let tx = px / config.tile_size in
        let ty = py / config.tile_size in
        tile_flag fl config prev frame w h tx ty ≡ true
        → config.min_region_area ≤ area (tile_region flags tiles_x config.tile_size w h tx ty)
        → any (λ r. contains r px py) (detect_changes fl d prev frame w h).1 ≡ true
  unfolding detect_changes
  changes_complete px py pos fits gx gy ix iy flag big =
      let size = config.tile_size in
      let m = config.min_region_area in
      let set_flag : get_or flags (py / size * tiles_x + px / size) false ≡ true =
        rw
          (get_or-rows_flags fl config prev frame w h tiles_x tiles_y (py / size) (px / size)
            (rw gy (div-lt-div_ceil h size py pos iy)) (rw gx (div-lt-div_ceil w size px pos ix)))
          flag in
      any-retain m (λ r. contains r px py) (merge_regions tiles config.merge_distance)
        ((merge_keeps config.merge_distance (InFrame w h) (InFrame-union w h fw fh)
            (holds_large m px py) (holds_large-union m w h px py fw fh) tiles
            (tiles_to_regions-InFrame flags tiles_x tiles_y size w h)).1
          (tiles_to_regions-any flags tiles_x size w h px py (holds_large m px py) tiles_y pos fits
            fw fh gx gy ix iy set_flag (λ c. ground arith)))

  -- Compared with a frame of the same size, a frame gives regions that lie within it, are not
  -- empty, have the least area at least, and are pairwise apart by the merge distance; and the
  -- detector has then seen the frame.
  pub detect_reports :
      (ns : ℕ)
      → HasSeen fl d prev w h
      → length frame ≡ w * h * 4
      → (d' : DamageDetector fl) × (rs : List DamageRegion) × (detect fl d frame w h ns
          ≡ some (d', rs))
        × All Reported rs
        × IsApart config.merge_distance rs
        × HasSeen fl d' frame w h
  unfolding detect
  detect_reports ns seen len =
      let after = detect_against fl d prev frame w h ns in
      (after.0, after.1, ground arith, changes_Reported.0, changes_Reported.1, ground arith)

  -- Of a valid detector, compared with a frame of the same size: a point whose tile has more differing pixels than the
  -- threshold allows lies in a reported region, if the part of the tile in the frame has the least
  -- area at least.
  pub detect_complete :
      (px py ns : ℕ)
      → IsValid fl d
      → HasSeen fl d prev w h
      → length frame ≡ w * h * 4
      → 0 < config.tile_size
      → config.tile_size ≤ u32_max
      → px < w
      → py < h
      → let tx = px / config.tile_size in
        let ty = py / config.tile_size in
        tile_flag fl config prev frame w h tx ty ≡ true
        → config.min_region_area ≤ area (tile_region flags tiles_x config.tile_size w h tx ty)
        → (d' : DamageDetector fl) × (rs : List DamageRegion) × (detect fl d frame w h ns
            ≡ some (d', rs))
          × (any (λ r. contains r px py) rs ≡ true)
  unfolding detect
  detect_complete px py ns valid seen len pos fits ix iy flag big =
      let (gx, gy) = valid.grid_fits w h seen.dimensions_seen seen.valid in
      let after = detect_against fl d prev frame w h ns in
      (after.0, after.1, ground arith, changes_complete px py pos fits gx gy ix iy flag big)
