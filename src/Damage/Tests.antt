-- ===== src/Damage/Tests.antt =====
-- Runs of the damage detector on a frame of two pixels and on small rectangles.
use cheirizo.Prelude.{
  ℕ, ◌*◌, ◌/◌, ◌≤◌, true, false, none, some, List, [], ◌∷◌, length, All, any, ◌≡◌, refl, arith,
}
use cheirizo.Damage.Region.{DamageRegion, IsRegion, area, contains, full_frame}
use cheirizo.Damage.Regions.{merge_regions, merge_round, tile_region}
use cheirizo.Damage.Regions.Merge.{IsApart, merge_regions-IsApart}
use cheirizo.Damage.Stats.{DamageFloats, DamageConfig, default_stats}
use cheirizo.Damage.Detector.{
  DamageDetector, new, detect, detect_full, tile_flag, compare_tile, compare_rows,
}
use cheirizo.Damage.Compare.{count_different_pixels, pixel_differs}
use cheirizo.Damage.Detector.Invariant.{IsValid, new-IsValid, detect-IsValid}
use cheirizo.Damage.Detector.Quiet.{HasSeen}
use cheirizo.Damage.Detector.Output.{Reported, detect_reports, detect_complete}

abbrev left_rect : DamageRegion
left_rect = record { x = 0; y = 0; width = 4; height = 4 }

abbrev right_rect : DamageRegion
right_rect = record { x = 3; y = 1; width = 4; height = 4 }

left-IsRegion : IsRegion left_rect
left-IsRegion = record { fits_x = omega arith; fits_y = omega arith }

right-IsRegion : IsRegion right_rect
right-IsRegion = record { fits_x = omega arith; fits_y = omega arith }

merge_regions-IsApart_example :
    IsApart 0 (merge_regions (left_rect ∷ right_rect ∷ []) 0)
    × (length (merge_regions (left_rect ∷ right_rect ∷ []) 0) ≤ 2)
    × (merge_round 0 (merge_regions (left_rect ∷ right_rect ∷ []) 0)
        ≡ (merge_regions (left_rect ∷ right_rect ∷ []) 0, false))
merge_regions-IsApart_example = merge_regions-IsApart 0 (left_rect ∷ right_rect ∷ [])

-- Percent, in whole numbers.
abbrev percent : DamageFloats
percent = record {
  Float = ℕ;
  zero_float = 0;
  portion = λ n f. n * f / 100;
  ratio = λ a b. a * 100 / b;
  mean_ms = λ ns frames. ns / frames / 1000000;
}

abbrev small_tiles : DamageConfig percent
small_tiles = record {
  tile_size = 1;
  diff_threshold = 5;
  pixel_threshold = 4;
  merge_distance = 0;
  min_region_area = 1;
}

abbrev black : List ℕ
black = 0 ∷ 0 ∷ 0 ∷ 255 ∷ 0 ∷ 0 ∷ 0 ∷ 255 ∷ []

abbrev half_white : List ℕ
half_white = 0 ∷ 0 ∷ 0 ∷ 255 ∷ 255 ∷ 255 ∷ 255 ∷ 255 ∷ []

abbrev fresh : DamageDetector percent
fresh = record {
  config = small_tiles;
  previous_frame = none;
  previous_dimensions = none;
  tile_dirty = [];
  tiles_x = 0;
  tiles_y = 0;
  stats = default_stats percent;
  invalidated = true;
}

-- A detector that has seen the black frame.
abbrev primed : DamageDetector percent
primed = record {
  config = small_tiles;
  previous_frame = some black;
  previous_dimensions = some (2, 1);
  tile_dirty = false ∷ false ∷ [];
  tiles_x = 2;
  tiles_y = 1;
  stats = default_stats percent;
  invalidated = false;
}

primed-HasSeen : HasSeen percent primed black 2 1
primed-HasSeen = record { frame_seen = refl; dimensions_seen = refl; valid = refl }

primed-IsValid : IsValid percent primed
primed-IsValid = record {
  frame_fits = λ w h e. (black, refl, ground arith);
  grid_fits = λ w h e valid. (ground arith, ground arith);
  flags_fit = refl;
  stats_balance = record { balance = refl };
}

fresh-black :
    detect percent fresh black 2 1 7
    ≡ some ((detect_full percent fresh black 2 1 7).0, full_frame 2 1 ∷ [])
unfolding detect detect_full
fresh-black = refl

detect-IsValid_example : IsValid percent (detect_full percent fresh black 2 1 7).0
detect-IsValid_example =
    detect-IsValid percent fresh (detect_full percent fresh black 2 1 7).0 black 2 1 7
      (full_frame 2 1 ∷ []) fresh-black (unfold new in new-IsValid percent small_tiles)

detect_reports_example :
    (d' : DamageDetector percent) × (rs : List DamageRegion) × (detect percent primed half_white 2 1
        7
      ≡ some (d', rs))
    × All (Reported percent primed black half_white 2 1 (omega arith) (omega arith)) rs
    × IsApart 0 rs
    × HasSeen percent d' half_white 2 1
detect_reports_example =
    detect_reports percent primed black half_white 2 1 (omega arith) (omega arith) 7 primed-HasSeen
      refl

second_dirty : tile_flag percent small_tiles black half_white 2 1 1 0 ≡ true
unfolding tile_flag compare_tile compare_rows count_different_pixels pixel_differs
second_dirty = refl

detect_complete_example :
    (d' : DamageDetector percent) × (rs : List DamageRegion) × (detect percent primed half_white 2 1
        7
      ≡ some (d', rs))
    × (any (λ r. contains r 1 0) rs ≡ true)
detect_complete_example =
    detect_complete percent primed black half_white 2 1 (omega arith) (omega arith) 1 0 7
      primed-IsValid primed-HasSeen refl (omega arith) (omega arith) (omega arith) (omega arith)
      second_dirty (unfold area in unfold tile_region in omega arith)
