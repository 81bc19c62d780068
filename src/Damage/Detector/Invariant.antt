-- ===== src/Damage/Detector/Invariant.antt =====
-- What holds of a detector between two calls.
use cheirizo.Prelude.{
  ◌⊎◌, inl, inr, ◌||◌, Option-cases, Bool-cases, ℕ, ◌*◌, ◌≡◌, refl, false, List, length, some,
  arith, length-replicate,
}
use cheirizo.Prelude.Words.{div_ceil}
use cheirizo.Damage.Region.{DamageRegion}
use cheirizo.Damage.Stats.{DamageFloats, DamageConfig, IsBalanced, record_frame-IsBalanced}
use cheirizo.Damage.Detector.{
  dimensions_changed, DamageDetector, new, invalidate, reset_stats, set_config, detect, detect_full,
  detect_against, detect_changes, sum_areas,
}
use cheirizo.Damage.Detector.Flags.{length-rows_flags}

module _ (fl : DamageFloats) where
  -- The remembered frame has the remembered size, the grid is that of the size unless the detector
  -- is invalidated, there is a flag for each tile, and the statistics add up.
  pub record IsValid (d : DamageDetector fl) : Type 0 where
    pub frame_fits :
        (w h : ℕ)
        → d.previous_dimensions ≡ some (w, h)
        → (f : List ℕ) × (d.previous_frame ≡ some f) × (length f ≡ w * h * 4)
    pub grid_fits :
        (w h : ℕ)
        → d.previous_dimensions ≡ some (w, h)
        → d.invalidated ≡ false
        → (d.tiles_x ≡ div_ceil w d.config.tile_size) × (d.tiles_y ≡ div_ceil h d.config.tile_size)
    pub flags_fit : length d.tile_dirty ≡ d.tiles_x * d.tiles_y
    pub stats_balance : IsBalanced fl d.stats

  pub new-IsValid : (c : DamageConfig fl) → IsValid (new fl c)
  unfolding new
  new-IsValid c = record {
    frame_fits = λ w h e. absurd (cc);
    grid_fits = λ w h e v. absurd (cc);
    flags_fit = omega arith;
    stats_balance = record { balance = omega arith };
  }

  pub invalidate-IsValid : (d : DamageDetector fl) → IsValid d → IsValid (invalidate fl d)
  unfolding invalidate
  invalidate-IsValid d v = record {
    frame_fits = v.frame_fits;
    grid_fits = λ w h e i. absurd (cc);
    flags_fit = v.flags_fit;
    stats_balance = v.stats_balance;
  }

  pub set_config-IsValid :
      (d : DamageDetector fl) (c : DamageConfig fl) → IsValid d → IsValid (set_config fl d c)
  unfolding set_config
  set_config-IsValid d c v = record {
    frame_fits = v.frame_fits;
    grid_fits = λ w h e i. absurd (cc);
    flags_fit = v.flags_fit;
    stats_balance = v.stats_balance;
  }

  pub reset_stats-IsValid : (d : DamageDetector fl) → IsValid d → IsValid (reset_stats fl d)
  unfolding reset_stats
  reset_stats-IsValid d v = record {
    frame_fits = v.frame_fits;
    grid_fits = v.grid_fits;
    flags_fit = v.flags_fit;
    stats_balance = record { balance = omega arith };
  }

  full-IsValid :
      (d : DamageDetector fl) (frame : List ℕ) (w h ns : ℕ)
      → length frame ≡ w * h * 4
      → IsValid d
      → IsValid (detect_full fl d frame w h ns).0
  unfolding detect_full
  full-IsValid d frame w h ns len v = record {
    frame_fits = λ w' h' e. (frame, refl, ground arith);
    grid_fits = λ w' h' e i. (ground arith, ground arith);
    flags_fit = ground (
      arith,
      length-replicate (div_ceil w d.config.tile_size * div_ceil h d.config.tile_size) false,
    );
    stats_balance = record_frame-IsBalanced fl d.stats (w * h) (w * h) ns v.stats_balance;
  }

  against-IsValid :
      (d : DamageDetector fl) (prev frame : List ℕ) (w h ns : ℕ)
      → length frame ≡ w * h * 4
      → d.previous_dimensions ≡ some (w, h)
      → IsValid d
      → IsValid (detect_against fl d prev frame w h ns).0
  unfolding detect_against
  against-IsValid d prev frame w h ns len dims v = record {
    frame_fits = λ w' h' e. (frame, refl, ground arith);
    grid_fits = v.grid_fits;
    flags_fit = length-rows_flags fl d.config prev frame w h d.tiles_x d.tiles_y 0;
    stats_balance =
        record_frame-IsBalanced fl d.stats (w * h)
          (sum_areas (detect_changes fl d prev frame w h).1) ns v.stats_balance;
  }

  -- The branches of `detect`, by what they return.
  detect_cases :
      (d d' : DamageDetector fl) (frame : List ℕ) (w h ns : ℕ) (rs : List DamageRegion)
      → detect fl d frame w h ns ≡ some (d', rs)
      → ((detect_full fl d frame w h ns).0 ≡ d')
        ⊎ ((prev : List ℕ) × (d.previous_dimensions ≡ some (w, h))
            × ((detect_against fl d prev frame w h ns).0 ≡ d'))
  unfolding detect
  detect_cases d d' frame w h ns rs e = elim (Option-cases d.previous_frame) [
    | inl first ↦ inl (ground arith)
    | inr (prev, seen) ↦ elim (Bool-cases (d.invalidated || dimensions_changed fl d w h)) [
      | inl refresh ↦ inl (ground arith)
      | inr same ↦ inr (prev, ground arith, ground arith)
    ]
  ]

  detect_len :
      (d d' : DamageDetector fl) (frame : List ℕ) (w h ns : ℕ) (rs : List DamageRegion)
      → detect fl d frame w h ns ≡ some (d', rs)
      → length frame ≡ w * h * 4
  unfolding detect
  detect_len d d' frame w h ns rs e = ground arith

  -- Every frame that `detect` takes leaves the detector valid.
  pub detect-IsValid :
      (d d' : DamageDetector fl) (frame : List ℕ) (w h ns : ℕ) (rs : List DamageRegion)
      → detect fl d frame w h ns ≡ some (d', rs)
      → IsValid d
      → IsValid d'
  detect-IsValid d d' frame w h ns rs e v =
      let len = detect_len d d' frame w h ns rs e in
      elim (detect_cases d d' frame w h ns rs e) [
        | inl full ↦ rw full at (full-IsValid d frame w h ns len v)
        | inr (prev, dims, against) ↦ rw against at (against-IsValid d prev frame w h ns len dims v)
      ]
