-- ===== src/Damage/Stats.antt =====
-- src/rdp/channels/graphics/damage/config.rs and stats.rs. The counters are u64; they are numbers
-- here, since no run is long enough to wrap one.
use cheirizo.Prelude.{ℕ, ◌+◌, ◌*◌, ◌/◌, max, ◌≡◌, arith, ltb, leb, ◌==◌, if◌then◌else◌}

-- What the code computes in floats: a fraction of a count as a u32, the quotient of two counts, and
-- the mean of nanoseconds over frames in milliseconds.
pub record DamageFloats : Type 1 where
  pub Float : Type 0
  pub zero_float : Float
  pub portion : ℕ → Float → ℕ
  pub ratio : ℕ → ℕ → Float
  pub mean_ms : ℕ → ℕ → Float

module _ (fl : DamageFloats) where
  open fl use {Float, zero_float, ratio, mean_ms}

  pub record DamageConfig : Type 0 where
    pub tile_size : ℕ
    pub diff_threshold : Float
    pub pixel_threshold : ℕ
    pub merge_distance : ℕ
    pub min_region_area : ℕ

  pub record DamageStats : Type 0 where
    pub frames_processed : ℕ
    pub frames_skipped : ℕ
    pub frames_full : ℕ
    pub frames_partial : ℕ
    pub total_damage_area : ℕ
    pub total_frame_area : ℕ
    pub total_detection_time_ns : ℕ
    pub avg_damage_ratio : Float
    pub avg_detection_time_ms : Float

  abbrev pub default_stats : DamageStats
  default_stats = record {
    frames_processed = 0;
    frames_skipped = 0;
    frames_full = 0;
    frames_partial = 0;
    total_damage_area = 0;
    total_frame_area = 0;
    total_detection_time_ns = 0;
    avg_damage_ratio = zero_float;
    avg_detection_time_ms = zero_float;
  }

  unfoldable pub update_averages : DamageStats → DamageStats
  update_averages s =
      if ltb 0 s.frames_processed
      then record s {
        avg_damage_ratio = ratio s.total_damage_area (max s.total_frame_area 1);
        avg_detection_time_ms = mean_ms s.total_detection_time_ns s.frames_processed;
      }
      else s

  unfoldable pub count_frame : ℕ → ℕ → DamageStats → DamageStats
  count_frame frame_area damage_area s =
      if damage_area == 0
      then record s { frames_skipped = s.frames_skipped + 1 }
      else if leb (frame_area * 9 / 10) damage_area
      then record s { frames_full = s.frames_full + 1 }
      else record s { frames_partial = s.frames_partial + 1 }

  unfoldable pub record_frame : DamageStats → ℕ → ℕ → ℕ → DamageStats
  unfolding update_averages count_frame
  record_frame s frame_area damage_area detection_time_ns = update_averages (
      count_frame frame_area damage_area (record s {
        frames_processed = s.frames_processed + 1;
        total_damage_area = s.total_damage_area + damage_area;
        total_frame_area = s.total_frame_area + frame_area;
        total_detection_time_ns = s.total_detection_time_ns + detection_time_ns;
      }))

  -- Every frame is counted as skipped, full or partial.
  pub record IsBalanced (s : DamageStats) : Type 0 where
    pub balance : s.frames_processed ≡ s.frames_skipped + s.frames_full + s.frames_partial

  pub record_frame-IsBalanced :
      (s : DamageStats) (frame_area damage_area ns : ℕ)
      → IsBalanced s
      → IsBalanced (record_frame s frame_area damage_area ns)
  unfolding record_frame
  record_frame-IsBalanced s frame_area damage_area ns h = ground arith
