-- ===== src/Damage/Detector/Quiet.antt =====
-- When `detect` reports the whole frame, and when it reports nothing.
use cheirizo.Prelude.{ℕ, ◌*◌, true, false, ◌≡◌, ◌⊎◌, List, [], ◌∷◌, length, arith, none, some}
use cheirizo.Damage.Region.{DamageRegion, full_frame}
use cheirizo.Damage.Stats.{DamageFloats}
use cheirizo.Damage.Detector.{
  DamageDetector, detect, detect_full, detect_against, detect_changes, dimensions_changed,
}
use cheirizo.Damage.Regions.Quiet.{tiles_to_regions_quiet, merge_regions_nil}
use cheirizo.Damage.Detector.Flags.{rows_flags_self}

module _ (fl : DamageFloats) where
  -- What a detector remembers once it has seen a frame.
  pub record HasSeen (d : DamageDetector fl) (frame : List ℕ) (w h : ℕ) : Type 0 where
    pub frame_seen : d.previous_frame ≡ some frame
    pub dimensions_seen : d.previous_dimensions ≡ some (w, h)
    pub valid : d.invalidated ≡ false

  -- Why the whole frame is reported.
  abbrev pub NeedsRefresh : DamageDetector fl → ℕ → ℕ → Type 0
  NeedsRefresh d w h =
      (d.previous_frame ≡ none) ⊎ (d.invalidated ≡ true) ⊎ (dimensions_changed fl d w h ≡ true)

  -- A first frame, an invalidated detector or new dimensions give the whole frame as the one
  -- damaged region, and the detector has then seen the frame.
  pub detect_refresh :
      (d : DamageDetector fl) (frame : List ℕ) (w h ns : ℕ)
      → length frame ≡ w * h * 4
      → NeedsRefresh d w h
      → (d' : DamageDetector fl) × (detect fl d frame w h ns ≡ some (d', full_frame w h ∷ []))
        × HasSeen d' frame w h
  unfolding detect
  detect_refresh d frame w h ns len why =
      ((detect_full fl d frame w h ns).0, ground arith, ground arith)

  detect_changes_self :
      (d : DamageDetector fl) (frame : List ℕ) (w h : ℕ)
      → (detect_changes fl d frame frame w h).1 ≡ []
  unfolding detect_changes
  detect_changes_self d frame w h = rw (
    tiles_to_regions_quiet _ (rows_flags_self fl d.config frame w h d.tiles_x d.tiles_y 0) d.tiles_x
        d.config.tile_size w h d.tiles_y,
    merge_regions_nil d.config.merge_distance,
  )

  detect-HasSeen :
      (d d' : DamageDetector fl) (frame : List ℕ) (w h ns : ℕ) (rs : List DamageRegion)
      → detect fl d frame w h ns ≡ some (d', rs)
      → HasSeen d' frame w h
  unfolding detect
  detect-HasSeen d d' frame w h ns rs e = ground arith

  detect_seen :
      (d : DamageDetector fl) (frame : List ℕ) (w h ns : ℕ)
      → length frame ≡ w * h * 4
      → HasSeen d frame w h
      → (d' : DamageDetector fl) × (detect fl d frame w h ns ≡ some (d', []))
  unfolding detect
  detect_seen d frame w h ns len seen =
      ((detect_against fl d frame frame w h ns).0, ground (arith, detect_changes_self d frame w h))

  -- Whatever a detector reports of a frame, it reports nothing when the same frame comes next.
  pub detect_twice :
      (d d' : DamageDetector fl) (frame : List ℕ) (w h ns ns' : ℕ) (rs : List DamageRegion)
      → length frame ≡ w * h * 4
      → detect fl d frame w h ns ≡ some (d', rs)
      → (d'' : DamageDetector fl) × (detect fl d' frame w h ns' ≡ some (d'', []))
  detect_twice d d' frame w h ns ns' rs len e =
      detect_seen d' frame w h ns' len (detect-HasSeen d d' frame w h ns rs e)
