-- ===== src/Damage/Regions/Quiet.antt =====
-- With no dirty tile there is no region.
use cheirizo.Prelude.{ℕ, zero, suc, ◌+◌, ◌*◌, Bool, false, ◌≡◌, refl, List, [], ◌∷◌, get_or, All}
use cheirizo.Damage.Regions.{row_regions, rows_regions, tiles_to_regions, merge_regions}

abbrev pub AllFalse : List Bool → Type 0
AllFalse = All (λ b. b ≡ false)

get_or-AllFalse : (bs : List Bool) (i : ℕ) → AllFalse bs → get_or bs i false ≡ false
get_or-AllFalse [] i h = refl
get_or-AllFalse (b ∷ bs) zero h = h.0
get_or-AllFalse (b ∷ bs) (suc i) h = get_or-AllFalse bs i h.1

module _ (flags : List Bool) (quiet : AllFalse flags) (n size w h : ℕ) where
  row_regions_quiet : (left tx ty : ℕ) → row_regions flags n size w h left tx ty ≡ []
  unfolding row_regions
  row_regions_quiet zero tx ty = refl
  row_regions_quiet (suc left) tx ty =
      rw (get_or-AllFalse flags (ty * n + tx) quiet) (row_regions_quiet left (tx + 1) ty)

  rows_regions_quiet : (left ty : ℕ) → rows_regions flags n size w h left ty ≡ []
  unfolding rows_regions
  rows_regions_quiet zero ty = refl
  rows_regions_quiet (suc left) ty =
      rw (row_regions_quiet n 0 ty) (rows_regions_quiet left (ty + 1))

  pub tiles_to_regions_quiet : (ny : ℕ) → tiles_to_regions flags n ny size w h ≡ []
  unfolding tiles_to_regions
  tiles_to_regions_quiet ny = rows_regions_quiet ny 0

pub merge_regions_nil : (d : ℕ) → merge_regions [] d ≡ []
unfolding merge_regions
merge_regions_nil d = refl
