-- ===== src/Damage/Regions/Tiles.antt =====
-- The regions of the dirty tiles: within the frame, and over its dirty points exactly.
use cheirizo.Prelude.{
  false, refl, get_or, ◌↔◌, ◌*◌, ◌/◌, ℕ, zero, suc, ◌+◌, ◌≤◌, ◌<◌, Bool, true, ◌≡◌, inl, inr, List,
  [], ◌∷◌, ◌++◌, any, All, arith, Bool-cases, any-append,
}
use cheirizo.Prelude.Words.{div_ceil, mul-lt_of_lt-div_ceil, div-lt-div_ceil, u32_max}
use cheirizo.Damage.Region.{contains, DamageRegion, full_frame}
use native.Mathlib.Nat.{div-eq_of_lt-le, div-mul-le_self, lt-div-mul-add}
use cheirizo.Damage.Region.Bounds.{Within}
use cheirizo.Damage.Regions.{tile_region, tile_regions, row_regions, rows_regions, tiles_to_regions}

module _ (dirty : List Bool) (n size w h : ℕ) (p : DamageRegion → Bool) where
  row_any :
      (left tx₀ ty tx : ℕ)
      → tx₀ ≤ tx
      → tx < tx₀ + left
      → any p (tile_regions dirty n size w h tx ty) ≡ true
      → any p (row_regions dirty n size w h left tx₀ ty) ≡ true
  unfolding row_regions
  row_any zero tx₀ ty tx lo hi hit = absurd (omega arith)
  row_any (suc left) tx₀ ty tx lo hi hit = ground (
    arith,
    any-append p (tile_regions dirty n size w h tx₀ ty)
        (row_regions dirty n size w h left (tx₀ + 1) ty),
    row_any left (tx₀ + 1) ty tx,
  )

  rows_any :
      (left ty₀ ty tx : ℕ)
      → ty₀ ≤ ty
      → ty < ty₀ + left
      → tx < n
      → any p (tile_regions dirty n size w h tx ty) ≡ true
      → any p (rows_regions dirty n size w h left ty₀) ≡ true
  unfolding rows_regions
  rows_any zero ty₀ ty tx lo hi k hit = absurd (omega arith)
  rows_any (suc left) ty₀ ty tx lo hi k hit = ground (
    arith,
    any-append p (row_regions dirty n size w h n 0 ty₀)
        (rows_regions dirty n size w h left (ty₀ + 1)),
    row_any n 0 ty tx,
    rows_any left (ty₀ + 1) ty tx,
  )

  row_hit :
      (left tx₀ ty : ℕ)
      → any p (row_regions dirty n size w h left tx₀ ty) ≡ true
      → (tx : ℕ) × (tx < tx₀ + left) × (any p (tile_regions dirty n size w h tx ty) ≡ true)
  unfolding row_regions
  row_hit zero tx₀ ty hit = absurd (ground arith)
  row_hit (suc left) tx₀ ty hit = elim (Bool-cases (any p (tile_regions dirty n size w h tx₀ ty))) [
    | inl here ↦ (tx₀, omega arith, here)
    | inr later ↦
        let (tx, lt, e) = row_hit left (tx₀ + 1) ty (
          ground (
            arith,
            any-append p (tile_regions dirty n size w h tx₀ ty)
                (row_regions dirty n size w h left (tx₀ + 1) ty),
          )) in
        (tx, omega arith, e)
  ]

  rows_hit :
      (left ty₀ : ℕ)
      → any p (rows_regions dirty n size w h left ty₀) ≡ true
      → (tx : ℕ) × (ty : ℕ) × (tx < n)
        × (ty < ty₀ + left)
        × (any p (tile_regions dirty n size w h tx ty) ≡ true)
  unfolding rows_regions
  rows_hit zero ty₀ hit = absurd (ground arith)
  rows_hit (suc left) ty₀ hit = elim (Bool-cases (any p (row_regions dirty n size w h n 0 ty₀))) [
    | inl here ↦ let (tx, lt, e) = row_hit n 0 ty₀ here in (tx, ty₀, omega arith, omega arith, e)
    | inr later ↦
        let (tx, ty, lt, lt', e) = rows_hit left (ty₀ + 1) (
          ground (
            arith,
            any-append p (row_regions dirty n size w h n 0 ty₀)
                (rows_regions dirty n size w h left (ty₀ + 1)),
          )) in
        (tx, ty, lt, omega arith, e)
  ]

-- What a region of a tile is: not empty, and within the frame.
abbrev pub InFrame : ℕ → ℕ → DamageRegion → Type 0
InFrame w h r = Within r (full_frame w h) × (0 < r.width) × (0 < r.height)

module _ (dirty : List Bool) (n size w h : ℕ) where
  All-append :
      (rs ss : List DamageRegion)
      → All (InFrame w h) rs
      → All (InFrame w h) ss
      → All (InFrame w h) (rs ++ ss)
  All-append [] ss a b = b
  All-append (r ∷ rs) ss a b = (a.0, All-append rs ss a.1 b)

  row_InFrame : (left tx ty : ℕ) → All (InFrame w h) (row_regions dirty n size w h left tx ty)
  unfolding row_regions
  row_InFrame zero tx ty = tt
  row_InFrame (suc left) tx ty =
      All-append (tile_regions dirty n size w h tx ty)
        (row_regions dirty n size w h left (tx + 1) ty) (unfold tile_regions in ground arith)
        (row_InFrame left (tx + 1) ty)

  rows_InFrame : (left ty : ℕ) → All (InFrame w h) (rows_regions dirty n size w h left ty)
  unfolding rows_regions
  rows_InFrame zero ty = tt
  rows_InFrame (suc left) ty =
      All-append (row_regions dirty n size w h n 0 ty) (rows_regions dirty n size w h left (ty + 1))
        (row_InFrame n 0 ty) (rows_InFrame left (ty + 1))

-- Every region of `tiles_to_regions` lies within the frame and is not empty, whatever the flags.
pub tiles_to_regions-InFrame :
    (dirty : List Bool) (nx ny size w h : ℕ)
    → All (InFrame w h) (tiles_to_regions dirty nx ny size w h)
unfolding tiles_to_regions
tiles_to_regions-InFrame dirty nx ny size w h = rows_InFrame dirty nx size w h ny 0

div_of_range : (size t a : ℕ) → t * size ≤ a → a < t * size + size → a / size ≡ t
div_of_range size t a lo hi = div-eq_of_lt-le size lo (grind arith)

range_of_div : (size a : ℕ) → 0 < size → (a / size * size ≤ a) × (a < a / size * size + size)
range_of_div size a pos = (div-mul-le_self a size, lt-div-mul-add pos)

module _ (dirty : List Bool) (nx size w h px py : ℕ) where
  -- A region of the tile `(tx, ty)` holds the point.
  abbrev TileHolds : ℕ → ℕ → Type 0
  TileHolds tx ty = any (λ r. contains r px py) (tile_regions dirty nx size w h tx ty) ≡ true

  tile_hit :
      (tx ty : ℕ)
      → size ≤ u32_max
      → tx * size ≤ u32_max
      → ty * size ≤ u32_max
      → TileHolds tx ty
      → (px / size ≡ tx) × (py / size ≡ ty) × (get_or dirty (ty * nx + tx) false ≡ true)
  unfolding tile_regions contains
  tile_hit tx ty fits wide tall hit = (
    div_of_range size tx px (ground arith) (ground arith),
    div_of_range size ty py (ground arith) (ground arith),
    ground arith,
  )

  tile_holds :
      (tx ty : ℕ)
      → 0 < size
      → size ≤ u32_max
      → w ≤ u32_max
      → h ≤ u32_max
      → px < w
      → py < h
      → px / size ≡ tx
      → py / size ≡ ty
      → get_or dirty (ty * nx + tx) false ≡ true
      → TileHolds tx ty
  unfolding tile_regions contains
  tile_holds tx ty pos fits fw fh ix iy ex ey hit =
      let (lx, hx) = range_of_div size px pos in
      let (ly, hy) = range_of_div size py pos in
      let lx' : tx * size ≤ px = rw (← ex) lx in
      let hx' : px < tx * size + size = rw (← ex) hx in
      let ly' : ty * size ≤ py = rw (← ey) ly in
      let hy' : py < ty * size + size = rw (← ey) hy in ground arith

  -- The region of the tile passes a test that no empty list does.
  tile_any :
      (p : DamageRegion → Bool) (tx ty : ℕ)
      → TileHolds tx ty
      → p (tile_region dirty nx size w h tx ty) ≡ true
      → any p (tile_regions dirty nx size w h tx ty) ≡ true
  unfolding tile_regions
  tile_any p tx ty holds good = ground arith

  -- A test that the region of a dirty point's tile passes is passed by some region.
  pub tiles_to_regions-any :
      (p : DamageRegion → Bool) (ny : ℕ)
      → 0 < size
      → size ≤ u32_max
      → w ≤ u32_max
      → h ≤ u32_max
      → nx ≡ div_ceil w size
      → ny ≡ div_ceil h size
      → px < w
      → py < h
      → get_or dirty (py / size * nx + px / size) false ≡ true
      → (contains (tile_region dirty nx size w h (px / size) (py / size)) px py ≡ true
          → p (tile_region dirty nx size w h (px / size) (py / size)) ≡ true)
      → any p (tiles_to_regions dirty nx ny size w h) ≡ true
  unfolding tiles_to_regions
  tiles_to_regions-any p ny pos fits fw fh gx gy ix iy flag good =
      let holds : TileHolds (px / size) (py / size) =
        tile_holds (px / size) (py / size) pos fits fw fh ix iy refl refl flag in
      rows_any dirty nx size w h p ny 0 (py / size) (px / size) (omega arith)
        (rw gy (omega (arith, div-lt-div_ceil h size py pos iy)))
        (rw gx (div-lt-div_ceil w size px pos ix))
        (tile_any p (px / size) (py / size) holds
          (good (unfold tile_regions in ground (arith, holds))))

  -- Over a frame of u32 sides, cut into tiles of `size`, a point of the frame lies in some region
  -- of `tiles_to_regions` exactly when the flag of its tile is set.
  pub tiles_to_regions_exact :
      (ny : ℕ)
      → 0 < size
      → size ≤ u32_max
      → w ≤ u32_max
      → h ≤ u32_max
      → nx ≡ div_ceil w size
      → ny ≡ div_ceil h size
      → px < w
      → py < h
      → (any (λ r. contains r px py) (tiles_to_regions dirty nx ny size w h) ≡ true)
        ↔ (get_or dirty (py / size * nx + px / size) false ≡ true)
  unfolding tiles_to_regions
  tiles_to_regions_exact ny pos fits fw fh gx gy ix iy = (
    λ some_region.
        let (tx, ty, lx, ly, hit) =
          rows_hit dirty nx size w h (λ r. contains r px py) ny 0 some_region in
        let bx = mul-lt_of_lt-div_ceil w size tx pos (rw (← gx) lx) in
        let by = mul-lt_of_lt-div_ceil h size ty pos (rw (← gy) (omega arith)) in
        let (ex, ey, flag) = tile_hit tx ty fits (omega arith) (omega arith) hit in
        rw (ex, ey) flag,
    λ flag.
        rows_any dirty nx size w h (λ r. contains r px py) ny 0 (py / size) (px / size)
          (omega arith) (rw gy (omega (arith, div-lt-div_ceil h size py pos iy)))
          (rw gx (div-lt-div_ceil w size px pos ix))
          (tile_holds (px / size) (py / size) pos fits fw fh ix iy refl refl flag),
  )
