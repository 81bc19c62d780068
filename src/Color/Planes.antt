-- ===== src/Color/Planes.antt =====
-- Planes of samples, row after row in one list.
use cheirizo.Prelude.{
  ℕ, zero, suc, ◌+◌, ◌*◌, ◌≤◌, ◌<◌, List, [], ◌∷◌, ◌++◌, ◌≡◌, ◌∙◌, refl, ap, arith, length, get_or,
  take, drop, replicate, length-append, get_or-append_left, get_or-append_right,
}

-- The samples at the columns from `x` on of a row.
unfoldable pub row_from : (ℕ → ℕ) → ℕ → ℕ → List ℕ
row_from f x zero = []
row_from f x (suc n) = f x ∷ row_from f (x + 1) n

-- The rows from `y` on: `for y in y..y + n { for x in 0..cols { push(f(y, x)) } }`.
unfoldable pub plane_from : (ℕ → ℕ → ℕ) → ℕ → ℕ → ℕ → List ℕ
plane_from f cols y zero = []
plane_from f cols y (suc n) = row_from (f y) 0 cols ++ plane_from f cols (y + 1) n

length-row_from : (f : ℕ → ℕ) (x n : ℕ) → length (row_from f x n) ≡ n
unfolding row_from
length-row_from f x zero = refl
length-row_from f x (suc n) = omega (arith, length-row_from f (x + 1) n)

pub length-plane_from : (f : ℕ → ℕ → ℕ) (cols y n : ℕ) → length (plane_from f cols y n) ≡ n * cols
unfolding plane_from
length-plane_from f cols y zero = omega arith
length-plane_from f cols y (suc n) = grind (
  arith,
  length-append (row_from (f y) 0 cols) (plane_from f cols (y + 1) n),
  length-row_from (f y) 0 cols,
  length-plane_from f cols (y + 1) n,
)

get_or-row_from : (f : ℕ → ℕ) (x n j d : ℕ) → j < n → get_or (row_from f x n) j d ≡ f (x + j)
unfolding row_from
get_or-row_from f x zero j d h = absurd (omega arith)
get_or-row_from f x (suc n) zero d h = let e : x ≡ x + 0 = omega arith in rw (← e) refl
get_or-row_from f x (suc n) (suc j) d h =
    let e : x + 1 + j ≡ x + suc j = omega arith in
    get_or-row_from f (x + 1) n j d (omega arith) ∙ rw e refl

-- The sample in a row and a column of the plane.
pub get_or-plane_from :
    (f : ℕ → ℕ → ℕ) (cols y n i j d : ℕ)
    → i < n
    → j < cols
    → get_or (plane_from f cols y n) (i * cols + j) d ≡ f (y + i) j
unfolding plane_from
get_or-plane_from f cols y zero i j d h k = absurd (omega arith)
get_or-plane_from f cols y (suc n) zero j d h k =
    let first : 0 * cols + j ≡ j = omega arith in
    let same : y + 0 ≡ y = omega arith in
    rw (first, same)
      (get_or-append_left _ _ j d (rw length-row_from k)
        ∙ get_or-row_from (f y) 0 cols j d k
        ∙ ap (f y) (omega arith))
get_or-plane_from f cols y (suc n) (suc i) j d h k =
    let e : y + 1 + i ≡ y + suc i = omega arith in
    get_or-append_right _ _ (suc i * cols + j) (i * cols + j) d
      (let len = length-row_from (f y) 0 cols in grind arith)
    ∙ get_or-plane_from f cols (y + 1) n i j d (omega arith) k
    ∙ rw e refl

pub get_or-take : (n i d : ℕ) (xs : List ℕ) → i < n → get_or (take n xs) i d ≡ get_or xs i d
get_or-take zero i d xs h = absurd (omega arith)
get_or-take (suc n) i d [] h = refl
get_or-take (suc n) zero d (x ∷ xs) h = refl
get_or-take (suc n) (suc i) d (x ∷ xs) h = get_or-take n i d xs (omega arith)

pub get_or-drop : (n i d : ℕ) (xs : List ℕ) → get_or (drop n xs) i d ≡ get_or xs (n + i) d
get_or-drop zero i d xs = let e : 0 + i ≡ i = omega arith in rw e refl
get_or-drop (suc n) i d [] = refl
get_or-drop (suc n) i d (x ∷ xs) =
    let e : suc n + i ≡ suc (n + i) = omega arith in get_or-drop n i d xs ∙ rw e refl

pub length-take : (n : ℕ) (xs : List ℕ) → n ≤ length xs → length (take n xs) ≡ n
length-take zero xs h = refl
length-take (suc n) [] h = absurd (omega arith)
length-take (suc n) (x ∷ xs) h = omega (arith, length-take n xs)

pub length-drop : (n : ℕ) (xs : List ℕ) → n ≤ length xs → length (drop n xs) + n ≡ length xs
length-drop zero xs h = omega arith
length-drop (suc n) [] h = absurd (omega arith)
length-drop (suc n) (x ∷ xs) h = omega (arith, length-drop n xs)

pub get_or-replicate : (n i a d : ℕ) → i < n → get_or (replicate n a) i d ≡ a
get_or-replicate zero i a d h = absurd (omega arith)
get_or-replicate (suc n) zero a d h = refl
get_or-replicate (suc n) (suc i) a d h = get_or-replicate n i a d (omega arith)
