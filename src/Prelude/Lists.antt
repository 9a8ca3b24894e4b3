-- ===== src/Prelude/Lists.antt =====
-- Lists measured and indexed by native numbers, as the source's vectors are.
use Prim.Native.Nat.{ℕ, zero, suc, ◌+◌, ◌-◌, ◌≤◌, ◌<◌}
use mathlib.Core.Path.{◌≡◌, refl, ap}
use mathlib.Core.List.{List, [], ◌∷◌, ◌++◌}
use mathlib.Core.Option.{Option, none, some}
use native.Mathlib.Omega.{arith}
use mathlib.Core.Bool.{false}
use bitswash.Prelude.Tests.{ltb, ◌==◌, if◌then◌else◌}

module _ {ℓ} {A : Type ℓ} where
  abbrev pub length : List A → ℕ
  length [] = 0
  length (x ∷ xs) = suc (length xs)

  abbrev pub get_elem? : List A → ℕ → Option A
  get_elem? [] i = none
  get_elem? (x ∷ xs) zero = some x
  get_elem? (x ∷ xs) (suc i) = get_elem? xs i

  abbrev pub replicate : ℕ → A → List A
  replicate zero a = []
  replicate (suc n) a = a ∷ replicate n a

  abbrev pub drop : ℕ → List A → List A
  drop zero xs = xs
  drop (suc n) [] = []
  drop (suc n) (x ∷ xs) = drop n xs

  -- `v[i] = x`, in range.
  abbrev pub set : List A → ℕ → A → List A
  set [] i v = []
  set (x ∷ xs) zero v = v ∷ xs
  set (x ∷ xs) (suc i) v = x ∷ set xs i v

  -- `v.erase(v.begin() + i)`, in range.
  abbrev pub erase_at : List A → ℕ → List A
  erase_at [] i = []
  erase_at (x ∷ xs) zero = xs
  erase_at (x ∷ xs) (suc i) = x ∷ erase_at xs i

  -- `v.insert(v.begin() + i, x)`, for `i` up to the size.
  abbrev pub insert_at : List A → ℕ → A → List A
  insert_at [] i v = v ∷ []
  insert_at (x ∷ xs) zero v = v ∷ x ∷ xs
  insert_at (x ∷ xs) (suc i) v = x ∷ insert_at xs i v

  pub length-append : (xs ys : List A) → length (xs ++ ys) ≡ length xs + length ys
  length-append [] ys = omega arith
  length-append (x ∷ xs) ys = omega (arith, length-append xs ys)

  pub length-set : (xs : List A) (i : ℕ) (v : A) → length (set xs i v) ≡ length xs
  length-set [] i v = refl
  length-set (x ∷ xs) zero v = refl
  length-set (x ∷ xs) (suc i) v = ap suc (length-set xs i v)

  pub length-erase_at :
      (xs : List A) (i : ℕ) → i < length xs → length (erase_at xs i) + 1 ≡ length xs
  length-erase_at [] i h = absurd (omega arith)
  length-erase_at (x ∷ xs) zero h = omega arith
  length-erase_at (x ∷ xs) (suc i) h = omega (arith, length-erase_at xs i (omega arith))

  pub length-insert_at : (xs : List A) (i : ℕ) (v : A) → length (insert_at xs i v) ≡ length xs + 1
  length-insert_at [] i v = omega arith
  length-insert_at (x ∷ xs) zero v = omega arith
  length-insert_at (x ∷ xs) (suc i) v = omega (arith, length-insert_at xs i v)

  pub get_elem?-lt : (xs : List A) (i : ℕ) (v : A) → get_elem? xs i ≡ some v → i < length xs
  get_elem?-lt [] i v h = ground arith
  get_elem?-lt (x ∷ xs) zero v h = omega arith
  get_elem?-lt (x ∷ xs) (suc i) v h = omega (arith, get_elem?-lt xs i v h)

  pub get_elem?-some : (xs : List A) (i : ℕ) → i < length xs → (v : A) × (get_elem? xs i ≡ some v)
  get_elem?-some [] i h = absurd (omega arith)
  get_elem?-some (x ∷ xs) zero h = (x, refl)
  get_elem?-some (x ∷ xs) (suc i) h = get_elem?-some xs i (omega arith)

  pub get_elem?-set :
      (xs : List A) (i : ℕ) (v : A) (j : ℕ)
      → i < length xs
      → get_elem? (set xs i v) j ≡ (if i == j then some v else get_elem? xs j)
  get_elem?-set [] i v j h = absurd (omega arith)
  get_elem?-set (x ∷ xs) zero v zero h = ground arith
  get_elem?-set (x ∷ xs) zero v (suc j) h = ground arith
  get_elem?-set (x ∷ xs) (suc i) v zero h = ground arith
  get_elem?-set (x ∷ xs) (suc i) v (suc j) h = ground (arith, get_elem?-set xs i v j)

  pub get_elem?-erase_at :
      (xs : List A) (i j : ℕ)
      → get_elem? (erase_at xs i) j ≡ (if ltb j i then get_elem? xs j else get_elem? xs (suc j))
  get_elem?-erase_at [] i j = ground arith
  get_elem?-erase_at (x ∷ xs) zero j = ground arith
  get_elem?-erase_at (x ∷ xs) (suc i) zero = ground arith
  get_elem?-erase_at (x ∷ xs) (suc i) (suc j) = ground (arith, get_elem?-erase_at xs i j)

  pub get_elem?-append :
      (xs : List A) (v : A) (j : ℕ)
      → get_elem? (xs ++ v ∷ []) j ≡ (if j == length xs then some v else get_elem? xs j)
  get_elem?-append [] v zero = ground arith
  get_elem?-append [] v (suc j) = ground arith
  get_elem?-append (x ∷ xs) v zero = ground arith
  get_elem?-append (x ∷ xs) v (suc j) = ground (arith, get_elem?-append xs v j)

module _ {A : Type 0} where
  pub get_elem?-insert_at :
      (xs : List A) (i : ℕ) (v : A) (j : ℕ)
      → i ≤ length xs
      → get_elem? (insert_at xs i v) j
        ≡ (if ltb j i then get_elem? xs j else if i == j then some v else get_elem? xs (j - 1))
  get_elem?-insert_at [] zero v zero h = ground arith
  get_elem?-insert_at [] zero v (suc j) h = ground arith
  get_elem?-insert_at [] (suc i) v j h = absurd (omega arith)
  get_elem?-insert_at (x ∷ xs) zero v zero h = ground arith
  get_elem?-insert_at (x ∷ xs) zero v (suc j) h =
      let past : ltb (suc j) 0 ≡ false = ground arith in
      let other : (0 == suc j) ≡ false = ground arith in
      let index : j ≡ suc j - 1 = omega arith in rw (past, other) (ap (get_elem? (x ∷ xs)) index)
  get_elem?-insert_at (x ∷ xs) (suc i) v zero h = ground arith
  get_elem?-insert_at (x ∷ xs) (suc i) v (suc zero) h =
      ground (arith, get_elem?-insert_at xs i v zero)
  get_elem?-insert_at (x ∷ xs) (suc i) v (suc (suc j)) h =
      ground (arith, get_elem?-insert_at xs i v (suc j))
