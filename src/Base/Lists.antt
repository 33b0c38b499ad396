-- ===== src/Base/Lists.antt =====
-- Lists measured by native numbers, under the library's names, and predicates over lists.
use Prim.Native.Nat.{ℕ, zero, suc, ◌+◌, ◌≤◌}
use mathlib.Core.Option.{Option, none, some}
use mathlib.Core.Path.{◌≡◌, refl, ap}
use mathlib.Core.Bool.{Bool, false, ◌||◌}
use mathlib.Core.List.{List, [], ◌∷◌, ◌++◌}
use native.Mathlib.Omega.{arith}

module _ {ℓ} {A : Type ℓ} where
  abbrev pub length : List A → ℕ
  length [] = 0
  length (x ∷ xs) = suc (length xs)

  abbrev pub any : (A → Bool) → List A → Bool
  any p [] = false
  any p (x ∷ xs) = p x || any p xs

  -- xs[i], and none when i is out of range.
  abbrev pub get_elem? : ℕ → List A → Option A
  get_elem? i [] = none
  get_elem? zero (x ∷ xs) = some x
  get_elem? (suc i) (x ∷ xs) = get_elem? i xs

  -- xs[i] = y
  abbrev pub set_elem : ℕ → A → List A → List A
  set_elem i y [] = []
  set_elem zero y (x ∷ xs) = y ∷ xs
  set_elem (suc i) y (x ∷ xs) = x ∷ set_elem i y xs

  -- xs[n:], and [] when n is out of range.
  abbrev pub drop : ℕ → List A → List A
  drop zero xs = xs
  drop (suc n) [] = []
  drop (suc n) (x ∷ xs) = drop n xs

  pub drop-append : (n : ℕ) (xs ys : List A) → n ≤ length xs → drop n (xs ++ ys) ≡ drop n xs ++ ys
  drop-append zero xs ys h = refl
  drop-append (suc n) [] ys h = ground arith
  drop-append (suc n) (x ∷ xs) ys h = drop-append n xs ys (omega arith)

  pub drop-length : (xs : List A) → drop (length xs) xs ≡ []
  drop-length [] = refl
  drop-length (x ∷ xs) = drop-length xs

  pub length-append : (xs ys : List A) → length (xs ++ ys) ≡ length xs + length ys
  length-append [] ys = omega arith
  length-append (x ∷ xs) ys = omega (arith, length-append xs ys)

  pub any-append : (p : A → Bool) (xs ys : List A) → any p (xs ++ ys) ≡ (any p xs || any p ys)
  any-append p [] ys = refl
  any-append p (x ∷ xs) ys = ground (arith, any-append p xs ys)

module _ {ℓ κ} {A : Type ℓ} (P : A → Type κ) where
  abbrev pub All : List A → Type κ
  All [] = Unit
  All (x ∷ xs) = P x × All xs

  pub All-append : (xs ys : List A) → All xs → All ys → All (xs ++ ys)
  All-append [] ys _ k = k
  All-append (x ∷ xs) ys (p, h) k = (p, All-append xs ys h k)

  pub All-get_elem? : (xs : List A) (i : ℕ) {x : A} → All xs → get_elem? i xs ≡ some x → P x
  All-get_elem? [] i h e = cc
  All-get_elem? (y ∷ xs) zero (p, h) e = let same : Path A y _ = cc in rw same at p
  All-get_elem? (y ∷ xs) (suc i) (p, h) e = All-get_elem? xs i h e

  pub All-set_elem : (xs : List A) (i : ℕ) {x : A} → All xs → P x → All (set_elem i x xs)
  All-set_elem [] i h k = tt
  All-set_elem (y ∷ xs) zero (p, h) k = (k, h)
  All-set_elem (y ∷ xs) (suc i) (p, h) k = (p, All-set_elem xs i h k)

module _ {ℓ} {A : Type ℓ} where
  pub length-set_elem : (xs : List A) (i : ℕ) (x : A) → length (set_elem i x xs) ≡ length xs
  length-set_elem [] i x = refl
  length-set_elem (y ∷ xs) zero x = refl
  length-set_elem (y ∷ xs) (suc i) x = ap suc (length-set_elem xs i x)
