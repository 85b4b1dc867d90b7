-- ===== src/Prelude/Lists.antt =====
-- Lists measured and indexed by native numbers, under the library's names, and slices of them.
use Prim.Native.Nat.{ℕ, zero, suc, ◌+◌, ◌-◌, ◌≤◌, ◌<◌, min}
use mathlib.Core.Bool.{Bool, true, false}
use mathlib.Core.Path.{◌≡◌, refl, sym, ap, ◌∙◌}
use mathlib.Core.List.{List, [], ◌∷◌, ◌++◌}
use mathlib.Core.Option.{Option, none, some}
use native.Mathlib.Omega.{arith}

-- The predicate holds of each element.
abbrev pub All {ℓ κ} : {A : Type ℓ} → (A → Type κ) → List A → Type κ
All P [] = Unit
All P (x ∷ xs) = P x × All P xs

module _ {ℓ} {A : Type ℓ} where
  abbrev pub length : List A → ℕ
  length [] = 0
  length (x ∷ xs) = suc (length xs)

  -- `empty`, of a vector or a string.
  abbrev pub is_empty : List A → Bool
  is_empty [] = true
  is_empty (x ∷ xs) = false

  abbrev pub get_elem? : List A → ℕ → Option A
  get_elem? [] i = none
  get_elem? (x ∷ xs) zero = some x
  get_elem? (x ∷ xs) (suc i) = get_elem? xs i

  abbrev pub take : ℕ → List A → List A
  take zero xs = []
  take (suc n) [] = []
  take (suc n) (x ∷ xs) = x ∷ take n xs

  abbrev pub drop : ℕ → List A → List A
  drop zero xs = xs
  drop (suc n) [] = []
  drop (suc n) (x ∷ xs) = drop n xs

  abbrev pub replicate : ℕ → A → List A
  replicate zero a = []
  replicate (suc n) a = a ∷ replicate n a

module _ {ℓ} {A : Type ℓ} where
  pub length-append : (xs ys : List A) → length (xs ++ ys) ≡ length xs + length ys
  length-append [] ys = omega arith
  length-append (x ∷ xs) ys = omega (arith, length-append xs ys)

  pub length-take : (n : ℕ) (xs : List A) → length (take n xs) ≡ min n (length xs)
  length-take zero xs = omega arith
  length-take (suc n) [] = omega arith
  length-take (suc n) (x ∷ xs) = omega (arith, length-take n xs)

  pub length-drop : (n : ℕ) (xs : List A) → length (drop n xs) ≡ length xs - n
  length-drop zero xs = omega arith
  length-drop (suc n) [] = omega arith
  length-drop (suc n) (x ∷ xs) = omega (arith, length-drop n xs)

  pub length-replicate : (n : ℕ) (a : A) → length (replicate n a) ≡ n
  length-replicate zero a = refl
  length-replicate (suc n) a = ap suc (length-replicate n a)

  -- A read in range succeeds.
  pub get_elem?-lt : (xs : List A) (i : ℕ) → i < length xs → (a : A) × (get_elem? xs i ≡ some a)
  get_elem?-lt [] i h = elim h [ ]
  get_elem?-lt (x ∷ xs) zero h = (x, refl)
  get_elem?-lt (x ∷ xs) (suc i) h = get_elem?-lt xs i (omega arith)

  pub get_elem?-append_left :
      (xs ys : List A) (i : ℕ) → i < length xs → get_elem? (xs ++ ys) i ≡ get_elem? xs i
  get_elem?-append_left [] ys i h = elim h [ ]
  get_elem?-append_left (x ∷ xs) ys zero h = refl
  get_elem?-append_left (x ∷ xs) ys (suc i) h = get_elem?-append_left xs ys i (omega arith)

  pub get_elem?-append_right :
      (xs ys : List A) (i : ℕ) → get_elem? (xs ++ ys) (length xs + i) ≡ get_elem? ys i
  get_elem?-append_right [] ys i = ap (get_elem? ys) (omega arith)
  get_elem?-append_right (x ∷ xs) ys i =
      ap (get_elem? (x ∷ (xs ++ ys))) (index (length xs)) ∙ get_elem?-append_right xs ys i
    where
      index : (n : ℕ) → suc n + i ≡ suc (n + i)
      index n = omega arith

  pub take-append_left : (n : ℕ) (xs ys : List A) → n ≤ length xs → take n (xs ++ ys) ≡ take n xs
  take-append_left zero xs ys h = refl
  take-append_left (suc n) [] ys h = elim h [ ]
  take-append_left (suc n) (x ∷ xs) ys h = ap (◌∷◌ x) (take-append_left n xs ys (omega arith))

  pub take-length : (xs : List A) → take (length xs) xs ≡ xs
  take-length [] = refl
  take-length (x ∷ xs) = ap (◌∷◌ x) (take-length xs)

  pub drop-append_left :
      (n : ℕ) (xs ys : List A) → n ≤ length xs → drop n (xs ++ ys) ≡ drop n xs ++ ys
  drop-append_left zero xs ys h = refl
  drop-append_left (suc n) [] ys h = elim h [ ]
  drop-append_left (suc n) (x ∷ xs) ys h = drop-append_left n xs ys (omega arith)

  pub take-nil : (n : ℕ) → take {A = A} n [] ≡ []
  take-nil zero = refl
  take-nil (suc n) = refl

  pub drop-nil : (n : ℕ) → drop {A = A} n [] ≡ []
  drop-nil zero = refl
  drop-nil (suc n) = refl

  pub drop-length_append : (xs ys : List A) → drop (length xs) (xs ++ ys) ≡ ys
  drop-length_append [] ys = refl
  drop-length_append (x ∷ xs) ys = drop-length_append xs ys

  pub take-append-drop : (n : ℕ) (xs : List A) → take n xs ++ drop n xs ≡ xs
  take-append-drop zero xs = refl
  take-append-drop (suc n) [] = refl
  take-append-drop (suc n) (x ∷ xs) = ap (◌∷◌ x) (take-append-drop n xs)

-- `n` elements from index `i` on.
module _ {ℓ} {A : Type ℓ} where
  abbrev pub slice : ℕ → ℕ → List A → List A
  slice i n xs = take n (drop i xs)

  pub length-slice : (i n : ℕ) (xs : List A) → i + n ≤ length xs → length (slice i n xs) ≡ n
  length-slice i n xs h = omega (arith, length-take n (drop i xs), length-drop i xs)

  pub slice-append_left :
      (i n : ℕ) (xs ys : List A) → i + n ≤ length xs → slice i n (xs ++ ys) ≡ slice i n xs
  slice-append_left i n xs ys h =
      ap (take n) (drop-append_left i xs ys (omega arith))
      ∙ take-append_left n (drop i xs) ys (omega (arith, length-drop i xs))

  pub drop-take : (k n : ℕ) (xs : List A) → drop k (take n xs) ≡ take (n - k) (drop k xs)
  drop-take zero n xs = ap (λ m. take m xs) (omega arith)
  drop-take (suc k) zero xs = ap (λ m. take m (drop (suc k) xs)) (none_left k)
    where
      none_left : (k : ℕ) → 0 ≡ 0 - suc k
      none_left k = omega arith
  drop-take (suc k) (suc n) [] = sym (take-nil (suc n - suc k))
  drop-take (suc k) (suc n) (x ∷ xs) = drop-take k n xs ∙ ap (λ m. take m (drop k xs)) (omega arith)

  pub drop-drop : (k i : ℕ) (xs : List A) → drop k (drop i xs) ≡ drop (i + k) xs
  drop-drop k zero xs = ap (λ m. drop m xs) (omega arith)
  drop-drop k (suc i) [] = drop-nil k ∙ sym (drop-nil (suc i + k))
  drop-drop k (suc i) (x ∷ xs) = drop-drop k i xs ∙ ap (λ m. drop m (x ∷ xs)) (sucs i)
    where
      sucs : (i : ℕ) → suc (i + k) ≡ suc i + k
      sucs i = omega arith

  pub take-append-slice : (m n : ℕ) (xs : List A) → take m xs ++ slice m n xs ≡ take (m + n) xs
  take-append-slice zero n xs = ap (λ k. take k xs) (omega arith)
  take-append-slice (suc m) n [] = take-nil n ∙ sym (take-nil (suc m + n))
  take-append-slice (suc m) n (x ∷ xs) =
      ap (◌∷◌ x) (take-append-slice m n xs) ∙ ap (λ k. take k (x ∷ xs)) (sucs m)
    where
      sucs : (m : ℕ) → suc (m + n) ≡ suc m + n
      sucs m = omega arith

  pub slice-append :
      (i m n : ℕ) (xs : List A) → slice i m xs ++ slice (i + m) n xs ≡ slice i (m + n) xs
  slice-append i m n xs =
      ap (λ t. slice i m xs ++ take n t) (sym (drop-drop m i xs))
      ∙ take-append-slice m n (drop i xs)

  pub drop-slice : (k i n : ℕ) (xs : List A) → drop k (slice i n xs) ≡ slice (i + k) (n - k) xs
  drop-slice k i n xs = drop-take k n (drop i xs) ∙ ap (take (n - k)) (drop-drop k i xs)

  pub slice-zero : (i : ℕ) (xs : List A) → slice i 0 xs ≡ []
  slice-zero i xs = refl
