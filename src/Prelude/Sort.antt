-- ===== src/Prelude/Sort.antt =====
-- `std::sort` of numbers, as an insertion sort, and what an index into its result gives.
use Prim.Native.Nat.{ℕ, zero, suc, ◌≤◌, ◌<◌}
use mathlib.Core.Path.{◌≡◌, refl, sym, ap, ◌∙◌, subst}
use mathlib.Core.Bool.{false}
use mathlib.Core.Logic.{inl, inr}
use mathlib.Core.Option.{some}
use mathlib.Core.List.{List, [], ◌∷◌, ◌++◌, Perm}
use mathlib.Core.List.Perm
use native.Mathlib.Omega.{arith}
use flow_dpi.Prelude.Tests.{leb, leb→le, if◌then◌else◌, Bool-cases, some_injective, none-ne_some}
use flow_dpi.Prelude.Lists.{All, length, get_elem?}

unfoldable place : ℕ → List ℕ → List ℕ
place x [] = x ∷ []
place x (y ∷ ys) = let rest = place x ys in if leb x y then x ∷ y ∷ ys else y ∷ rest

unfoldable pub sort : List ℕ → List ℕ
unfolding place
sort [] = []
sort (x ∷ xs) = place x (sort xs)

-- Each element is at most those behind it.
abbrev pub IsAscending : List ℕ → Type 0
IsAscending [] = Unit
IsAscending (x ∷ xs) = All (λ y. x ≤ y) xs × IsAscending xs

All-le : {a b : ℕ} (xs : List ℕ) → a ≤ b → All (λ y. b ≤ y) xs → All (λ y. a ≤ y) xs
All-le [] h all = tt
All-le (x ∷ xs) h (first, all) = (omega (arith, h, first), All-le xs h all)

place-Perm : (x : ℕ) (xs : List ℕ) → Perm (place x xs) (x ∷ xs)
unfolding place
place-Perm x [] = Perm.rfl
place-Perm x (y ∷ ys) = elim (Bool-cases (leb x y)) [
  | inl less ↦ rw less Perm.rfl
  | inr more ↦ rw more (Perm.trans (Perm.cons y (place-Perm x ys)) (Perm.swap x y ys))
]

pub sort-Perm : (xs : List ℕ) → Perm (sort xs) xs
unfolding sort
sort-Perm [] = Perm.rfl
sort-Perm (x ∷ xs) = Perm.trans (place-Perm x (sort xs)) (Perm.cons x (sort-Perm xs))

place-All : (P : ℕ → Type 0) (x : ℕ) (xs : List ℕ) → P x → All P xs → All P (place x xs)
unfolding place
place-All P x [] h all = (h, tt)
place-All P x (y ∷ ys) h (first, all) = elim (Bool-cases (leb x y)) [
  | inl less ↦ rw less (h, (first, all))
  | inr more ↦ rw more (first, place-All P x ys h all)
]

place-IsAscending : (x : ℕ) (xs : List ℕ) → IsAscending xs → IsAscending (place x xs)
unfolding place
place-IsAscending x [] s = (tt, tt)
place-IsAscending x (y ∷ ys) (first, s) = elim (Bool-cases (leb x y)) [
  | inl less ↦ rw less ((leb→le x y less, All-le ys (leb→le x y less) first), (first, s))
  | inr more ↦ rw more (place-All (λ z. y ≤ z) x ys (above more) first, place-IsAscending x ys s)
]
  where
    above : leb x y ≡ false → y ≤ x
    above more = ground arith

pub sort-IsAscending : (xs : List ℕ) → IsAscending (sort xs)
unfolding sort
sort-IsAscending [] = tt
sort-IsAscending (x ∷ xs) = place-IsAscending x (sort xs) (sort-IsAscending xs)

All-get : (P : ℕ → Type 0) (xs : List ℕ) (k a : ℕ) → All P xs → get_elem? xs k ≡ some a → P a
All-get P [] k a all e = absurd (none-ne_some e)
All-get P (x ∷ xs) zero a (h, all) e = subst P (some_injective e) h
All-get P (x ∷ xs) (suc k) a (h, all) e = All-get P xs k a all e

-- A later index gives no smaller element.
pub IsAscending-get :
    (xs : List ℕ) (i j a b : ℕ)
    → IsAscending xs
    → i ≤ j
    → get_elem? xs i ≡ some a
    → get_elem? xs j ≡ some b
    → a ≤ b
IsAscending-get [] i j a b s h e f = absurd (none-ne_some e)
IsAscending-get (x ∷ xs) zero zero a b s h e f = omega (arith, some_injective (sym e ∙ f))
IsAscending-get (x ∷ xs) zero (suc j) a b (first, s) h e f =
    omega (arith, some_injective e, All-get (λ y. x ≤ y) xs j b first f)
IsAscending-get (x ∷ xs) (suc i) zero a b s h e f = absurd (omega arith)
IsAscending-get (x ∷ xs) (suc i) (suc j) a b (first, s) h e f =
    IsAscending-get xs i j a b s (omega arith) e f

-- `v` has rank `k` among the elements: `k` of them are at most `v`, and the others at least.
pub IsRank : List ℕ → ℕ → ℕ → Type 0
IsRank xs k v =
    (below : List ℕ) × (above : List ℕ) × Perm xs (below ++ (v ∷ above))
    × (length below ≡ k)
    × All (λ x. x ≤ v) below
    × All (λ x. v ≤ x) above

IsAscending-split :
    (xs : List ℕ) (k : ℕ)
    → IsAscending xs
    → k < length xs
    → (v : ℕ) × (below : List ℕ) × (above : List ℕ) × (get_elem? xs k ≡ some v)
      × (xs ≡ below ++ (v ∷ above))
      × (length below ≡ k)
      × All (λ x. x ≤ v) below
      × All (λ x. v ≤ x) above
IsAscending-split [] k s h = absurd (omega arith)
IsAscending-split (x ∷ xs) zero (first, s) h = (x, [], xs, refl, refl, refl, tt, first)
IsAscending-split (x ∷ xs) (suc k) (first, s) h =
    let (v, below, above, g, e, l, low, high) = IsAscending-split xs k s (omega arith) in
    (
      v,
      x ∷ below,
      above,
      g,
      ap (◌∷◌ x) e,
      ap suc l,
      (All-get (λ y. x ≤ y) xs k v first g, low),
      high,
    )

-- The element at an index of the sorted list has that rank.
pub sort-IsRank :
    (xs : List ℕ) (k : ℕ)
    → k < length (sort xs)
    → (v : ℕ) × (get_elem? (sort xs) k ≡ some v) × IsRank xs k v
unfolding IsRank
sort-IsRank xs k h =
    let (v, below, above, g, e, l, low, high) =
      IsAscending-split (sort xs) k (sort-IsAscending xs) h in
    (
      v,
      g,
      (
        below,
        above,
        Perm.trans (Perm.symm (sort-Perm xs)) (subst (Perm (sort xs)) e Perm.rfl),
        l,
        low,
        high,
      ),
    )

length-place : (x : ℕ) (xs : List ℕ) → length (place x xs) ≡ suc (length xs)
unfolding place
length-place x [] = refl
length-place x (y ∷ ys) = elim (Bool-cases (leb x y)) [
  | inl less ↦ rw less refl
  | inr more ↦ rw more (ap suc (length-place x ys))
]

pub length-sort : (xs : List ℕ) → length (sort xs) ≡ length xs
unfolding sort
length-sort [] = refl
length-sort (x ∷ xs) = length-place x (sort xs) ∙ ap suc (length-sort xs)
