-- ===== src/Prelude/Text.antt =====
-- Byte strings: equality, and the decimal digits that `std::to_string` and `<<` write.
use Prim.Native.Nat.{ℕ, zero, suc, ◌+◌, ◌/◌, ◌%◌}
use mathlib.Core.Path.{◌≡◌, refl}
use mathlib.Core.Bool.{Bool, true, false, ◌&&◌}
use mathlib.Core.List.{List, [], ◌∷◌}
use native.Mathlib.Omega.{arith}
use flow_dpi.Prelude.Tests.{◌==◌, ltb, if◌then◌else◌}

-- `==` of two strings.
unfoldable pub list_eq : List ℕ → List ℕ → Bool
list_eq [] [] = true
list_eq [] (y ∷ ys) = false
list_eq (x ∷ xs) [] = false
list_eq (x ∷ xs) (y ∷ ys) = x == y && list_eq xs ys

pub list_eq→eq : (xs ys : List ℕ) → list_eq xs ys ≡ true → xs ≡ ys
unfolding list_eq
list_eq→eq [] [] h = refl
list_eq→eq [] (y ∷ ys) h = cc
list_eq→eq (x ∷ xs) [] h = cc
list_eq→eq (x ∷ xs) (y ∷ ys) h = ground (arith, list_eq→eq xs ys)

pub list_eq_refl : (xs : List ℕ) → list_eq xs xs ≡ true
unfolding list_eq
list_eq_refl [] = refl
list_eq_refl (x ∷ xs) = ground (arith, list_eq_refl xs)

-- The digits of `n` below those in `tail`; a number has at most as many digits as its value.
unfoldable pub digits_onto : ℕ → ℕ → List ℕ → List ℕ
digits_onto zero n tail = tail
digits_onto (suc fuel) n tail =
    let tail' = (b'0' + n % 10) ∷ tail in
    let rest = digits_onto fuel (n / 10) tail' in if ltb n 10 then tail' else rest

unfoldable pub to_string : ℕ → List ℕ
unfolding digits_onto
to_string n = digits_onto (suc n) n []
