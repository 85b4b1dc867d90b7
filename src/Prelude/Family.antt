-- ===== src/Prelude/Family.antt =====
-- Families indexed by numbers, with one member replaced.
use Prim.Native.Nat.{ℕ}
use mathlib.Core.Path.{◌≡◌, refl, sym, subst}
use mathlib.Core.Bool.{false}
use mathlib.Core.Logic.{inl, inr}
use flow_dpi.Prelude.Tests.{◌==◌, ==_refl, ==_iff, if◌then◌else◌, Bool-cases}

module _ {ℓ} {A : Type ℓ} where
  abbrev pub update : (ℕ → A) → ℕ → A → ℕ → A
  update f s a i = if i == s then a else f i

  pub update_same : (f : ℕ → A) (s : ℕ) (a : A) → update f s a s ≡ a
  update_same f s a = rw (==_refl s) refl

  pub update_other : (f : ℕ → A) (s i : ℕ) (a : A) → (i == s) ≡ false → update f s a i ≡ f i
  update_other f s i a e = rw e refl

  -- What holds of the new member and of every member holds of every member afterwards.
  pub update_all {κ} :
      (P : A → Type κ) (f : ℕ → A) (s : ℕ) (a : A)
      → P a
      → ((i : ℕ) → P (f i))
      → (i : ℕ) → P (update f s a i)
  update_all P f s a h all i = elim (Bool-cases (i == s)) [
    | inl here ↦ rw here h
    | inr other ↦ rw other (all i)
  ]

  -- The same, of a predicate that knows the index, and with nothing asked of the replaced member.
  pub update_at {κ} :
      (P : ℕ → A → Type κ) (f : ℕ → A) (s : ℕ) (a : A)
      → P s a
      → ((i : ℕ) → (i == s) ≡ false → P i (f i))
      → (i : ℕ) → P i (update f s a i)
  update_at P f s a h all i = elim (Bool-cases (i == s)) [
    | inl here ↦
        subst (λ j. P j (update f s a j)) (sym ((==_iff i s).0 here)) (rw (update_same f s a) h)
    | inr other ↦ rw other (all i other)
  ]
