-- ===== src/Queue/Waiting/Counts.antt =====
-- Sums over the threads, and how a move and a notification of all change them.
use flow_dpi.Prelude.{suc, ap, length, refl, ℕ, ◌+◌, ◌≤◌, ◌≡◌, List, [], ◌∷◌, arith, map}
use flow_dpi.Queue.Waiting.{Caller, Moves, here, there, count}

module _ {ℓ} {A : Type ℓ} where
  pub count-Moves :
      (weight : Caller A → ℕ) {c d : Caller A} {cs ds : List (Caller A)}
      → Moves c d cs ds
      → count weight ds + weight c ≡ count weight cs + weight d
  unfolding count
  count-Moves weight (here) = omega arith
  count-Moves weight (there m) = omega (arith, count-Moves weight m)

  -- A weight that two others bound.
  pub count_le :
      (f g : Caller A → ℕ) (cs : List (Caller A))
      → ((c : Caller A) → f c ≤ g c)
      → count f cs ≤ count g cs
  unfolding count
  count_le f g [] below = omega arith
  count_le f g (c ∷ cs) below = omega (arith, below c, count_le f g cs below)

  pub count-map :
      (f g : Caller A → ℕ) (h : Caller A → Caller A) (cs : List (Caller A))
      → ((c : Caller A) → f (h c) ≡ g c)
      → count f (map h cs) ≡ count g cs
  unfolding count
  count-map f g h [] same = refl
  count-map f g h (c ∷ cs) same = omega (arith, same c, count-map f g h cs same)

  abbrev pub nothing : Caller A → ℕ
  nothing c = 0

  pub count-nothing : (cs : List (Caller A)) → count nothing cs ≡ 0
  unfolding count
  count-nothing [] = refl
  count-nothing (c ∷ cs) = omega (arith, count-nothing cs)

  pub count-add :
      (f g : Caller A → ℕ) (cs : List (Caller A))
      → count (λ c. f c + g c) cs ≡ count f cs + count g cs
  unfolding count
  count-add f g [] = omega arith
  count-add f g (c ∷ cs) = omega (arith, count-add f g cs)

  pub count_le_length :
      (f : Caller A → ℕ) (cs : List (Caller A))
      → ((c : Caller A) → f c ≤ 1)
      → count f cs ≤ length cs
  unfolding count
  count_le_length f [] below = omega arith
  count_le_length f (c ∷ cs) below = omega (arith, below c, count_le_length f cs below)

  pub length-Moves :
      {c d : Caller A} {cs ds : List (Caller A)} → Moves c d cs ds → length ds ≡ length cs
  length-Moves (here) = refl
  length-Moves (there m) = ap suc (length-Moves m)

  pub length-map : (h : Caller A → Caller A) (cs : List (Caller A)) → length (map h cs) ≡ length cs
  length-map h [] = refl
  length-map h (c ∷ cs) = ap suc (length-map h cs)
