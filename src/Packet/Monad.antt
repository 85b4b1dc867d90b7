-- ===== src/Packet/Monad.antt =====
-- Reads of a packet buffer. `none` is what the code must never do: a read outside the buffer.
unfoldable pub use flow_dpi.Prelude.Fallible.{◌>>=◌}
use flow_dpi.Prelude.{
  ℕ, ◌+◌, ◌*◌, ◌%◌, ◌^◌, ◌≤◌, ◌<◌, ◌≡◌, refl, Bool, true, false, Option, none, some, List, arith,
  leb, length, get_elem?, slice, get_elem?-lt, le→leb,
}

-- `if (b) … else …`
unfoldable pub choose {ℓ} : {A : Type ℓ} → Bool → A → A → A
choose true a b = a
choose false a b = b

-- `data[i]`
unfoldable pub read_u8 : List ℕ → ℕ → Option ℕ
read_u8 bytes i = get_elem? bytes i

-- `readU16BE` and `readU32BE`; the bits of the bytes do not meet, so `|` is a sum.
unfoldable pub read_u16 : List ℕ → ℕ → Option ℕ
unfolding ◌>>=◌ read_u8
read_u16 bytes i = do
  hi ← read_u8 bytes i
  lo ← read_u8 bytes (i + 1)
  some ((hi * 2 ^ 8 + lo) % 2 ^ 16)

unfoldable pub read_u32 : List ℕ → ℕ → Option ℕ
unfolding ◌>>=◌ read_u8
read_u32 bytes i = do
  a ← read_u8 bytes i
  b ← read_u8 bytes (i + 1)
  c ← read_u8 bytes (i + 2)
  d ← read_u8 bytes (i + 3)
  some ((a * 2 ^ 24 + b * 2 ^ 16 + c * 2 ^ 8 + d) % 2 ^ 32)

-- The bytes that `memcpy(_, data + i, n)` copies.
unfoldable pub read_bytes : List ℕ → ℕ → ℕ → Option (List ℕ)
unfolding choose
read_bytes bytes i n = choose (leb (i + n) (length bytes)) (some (slice i n bytes)) none

-- The run stays inside the buffer, and its value is as `P` says.
pub data Yields {ℓ} {A : Type ℓ} (P : A → Type 0) : Option A → Type ℓ where
  yields : {a : A} → P a → Yields P (some a)

pub Yields-some {ℓ} :
    {A : Type ℓ} {P : A → Type 0} {m : Option A} → Yields P m → (a : A) × (m ≡ some a) × P a
Yields-some (yields {a} p) = (a, refl, p)

module _ {ℓ} {B : Type ℓ} {Q : B → Type 0} where
  pub Yields-bind {κ} :
      {A : Type κ} {P : A → Type 0} {m : Option A} {f : A → Option B}
      → Yields P m
      → ((a : A) → P a → Yields Q (f a))
      → Yields Q (m >>= f)
  unfolding ◌>>=◌
  Yields-bind (yields p) k = k _ p

  pub choose_rule :
      (b : Bool) (m n : Option B)
      → (b ≡ true → Yields Q m)
      → (b ≡ false → Yields Q n)
      → Yields Q (choose b m n)
  unfolding choose
  choose_rule true m n h k = h refl
  choose_rule false m n h k = k refl

  pub read_u8_rule :
      (bytes : List ℕ) (i : ℕ) (f : ℕ → Option B)
      → i < length bytes
      → ((b : ℕ) → get_elem? bytes i ≡ some b → Yields Q (f b))
      → Yields Q (read_u8 bytes i >>= f)
  unfolding read_u8 ◌>>=◌
  read_u8_rule bytes i f h k = let (b, e) = get_elem?-lt bytes i h in rw e (k b e)

  pub read_bytes_rule :
      (bytes : List ℕ) (i n : ℕ) (f : List ℕ → Option B)
      → i + n ≤ length bytes
      → Yields Q (f (slice i n bytes))
      → Yields Q (read_bytes bytes i n >>= f)
  unfolding read_bytes ◌>>=◌
  read_bytes_rule bytes i n f h k = rw (le→leb _ _ h) k

Yields-read_u16 :
    (bytes : List ℕ) (i : ℕ) → i + 1 < length bytes → Yields (λ n. n < 2 ^ 16) (read_u16 bytes i)
unfolding read_u16
Yields-read_u16 bytes i h =
    read_u8_rule bytes i _ (omega arith)
      λ hi _. read_u8_rule bytes (i + 1) _ h λ lo _. yields (omega arith)

Yields-read_u32 :
    (bytes : List ℕ) (i : ℕ) → i + 3 < length bytes → Yields (λ n. n < 2 ^ 32) (read_u32 bytes i)
unfolding read_u32
Yields-read_u32 bytes i h = read_u8_rule bytes i _ (omega arith) λ a _.
    read_u8_rule bytes (i + 1) _ (omega arith) λ b _.
      read_u8_rule bytes (i + 2) _ (omega arith)
        λ c _. read_u8_rule bytes (i + 3) _ h λ d _. yields (omega arith)

module _ {ℓ} {B : Type ℓ} {Q : B → Type 0} where
  pub read_u16_rule :
      (bytes : List ℕ) (i : ℕ) (f : ℕ → Option B)
      → i + 1 < length bytes
      → ((n : ℕ) → n < 2 ^ 16 → Yields Q (f n))
      → Yields Q (read_u16 bytes i >>= f)
  read_u16_rule bytes i f h k = Yields-bind (Yields-read_u16 bytes i h) k

  pub read_u32_rule :
      (bytes : List ℕ) (i : ℕ) (f : ℕ → Option B)
      → i + 3 < length bytes
      → ((n : ℕ) → n < 2 ^ 32 → Yields Q (f n))
      → Yields Q (read_u32 bytes i >>= f)
  read_u32_rule bytes i f h k = Yields-bind (Yields-read_u32 bytes i h) k
