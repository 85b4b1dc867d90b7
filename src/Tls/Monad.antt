-- ===== src/Tls/Monad.antt =====
-- The early-return structure of the parser in src/tls_parser.cpp, as a monad.
use Prim.Native.Nat.{zero, suc}
use flow_dpi.Prelude.{
  ℕ, ◌+◌, ◌*◌, ◌%◌, ◌^◌, ◌≤◌, ◌<◌, ◌≡◌, refl, Bool, true, false, none, some, List, [], ◌∷◌, ◌++◌,
  arith, leb, length, get_elem?, slice, length-append, get_elem?-lt, ap, le→leb, not_le→leb,
  slice-append_left, dec_le, Option,
}

-- `enum class TlsParseStatus`
pub data TlsParseStatus : Type 0 where
  incomplete found no_sni not_tls malformed : TlsParseStatus

-- `ok` goes on, `stop` is an early return that leaves `sni_out` alone. `fault` is what the code
-- must never do: a read outside the buffer, or a loop that outruns its fuel.
pub data Parse {ℓ} (A : Type ℓ) : Type ℓ where
  ok : A → Parse A
  stop : TlsParseStatus → Parse A
  fault : Parse A

infixl 5 ◌>>=◌ ◌>>◌
unfoldable pub ◌>>=◌ {ℓ κ} : {A : Type ℓ} {B : Type κ} → Parse A → (A → Parse B) → Parse B
ok a >>= f = f a
stop s >>= f = stop s
fault >>= f = fault

unfoldable pub ◌>>◌ {ℓ} : {B : Type ℓ} → Parse (Unit {0}) → Parse B → Parse B
unfolding ◌>>=◌
m >> k = m >>= λ _. k

-- `if (!test) return status;`
unfoldable pub require : Bool → TlsParseStatus → Parse (Unit {0})
require true s = ok tt
require false s = stop s

or_fault : Option ℕ → Parse ℕ
or_fault none = fault
or_fault (some b) = ok b

-- `if (b) … else …`
unfoldable pub choose {ℓ} : {A : Type ℓ} → Bool → Parse A → Parse A → Parse A
choose true m n = m
choose false m n = n

-- `data[i]`
unfoldable pub read_u8 : List ℕ → ℕ → Parse ℕ
unfolding or_fault
read_u8 bytes i = or_fault (get_elem? bytes i)

-- `readU16BE(data + i)`; the bits of the two bytes do not meet, so `|` is a sum.
unfoldable pub read_u16 : List ℕ → ℕ → Parse ℕ
unfolding read_u8 ◌>>=◌
read_u16 bytes i = do
  hi ← read_u8 bytes i
  lo ← read_u8 bytes (i + 1)
  ok ((hi * 2 ^ 8 + lo) % 2 ^ 16)

-- The bytes of `sni_out.assign(data + i, n)`.
unfoldable pub read_slice : List ℕ → ℕ → ℕ → Parse (List ℕ)
unfolding choose
read_slice bytes i n = choose (leb (i + n) (length bytes)) (ok (slice i n bytes)) fault

-- The run is free of faults, an early return has a status as `E` says, and a value that the run
-- goes on with is as `P` says.
pub data Returns {ℓ} {A : Type ℓ} (E : TlsParseStatus → Type 0) (P : A → Type 0)
    : Parse A → Type ℓ where
  value : {a : A} → P a → Returns E P (ok a)
  early : {s : TlsParseStatus} → E s → Returns E P (stop s)

-- The second run does what the first does, unless the first faults or asks for more bytes.
pub data Follows {ℓ} {A : Type ℓ} : Parse A → Parse A → Type ℓ where
  faulted : {n : Parse A} → Follows fault n
  waits : {n : Parse A} → Follows (stop incomplete) n
  same : {m n : Parse A} → n ≡ m → Follows m n

module _ {ℓ κ} {A : Type ℓ} {B : Type κ} where
  pub Returns-bind :
      {E : TlsParseStatus → Type 0} {P : A → Type 0} {Q : B → Type 0} {m : Parse A}
      {f : A → Parse B}
      → Returns E P m
      → ((a : A) → P a → Returns E Q (f a))
      → Returns E Q (m >>= f)
  unfolding ◌>>=◌
  Returns-bind (value p) k = k _ p
  Returns-bind (early e) k = early e

  -- The rule where the second part promises more of its early returns.
  pub Returns-bind_to :
      {E F : TlsParseStatus → Type 0} {P : A → Type 0} {Q : B → Type 0} {m : Parse A}
      {f : A → Parse B}
      → ((s : TlsParseStatus) → F s → E s)
      → Returns E P m
      → ((a : A) → P a → Returns F Q (f a))
      → Returns E Q (m >>= f)
  unfolding ◌>>=◌
  Returns-bind_to {E} {F} {Q} h (value p) k = weaken (k _ p)
    where
      weaken : {n : Parse B} → Returns F Q n → Returns E Q n
      weaken (value q) = value q
      weaken (early e) = early (h _ e)
  Returns-bind_to h (early e) k = early e

  pub Follows-bind :
      {m n : Parse A} {f g : A → Parse B}
      → Follows m n
      → ((a : A) → Follows (f a) (g a))
      → Follows (m >>= f) (n >>= g)
  unfolding ◌>>=◌
  Follows-bind faulted k = faulted
  Follows-bind waits k = waits
  Follows-bind {f} {g} (same {m} e) k = rw e (branch m)
    where
      branch : (m : Parse A) → Follows (m >>= f) (m >>= g)
      branch (ok a) = k a
      branch (stop s) = same refl
      branch fault = faulted

module _ {ℓ} {A : Type ℓ} where
  pub Follows-refl : {m : Parse A} → Follows m m
  Follows-refl = same refl

  pub Follows-choose :
      (b : Bool) {m m' n n' : Parse A}
      → Follows m m'
      → Follows n n'
      → Follows (choose b m n) (choose b m' n')
  unfolding choose
  Follows-choose true h k = h
  Follows-choose false h k = k

Returns-read_u8 :
    {E : TlsParseStatus → Type 0} (bytes : List ℕ) (i : ℕ)
    → i < length bytes
    → Returns E (λ _. Unit {0}) (read_u8 bytes i)
unfolding read_u8
Returns-read_u8 bytes i h = let (b, e) = get_elem?-lt bytes i h in rw e (value tt)

Returns-read_u16 :
    {E : TlsParseStatus → Type 0} (bytes : List ℕ) (i : ℕ)
    → i + 1 < length bytes
    → Returns E (λ n. n < 2 ^ 16) (read_u16 bytes i)
unfolding read_u16
Returns-read_u16 bytes i h =
    let (hi, e) = get_elem?-lt bytes i (omega arith) in
    let (lo, f) = get_elem?-lt bytes (i + 1) h in rw (e, f) (value (omega arith))

pub Follows-read_u8 :
    (bytes more : List ℕ) (i : ℕ) → Follows (read_u8 bytes i) (read_u8 (bytes ++ more) i)
unfolding read_u8
Follows-read_u8 [] more i = faulted
Follows-read_u8 (x ∷ xs) more zero = same refl
Follows-read_u8 (x ∷ xs) more (suc i) = Follows-read_u8 xs more i

pub Follows-read_u16 :
    (bytes more : List ℕ) (i : ℕ) → Follows (read_u16 bytes i) (read_u16 (bytes ++ more) i)
unfolding read_u16
Follows-read_u16 bytes more i =
    Follows-bind (Follows-read_u8 bytes more i)
      λ hi. Follows-bind (Follows-read_u8 bytes more (i + 1)) (λ lo. same refl)

pub Follows-read_slice :
    (bytes more : List ℕ) (i n : ℕ)
    → Follows (read_slice bytes i n) (read_slice (bytes ++ more) i n)
unfolding read_slice
Follows-read_slice bytes more i n = elim (dec_le (i + n) (length bytes)) [
  | yes h ↦
      rw
        (
          le→leb _ _ h,
          le→leb (i + n) (length (bytes ++ more)) (omega (arith, length-append bytes more)),
        )
        (same (ap ok (slice-append_left i n bytes more h)))
  | no h ↦ rw (not_le→leb _ _ h) faulted
]

-- The rules for one statement of a `do` block, for a postcondition `Q`.
module _ {ℓ} {A : Type ℓ} {E : TlsParseStatus → Type 0} {Q : A → Type 0} where
  pub require_rule :
      (b : Bool) (s : TlsParseStatus) (k : Parse A)
      → E s
      → (b ≡ true → Returns E Q k)
      → Returns E Q (require b s >> k)
  unfolding ◌>>◌ require
  require_rule true s k e h = h refl
  require_rule false s k e h = early e

  pub read_u8_rule :
      (bytes : List ℕ) (i : ℕ) (f : ℕ → Parse A)
      → i < length bytes
      → ((b : ℕ) → Returns E Q (f b))
      → Returns E Q (read_u8 bytes i >>= f)
  read_u8_rule bytes i f h k = Returns-bind (Returns-read_u8 bytes i h) (λ b _. k b)

  pub read_u16_rule :
      (bytes : List ℕ) (i : ℕ) (f : ℕ → Parse A)
      → i + 1 < length bytes
      → ((n : ℕ) → n < 2 ^ 16 → Returns E Q (f n))
      → Returns E Q (read_u16 bytes i >>= f)
  read_u16_rule bytes i f h k = Returns-bind (Returns-read_u16 bytes i h) k

  pub read_slice_rule :
      (bytes : List ℕ) (i n : ℕ) (f : List ℕ → Parse A)
      → i + n ≤ length bytes
      → Returns E Q (f (slice i n bytes))
      → Returns E Q (read_slice bytes i n >>= f)
  unfolding read_slice ◌>>=◌
  read_slice_rule bytes i n f h k = rw (le→leb _ _ h) k

  pub choose_rule :
      (b : Bool) (m n : Parse A)
      → (b ≡ true → Returns E Q m)
      → (b ≡ false → Returns E Q n)
      → Returns E Q (choose b m n)
  unfolding choose
  choose_rule true m n h k = h refl
  choose_rule false m n h k = k refl

-- The same rules for runs on a buffer and on a longer one.
module _ {ℓ} {A : Type ℓ} where
  pub Follows-require :
      (b : Bool) (s : TlsParseStatus) {k l : Parse A}
      → Follows k l
      → Follows (require b s >> k) (require b s >> l)
  unfolding ◌>>◌ require
  Follows-require true s h = h
  Follows-require false s h = same refl

  -- A test on how many bytes have arrived.
  pub Follows-require_arrived :
      (bytes more : List ℕ) (n : ℕ) {k l : Parse A}
      → Follows k l
      → Follows
          (require (leb n (length bytes)) incomplete >> k)
          (require (leb n (length (bytes ++ more))) incomplete >> l)
  unfolding ◌>>◌ require
  Follows-require_arrived bytes more n h = elim (dec_le n (length bytes)) [
    | yes q ↦
        rw
          (
            le→leb _ _ q,
            le→leb n (length (bytes ++ more)) (omega (arith, length-append bytes more)),
          )
          h
    | no q ↦ rw (not_le→leb _ _ q) waits
  ]
