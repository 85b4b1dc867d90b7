-- ===== src/Tls/Statements.antt =====
-- How the statements of the parser's `do` blocks run when they do not return.
use flow_dpi.Prelude.{ℕ, ◌+◌, ◌*◌, ◌%◌, ◌^◌, ◌≡◌, List, get_elem?, Bool, true, false, some}
use flow_dpi.Tls.Monad.{TlsParseStatus, Parse, ok, ◌>>=◌, ◌>>◌, require, choose, read_u8, read_u16}

-- One statement of a `do` block, when it does not return.
module _ {ℓ} {A : Type ℓ} {r : Parse A} where
  pub run-require :
      (s : TlsParseStatus) {b : Bool} {k : Parse A} → b ≡ true → k ≡ r → (require b s >> k) ≡ r
  unfolding require ◌>>◌ ◌>>=◌
  run-require s h e = rw h e

  pub choose_then : (n : Parse A) {b : Bool} {m : Parse A} → b ≡ true → m ≡ r → choose b m n ≡ r
  unfolding choose
  choose_then n h e = rw h e

  pub choose_else : (m : Parse A) {b : Bool} {n : Parse A} → b ≡ false → n ≡ r → choose b m n ≡ r
  unfolding choose
  choose_else m h e = rw h e

  pub run-bind {κ} :
      {B : Type κ} {m : Parse B} (b : B) (f : B → Parse A) → m ≡ ok b → f b ≡ r → (m >>= f) ≡ r
  unfolding ◌>>=◌
  run-bind b f h e = rw h e

  pub run-read_u8 :
      (bytes : List ℕ) (i b : ℕ) (f : ℕ → Parse A)
      → get_elem? bytes i ≡ some b
      → f b ≡ r
      → (read_u8 bytes i >>= f) ≡ r
  unfolding read_u8 ◌>>=◌
  run-read_u8 bytes i b f h e = rw h e

  pub run-read_u16 :
      (bytes : List ℕ) (i hi lo v : ℕ) (f : ℕ → Parse A)
      → get_elem? bytes i ≡ some hi
      → get_elem? bytes (i + 1) ≡ some lo
      → (hi * 2 ^ 8 + lo) % 2 ^ 16 ≡ v
      → f v ≡ r
      → (read_u16 bytes i >>= f) ≡ r
  unfolding read_u16 read_u8 ◌>>=◌
  run-read_u16 bytes i hi lo v f g h w e = rw (g, h, w) e
