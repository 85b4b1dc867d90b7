-- ===== src/Tls/Arrival.antt =====
-- When the parser asks for more bytes.
use flow_dpi.Tls.{record_length, finish, try_extract_sni, ◌>>=◌}
use flow_dpi.Tls.Monad.{
  ◌>>=◌, ◌>>◌, require, read_u8, read_u16, not_tls, TlsParseStatus, incomplete, Parse, ok, stop,
  Returns, value, early,
}
use flow_dpi.Tls.Safety.{FoundBelow, IsDecided, handshake-Returns}
use flow_dpi.Prelude.{
  ℕ, ◌+◌, ◌*◌, ◌^◌, ◌<◌, ◌≡◌, ◌≢◌, refl, List, ◌∷◌, Option, some, arith, length, [], not_le→leb,
  ◌↔◌, ℕ_discrete, dec_lt, ◌≤◌,
}

finish-decided :
    {limit : ℕ} (bytes : List ℕ) {m : Parse (TlsParseStatus × List ℕ)} {sni : List ℕ}
    → Returns IsDecided (FoundBelow bytes limit) m
    → finish m ≢ some (incomplete, sni)
finish-decided bytes (value p) e = p.0 (ground arith)
finish-decided bytes (early p) e = p.0 (ground arith)

-- With fewer than five bytes the parser waits.
pub short-incomplete :
    (bytes : List ℕ) → length bytes < 5 → try_extract_sni bytes ≡ some (incomplete, [])
unfolding try_extract_sni
short-incomplete bytes h = rw (not_le→leb 5 (length bytes) (omega arith))

not_tls≢incomplete :
    ◌≢◌ {A = Option (TlsParseStatus × List ℕ)} (some (not_tls, [])) (some (incomplete, []))
not_tls≢incomplete e = ground arith

module _ (major minor high low : ℕ) (body : List ℕ) (h : high < 2 ^ 8) (l : low < 2 ^ 8) where
  foreign_record :
      (type : ℕ)
      → type ≢ 0x16
      → record_length (type ∷ major ∷ minor ∷ high ∷ low ∷ body) ≡ stop not_tls
  unfolding record_length read_u8 read_u16 ◌>>=◌ ◌>>◌ require
  foreign_record type n = ground arith

  partial_record :
      length body < high * 2 ^ 8 + low
      → record_length (0x16 ∷ major ∷ minor ∷ high ∷ low ∷ body) ≡ stop incomplete
  unfolding record_length read_u8 read_u16 ◌>>=◌ ◌>>◌ require
  partial_record p = ground arith

  whole_record :
      high * 2 ^ 8 + low ≤ length body
      → record_length (0x16 ∷ major ∷ minor ∷ high ∷ low ∷ body) ≡ ok (high * 2 ^ 8 + low)
  unfolding record_length read_u8 read_u16 ◌>>=◌ ◌>>◌ require
  whole_record p = ground arith

-- With a record header in hand the parser asks for more bytes exactly when the first byte is that
-- of a handshake record and the record's body has not arrived whole.
pub header-incomplete_iff :
    (type major minor high low : ℕ) (body : List ℕ)
    → high < 2 ^ 8
    → low < 2 ^ 8
    → (try_extract_sni (type ∷ major ∷ minor ∷ high ∷ low ∷ body) ≡ some (incomplete, []))
      ↔ ((type ≡ 0x16) × (length body < high * 2 ^ 8 + low))
unfolding try_extract_sni
header-incomplete_iff type major minor high low body h l = elim (ℕ_discrete type 0x16) [
  | yes e ↦ rw e (elim (dec_lt (length body) (high * 2 ^ 8 + low)) [
    | yes p ↦ ((λ _. (refl, p)), λ _. rw (partial_record major minor high low body h l p) refl)
    | no p ↦ (
      (λ w. absurd (
          finish-decided (0x16 ∷ major ∷ minor ∷ high ∷ low ∷ body)
            (handshake-Returns _ (high * 2 ^ 8 + low) (5 + length body) (omega arith) (omega arith))
            (rw (whole_record major minor high low body h l (omega arith)) at w))),
      λ w. absurd (p w.1),
    )
  ])
  | no n ↦ (
    (λ w.
        absurd
          (not_tls≢incomplete (rw (foreign_record major minor high low body h l type n) at w))),
    λ p. absurd (n p.0),
  )
]
