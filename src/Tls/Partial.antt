-- ===== src/Tls/Partial.antt =====
-- The parser on the first bytes of a ClientHello.
use flow_dpi.Prelude.{
  ℕ, ◌+◌, ◌/◌, ◌%◌, ◌^◌, ◌<◌, ◌≡◌, refl, ap, List, [], ◌∷◌, ◌++◌, length, length-append, get_elem?,
  some, some_injective, arith, ◌∙◌,
}
use flow_dpi.Bench.{u16_be, hello_handshake, build_client_hello_record}
use flow_dpi.Tls.{try_extract_sni}
use flow_dpi.Tls.Monad.{incomplete}
use flow_dpi.Tls.Arrival.{short-incomplete, header-incomplete_iff}
use flow_dpi.Tls.RoundTrip.{length-hello_handshake, length-build_client_hello_record}

-- The bytes at the start of the record that is built for a host name.
module _ (host : List ℕ) where
  build_client_hello_record-header :
      (get_elem? (build_client_hello_record host) 0 ≡ some 0x16)
      × (get_elem? (build_client_hello_record host) 3
          ≡ some (length (hello_handshake host) % 2 ^ 16 / 2 ^ 8 % 2 ^ 8))
      × (get_elem? (build_client_hello_record host) 4
          ≡ some (length (hello_handshake host) % 2 ^ 16 % 2 ^ 8))
  unfolding build_client_hello_record u16_be
  build_client_hello_record-header = (refl, refl, refl)

-- On bytes that are cut off from the end of the record that is built for a host name, the parser asks
-- for more, as long as the length of the record fits the two bytes that hold it.
pub try_extract_sni-partial :
    (host bytes missing : List ℕ)
    → 58 + length host < 2 ^ 16
    → bytes ++ missing ≡ build_client_hello_record host
    → 0 < length missing
    → try_extract_sni bytes ≡ some (incomplete, [])
try_extract_sni-partial host (type ∷ major ∷ minor ∷ high ∷ low ∷ body) missing fits e
      some_missing =
    let (h0, h3, h4) = build_client_hello_record-header host in
    let n = length-hello_handshake host in
    let type_byte : type ≡ 0x16 = some_injective (ap (λ bs. get_elem? bs 0) e ∙ h0) in
    let high_byte : high ≡ length (hello_handshake host) % 2 ^ 16 / 2 ^ 8 % 2 ^ 8 =
      some_injective (ap (λ bs. get_elem? bs 3) e ∙ h3) in
    let low_byte : low ≡ length (hello_handshake host) % 2 ^ 16 % 2 ^ 8 =
      some_injective (ap (λ bs. get_elem? bs 4) e ∙ h4) in
    let total = ap length e in
    (header-incomplete_iff type major minor high low body (omega (arith, high_byte))
        (omega (arith, low_byte))).1
      (
        type_byte,
        omega (
          arith,
          fits,
          n,
          high_byte,
          low_byte,
          total,
          some_missing,
          length-append body missing,
          length-build_client_hello_record host,
        ),
      )
try_extract_sni-partial host [] missing fits e some_missing = short-incomplete [] (omega arith)
try_extract_sni-partial host (a ∷ []) missing fits e some_missing =
    short-incomplete (a ∷ []) (omega arith)
try_extract_sni-partial host (a ∷ b ∷ []) missing fits e some_missing =
    short-incomplete (a ∷ b ∷ []) (omega arith)
try_extract_sni-partial host (a ∷ b ∷ c ∷ []) missing fits e some_missing =
    short-incomplete (a ∷ b ∷ c ∷ []) (omega arith)
try_extract_sni-partial host (a ∷ b ∷ c ∷ d ∷ []) missing fits e some_missing =
    short-incomplete (a ∷ b ∷ c ∷ d ∷ []) (omega arith)
