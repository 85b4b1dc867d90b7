-- ===== src/Tls/Tests.antt =====
-- The parser on the benchmark's ClientHello, and each theorem of this folder at an input.
use flow_dpi.Prelude.{
  ℕ, ◌+◌, ◌*◌, ◌^◌, ◌<◌, ◌≡◌, ◌↔◌, refl, List, [], ◌∷◌, ◌++◌, length, some, arith, take,
}
use flow_dpi.Bench.{build_client_hello_record}
use flow_dpi.Tls.{try_extract_sni}
use flow_dpi.Tls.Monad.{TlsParseStatus, found, incomplete, not_tls, malformed}
use flow_dpi.Tls.Safety.{IsSliceOf, try_extract_sni_safe}
use flow_dpi.Tls.RoundTrip.{try_extract_sni-build_client_hello_record}
use flow_dpi.Tls.Stable.{try_extract_sni-append}
use flow_dpi.Tls.Arrival.{short-incomplete, header-incomplete_iff}

abbrev host : List ℕ
host = b'a' ∷ b'.' ∷ b'b' ∷ []

abbrev hello : List ℕ
hello = build_client_hello_record host

hello_found : try_extract_sni hello ≡ some (found, host)
unfolding try_extract_sni build_client_hello_record
hello_found = refl

hello_cut : try_extract_sni (take 40 hello) ≡ some (incomplete, [])
unfolding try_extract_sni build_client_hello_record
hello_cut = refl

http_request : try_extract_sni (b'G' ∷ b'E' ∷ b'T' ∷ b' ' ∷ b'/' ∷ []) ≡ some (not_tls, [])
unfolding try_extract_sni
http_request = refl

empty_record : try_extract_sni (0x16 ∷ 3 ∷ 1 ∷ 0 ∷ 0 ∷ []) ≡ some (malformed, [])
unfolding try_extract_sni
empty_record = refl

try_extract_sni_safe_example :
    (status : TlsParseStatus) × (sni : List ℕ) × (try_extract_sni hello ≡ some (status, sni))
    × (status ≡ found → IsSliceOf hello sni)
try_extract_sni_safe_example = try_extract_sni_safe hello

try_extract_sni-append_example : try_extract_sni (hello ++ (1 ∷ 2 ∷ [])) ≡ some (found, host)
try_extract_sni-append_example = try_extract_sni-append hello (1 ∷ 2 ∷ []) hello_found (λ e. cc)

short-incomplete_example : try_extract_sni (0x16 ∷ 3 ∷ []) ≡ some (incomplete, [])
short-incomplete_example = short-incomplete (0x16 ∷ 3 ∷ []) (omega arith)

header-incomplete_iff_example :
    (try_extract_sni (0x16 ∷ 3 ∷ 1 ∷ 0 ∷ 9 ∷ 1 ∷ []) ≡ some (incomplete, []))
    ↔ (◌≡◌ {A = ℕ} 0x16 0x16 × (length {A = ℕ} (1 ∷ []) < 0 * 2 ^ 8 + 9))
header-incomplete_iff_example =
    header-incomplete_iff 0x16 3 1 0 9 (1 ∷ []) (omega arith) (omega arith)

try_extract_sni-build_client_hello_record_example :
    try_extract_sni (build_client_hello_record host ++ (1 ∷ 2 ∷ [])) ≡ some (found, host)
try_extract_sni-build_client_hello_record_example =
    try_extract_sni-build_client_hello_record host (1 ∷ 2 ∷ []) (omega arith)
