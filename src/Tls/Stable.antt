-- ===== src/Tls/Stable.antt =====
-- Bytes that arrive after a decision do not change it.
use flow_dpi.Tls.{
  scan_names, server_names, scan_extensions, skip_vector_u8, skip_vector_u16, extensions,
  client_hello, handshake, record_length, Parse, try_extract_sni, TlsParseStatus, finish,
  incomplete,
}
use flow_dpi.Tls.Monad.{
  waits, Follows, faulted, Follows-bind, Follows-refl, Follows-choose, Follows-require,
  Follows-read_u8, Follows-read_u16, Follows-read_slice, Follows-require_arrived, same,
}
use flow_dpi.Prelude.{ℕ, zero, suc, List, ◌++◌, ◌≡◌, some, ◌≢◌}

-- `same` and `Follows-refl` close a branch that reads nothing.
ruleset reads = (
  Follows-bind, Follows-choose, Follows-require, Follows-read_u8, Follows-read_u16,
  Follows-read_slice, Follows-refl,
)

module _ (bytes more : List ℕ) where
  scan_names-Follows :
      (fuel list_end sni_pos : ℕ)
      → Follows
          (scan_names fuel bytes list_end sni_pos)
          (scan_names fuel (bytes ++ more) list_end sni_pos)
  unfolding scan_names
  scan_names-Follows zero list_end sni_pos = faulted
  scan_names-Follows (suc fuel) list_end sni_pos = search (reads, scan_names-Follows fuel) depth 12

  server_names-Follows :
      (sni_pos sni_end : ℕ)
      → Follows (server_names bytes sni_pos sni_end) (server_names (bytes ++ more) sni_pos sni_end)
  unfolding server_names
  server_names-Follows sni_pos sni_end = search (reads, scan_names-Follows) depth 12

  scan_extensions-Follows :
      (fuel extensions_end pos : ℕ)
      → Follows
          (scan_extensions fuel bytes extensions_end pos)
          (scan_extensions fuel (bytes ++ more) extensions_end pos)
  unfolding scan_extensions
  scan_extensions-Follows zero extensions_end pos = faulted
  scan_extensions-Follows (suc fuel) extensions_end pos =
      search (reads, server_names-Follows, scan_extensions-Follows fuel) depth 12

  skip_vector_u8-Follows :
      (ch_len pos : ℕ)
      → Follows (skip_vector_u8 bytes ch_len pos) (skip_vector_u8 (bytes ++ more) ch_len pos)
  unfolding skip_vector_u8
  skip_vector_u8-Follows ch_len pos = search reads depth 12

  skip_vector_u16-Follows :
      (ch_len pos : ℕ)
      → Follows (skip_vector_u16 bytes ch_len pos) (skip_vector_u16 (bytes ++ more) ch_len pos)
  unfolding skip_vector_u16
  skip_vector_u16-Follows ch_len pos = search reads depth 12

  extensions-Follows :
      (ch_len pos : ℕ)
      → Follows (extensions bytes ch_len pos) (extensions (bytes ++ more) ch_len pos)
  unfolding extensions
  extensions-Follows ch_len pos =
      search (reads, skip_vector_u16-Follows, scan_extensions-Follows) depth 12

  client_hello-Follows :
      (ch_len : ℕ) → Follows (client_hello bytes ch_len) (client_hello (bytes ++ more) ch_len)
  unfolding client_hello
  client_hello-Follows ch_len =
      search (reads, skip_vector_u8-Follows, skip_vector_u16-Follows, extensions-Follows) depth 12

  handshake-Follows :
      (hs_len : ℕ) → Follows (handshake bytes hs_len) (handshake (bytes ++ more) hs_len)
  unfolding handshake
  handshake-Follows hs_len = search (reads, client_hello-Follows) depth 14

  record_length-Follows : Follows (record_length bytes) (record_length (bytes ++ more))
  unfolding record_length
  record_length-Follows = Follows-require_arrived bytes more _ (
      Follows-bind (Follows-read_u8 bytes more _) λ type. Follows-require _ _ (
        Follows-bind (Follows-read_u16 bytes more _)
          λ record_len. Follows-require_arrived bytes more _ Follows-refl))

finish-Follows :
    {m n : Parse (TlsParseStatus × List ℕ)} {s : TlsParseStatus} {sni : List ℕ}
    → Follows m n
    → finish m ≡ some (s, sni)
    → s ≢ incomplete
    → finish n ≡ some (s, sni)
finish-Follows faulted e d = cc
finish-Follows waits e d = absurd (d (cc))
finish-Follows (same h) e d = rw h e

-- A decision is final: once the parser returns any status but `incomplete`, it returns the same
-- status and the same name however many bytes follow in the stream.
pub try_extract_sni-append :
    (bytes more : List ℕ) {s : TlsParseStatus} {sni : List ℕ}
    → try_extract_sni bytes ≡ some (s, sni)
    → s ≢ incomplete
    → try_extract_sni (bytes ++ more) ≡ some (s, sni)
unfolding try_extract_sni
try_extract_sni-append bytes more =
    finish-Follows (Follows-bind (record_length-Follows bytes more) (handshake-Follows bytes more))
