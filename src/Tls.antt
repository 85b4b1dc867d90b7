-- ===== src/Tls.antt =====
-- src/tls_parser.cpp: the server name in the first TLS record of a stream.
pub mod Monad
pub mod Safety
mod Stable
mod Arrival
pub mod Partial
mod Statements
pub mod RoundTrip
mod Tests
use flow_dpi.Prelude.{
  ℕ, zero, suc, ◌+◌, ◌*◌, ◌^◌, List, [], ◌∷◌, Option, none, some, length, ltb, leb, ◌==◌, not,
  if◌then◌else◌, cond,
}
use Monad.{
  TlsParseStatus, incomplete, found, no_sni, not_tls, malformed, Parse, ok, stop, fault, ◌>>=◌,
  ◌>>◌, require, choose, read_u8, read_u16, read_slice,
}

abbrev pub record_header_len : ℕ
record_header_len = 5

abbrev pub handshake_header_len : ℕ
handshake_header_len = 4

-- The offset of `ch` in `data`: `hs` is `data + 5` and `ch` is `hs + 4`.
abbrev pub ch : ℕ
ch = record_header_len + handshake_header_len

abbrev pub content_type_handshake : ℕ
content_type_handshake = 0x16

abbrev pub handshake_type_client_hello : ℕ
handshake_type_client_hello = 0x01

abbrev pub extension_server_name : ℕ
extension_server_name = 0x0000

abbrev pub name_type_host_name : ℕ
name_type_host_name = 0x00

-- The loop over the entries of the server name list, with fuel. `ok` is the status that the parser
-- returns, with `sni_out`.
pub scan_names : ℕ → List ℕ → ℕ → ℕ → Parse (TlsParseStatus × List ℕ)
scan_names zero bytes list_end sni_pos = fault
scan_names (suc fuel) bytes list_end sni_pos =
    let entry : Parse (TlsParseStatus × List ℕ) = do
      name_type ← read_u8 bytes (ch + sni_pos)
      name_len ← read_u16 bytes (ch + sni_pos + 1)
      require (leb (sni_pos + 3 + name_len) list_end) malformed
      let host : Parse (TlsParseStatus × List ℕ) =
          read_slice bytes (ch + (sni_pos + 3)) name_len >>= λ name. ok (found, name)
      let rest = scan_names fuel bytes list_end (sni_pos + 3 + name_len)
      choose (name_type == name_type_host_name) host rest
    in choose (leb (sni_pos + 3) list_end) entry (ok (no_sni, []))

-- The server_name extension, `sni_pos` to `sni_end`.
pub server_names : List ℕ → ℕ → ℕ → Parse (TlsParseStatus × List ℕ)
server_names bytes sni_pos sni_end = do
  require (leb (sni_pos + 2) sni_end) malformed
  list_len ← read_u16 bytes (ch + sni_pos)
  require (leb (sni_pos + 2 + list_len) sni_end) malformed
  scan_names (suc (sni_pos + 2 + list_len)) bytes (sni_pos + 2 + list_len) (sni_pos + 2)

-- The loop over the extensions, with fuel.
pub scan_extensions : ℕ → List ℕ → ℕ → ℕ → Parse (TlsParseStatus × List ℕ)
scan_extensions zero bytes extensions_end pos = fault
scan_extensions (suc fuel) bytes extensions_end pos =
    let entry : Parse (TlsParseStatus × List ℕ) = do
      ext_type ← read_u16 bytes (ch + pos)
      ext_len ← read_u16 bytes (ch + pos + 2)
      require (leb (pos + 4 + ext_len) extensions_end) malformed
      let rest = scan_extensions fuel bytes extensions_end (pos + 4 + ext_len)
      let names = server_names bytes (pos + 4) (pos + 4 + ext_len)
      choose (ext_type == extension_server_name) names rest
    in choose (leb (pos + 4) extensions_end) entry (ok (no_sni, []))

-- A field with a length of one byte (session id, compression methods); the position behind it.
pub skip_vector_u8 : List ℕ → ℕ → ℕ → Parse ℕ
skip_vector_u8 bytes ch_len pos = do
  require (leb (pos + 1) ch_len) malformed
  len ← read_u8 bytes (ch + pos)
  require (leb (pos + 1 + len) ch_len) malformed
  ok (pos + 1 + len)

-- A field with a length of two bytes (cipher suites, and the block of extensions).
pub skip_vector_u16 : List ℕ → ℕ → ℕ → Parse ℕ
skip_vector_u16 bytes ch_len pos = do
  require (leb (pos + 2) ch_len) malformed
  len ← read_u16 bytes (ch + pos)
  require (leb (pos + 2 + len) ch_len) malformed
  ok (pos + 2 + len)

-- The extensions, which a ClientHello may lack.
pub extensions : List ℕ → ℕ → ℕ → Parse (TlsParseStatus × List ℕ)
extensions bytes ch_len pos =
    let block : Parse (TlsParseStatus × List ℕ) = do
      extensions_end ← skip_vector_u16 bytes ch_len pos
      scan_extensions (suc extensions_end) bytes extensions_end (pos + 2)
    in choose (pos == ch_len) (ok (no_sni, [])) block

-- The body of the ClientHello, `ch_len` bytes.
pub client_hello : List ℕ → ℕ → Parse (TlsParseStatus × List ℕ)
client_hello bytes ch_len = do
  require (leb 34 ch_len) malformed
  after_session_id ← skip_vector_u8 bytes ch_len 34
  after_cipher_suites ← skip_vector_u16 bytes ch_len after_session_id
  after_comp_methods ← skip_vector_u8 bytes ch_len after_cipher_suites
  extensions bytes ch_len after_comp_methods

-- The handshake message in a record of `hs_len` bytes; `hs` is `data + 5`.
pub handshake : List ℕ → ℕ → Parse (TlsParseStatus × List ℕ)
handshake bytes hs_len = do
  require (leb handshake_header_len hs_len) malformed
  type ← read_u8 bytes record_header_len
  require (type == handshake_type_client_hello) not_tls
  high ← read_u8 bytes (record_header_len + 1)
  mid ← read_u8 bytes (record_header_len + 2)
  low ← read_u8 bytes (record_header_len + 3)
  let handshake_len = high * 2 ^ 16 + mid * 2 ^ 8 + low
  require (leb (handshake_header_len + handshake_len) hs_len) malformed
  client_hello bytes handshake_len

-- The record header; `ok` is the length of a record that has arrived whole.
pub record_length : List ℕ → Parse ℕ
record_length bytes = do
  require (leb record_header_len (length bytes)) incomplete
  type ← read_u8 bytes 0
  require (type == content_type_handshake) not_tls
  record_len ← read_u16 bytes 3
  require (leb (record_header_len + record_len) (length bytes)) incomplete
  ok record_len

-- The value returned and `sni_out`, which starts empty; `none` for a run that faults.
abbrev pub finish : Parse (TlsParseStatus × List ℕ) → Option (TlsParseStatus × List ℕ)
finish (ok r) = some r
finish (stop s) = some (s, [])
finish fault = none

unfoldable pub try_extract_sni : List ℕ → Option (TlsParseStatus × List ℕ)
unfolding record_length handshake client_hello extensions skip_vector_u8 skip_vector_u16
    scan_extensions server_names scan_names read_u8 read_u16 read_slice choose require ◌>>◌
try_extract_sni bytes = finish (record_length bytes >>= handshake bytes)
