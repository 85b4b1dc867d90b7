-- ===== src/Tls/Safety.antt =====
-- The parser stays inside its buffer and its loops end.
use flow_dpi.Tls.{
  ch, scan_names, server_names, scan_extensions, skip_vector_u8, skip_vector_u16, extensions,
  client_hello, handshake, record_length, finish, try_extract_sni, record_header_len,
  handshake_header_len, incomplete,
}
use flow_dpi.Tls.Monad.{
  TlsParseStatus, found, Parse, Returns, Returns-bind, require_rule, read_u8_rule, read_u16_rule,
  choose_rule, read_slice_rule, read_slice_rule, value, choose_rule, ◌>>=◌, early, Returns-bind_to,
}
use flow_dpi.Prelude.{
  ◌*◌, ◌^◌, ◌≢◌, ℕ, zero, suc, ◌+◌, ◌≤◌, ◌<◌, ◌≡◌, refl, List, length, slice, arith, leb→le, some,
  [],
}

abbrev pub IsDecided : TlsParseStatus → Type 0
IsDecided s = (s ≢ incomplete) × (s ≢ found)

-- A status other than `incomplete`; a name that is found is a slice of the buffer that ends at `limit` or before.
abbrev pub IsSliceOf : List ℕ → List ℕ → Type 0
IsSliceOf bytes sni = (i : ℕ) × (n : ℕ) × (i + n ≤ length bytes) × (sni ≡ slice i n bytes)

abbrev pub FoundBelow : List ℕ → ℕ → TlsParseStatus × List ℕ → Type 0
FoundBelow bytes limit r =
    (r.0 ≢ incomplete)
    × (r.0 ≡ found → (i : ℕ) × (n : ℕ) × (i + n ≤ limit) × (r.1 ≡ slice i n bytes))

scan_names-Returns :
    (fuel : ℕ) (bytes : List ℕ) (list_end sni_pos limit : ℕ)
    → sni_pos ≤ list_end
    → list_end < fuel + sni_pos
    → ch + list_end ≤ limit
    → limit ≤ length bytes
    → Returns IsDecided (FoundBelow bytes limit) (scan_names fuel bytes list_end sni_pos)
unfolding scan_names
scan_names-Returns zero bytes list_end sni_pos limit g f h l = absurd (omega arith)
scan_names-Returns (suc fuel) bytes list_end sni_pos limit g f h l =
    choose_rule _ _ _
      (λ t.
        let room = leb→le (sni_pos + 3) list_end t in
        read_u8_rule _ _ _ (omega arith) λ name_type.
          read_u16_rule _ _ _ (omega arith) λ name_len _.
            require_rule _ _ _ ((λ e. cc), (λ e. cc))
              λ fits.
                let inside = leb→le (sni_pos + 3 + name_len) list_end fits in
                choose_rule _ _ _
                  (λ _.
                    read_slice_rule _ _ _ _ (omega arith)
                      (value ((λ e. cc), λ _. (ch + (sni_pos + 3), name_len, omega arith, refl))))
                  (λ _.
                    scan_names-Returns fuel bytes list_end (sni_pos + 3 + name_len) limit inside
                      (omega arith) h l))
      (λ _. value ((λ e. cc), (λ e. cc)))

server_names-Returns :
    (bytes : List ℕ) (sni_pos sni_end limit : ℕ)
    → ch + sni_end ≤ limit
    → limit ≤ length bytes
    → Returns IsDecided (FoundBelow bytes limit) (server_names bytes sni_pos sni_end)
unfolding server_names
server_names-Returns bytes sni_pos sni_end limit h l =
    require_rule _ _ _ ((λ e. cc), (λ e. cc))
      λ t.
        let room = leb→le (sni_pos + 2) sni_end t in
        read_u16_rule _ _ _ (omega arith) λ list_len _.
          require_rule _ _ _ ((λ e. cc), (λ e. cc))
            λ fits.
              let inside = leb→le (sni_pos + 2 + list_len) sni_end fits in
              scan_names-Returns _ bytes _ _ limit (omega arith) (omega arith) (omega arith) l

scan_extensions-Returns :
    (fuel : ℕ) (bytes : List ℕ) (extensions_end pos limit : ℕ)
    → pos ≤ extensions_end
    → extensions_end < fuel + pos
    → ch + extensions_end ≤ limit
    → limit ≤ length bytes
    → Returns IsDecided (FoundBelow bytes limit) (scan_extensions fuel bytes extensions_end pos)
unfolding scan_extensions
scan_extensions-Returns zero bytes extensions_end pos limit g f h l = absurd (omega arith)
scan_extensions-Returns (suc fuel) bytes extensions_end pos limit g f h l =
    choose_rule _ _ _
      (λ t.
        let room = leb→le (pos + 4) extensions_end t in
        read_u16_rule _ _ _ (omega arith) λ ext_type _.
          read_u16_rule _ _ _ (omega arith) λ ext_len _.
            require_rule _ _ _ ((λ e. cc), (λ e. cc))
              λ fits.
                let inside = leb→le (pos + 4 + ext_len) extensions_end fits in
                choose_rule _ _ _ (λ _. server_names-Returns bytes _ _ limit (omega arith) l)
                  (λ _.
                    scan_extensions-Returns fuel bytes extensions_end (pos + 4 + ext_len) limit
                      inside (omega arith) h l))
      (λ _. value ((λ e. cc), (λ e. cc)))

-- A field that is skipped lies inside the ClientHello.
abbrev Skipped : ℕ → ℕ → ℕ → Type 0
Skipped pos ch_len next = (pos < next) × (next ≤ ch_len)

skip_vector_u8-Returns :
    (bytes : List ℕ) (ch_len pos : ℕ)
    → ch + ch_len ≤ length bytes
    → Returns IsDecided (Skipped pos ch_len) (skip_vector_u8 bytes ch_len pos)
unfolding skip_vector_u8
skip_vector_u8-Returns bytes ch_len pos h =
    require_rule _ _ _ ((λ e. cc), (λ e. cc))
      λ t.
        let room = leb→le (pos + 1) ch_len t in
        read_u8_rule _ _ _ (omega arith) λ len.
          require_rule _ _ _ ((λ e. cc), (λ e. cc))
            λ fits. value (omega (arith, leb→le (pos + 1 + len) ch_len fits))

skip_vector_u16-Returns :
    (bytes : List ℕ) (ch_len pos : ℕ)
    → ch + ch_len ≤ length bytes
    → Returns IsDecided (λ next. Skipped (pos + 1) ch_len next) (skip_vector_u16 bytes ch_len pos)
unfolding skip_vector_u16
skip_vector_u16-Returns bytes ch_len pos h =
    require_rule _ _ _ ((λ e. cc), (λ e. cc))
      λ t.
        let room = leb→le (pos + 2) ch_len t in
        read_u16_rule _ _ _ (omega arith) λ len _.
          require_rule _ _ _ ((λ e. cc), (λ e. cc))
            λ fits. value (omega (arith, leb→le (pos + 2 + len) ch_len fits))

extensions-Returns :
    (bytes : List ℕ) (ch_len pos limit : ℕ)
    → ch + ch_len ≤ limit
    → limit ≤ length bytes
    → Returns IsDecided (FoundBelow bytes limit) (extensions bytes ch_len pos)
unfolding extensions
extensions-Returns bytes ch_len pos limit h l =
    choose_rule _ _ _ (λ _. value ((λ e. cc), (λ e. cc)))
      λ _. Returns-bind (skip_vector_u16-Returns bytes ch_len pos (omega arith)) λ extensions_end s.
        scan_extensions-Returns _ bytes extensions_end (pos + 2) limit (omega arith) (omega arith)
          (omega arith) l

client_hello-Returns :
    (bytes : List ℕ) (ch_len limit : ℕ)
    → ch + ch_len ≤ limit
    → limit ≤ length bytes
    → Returns IsDecided (FoundBelow bytes limit) (client_hello bytes ch_len)
unfolding client_hello
client_hello-Returns bytes ch_len limit h l =
    require_rule _ _ _ ((λ e. cc), (λ e. cc))
      λ _. Returns-bind (skip_vector_u8-Returns bytes ch_len 34 (omega arith)) λ a _.
        Returns-bind (skip_vector_u16-Returns bytes ch_len a (omega arith)) λ b _.
          Returns-bind (skip_vector_u8-Returns bytes ch_len b (omega arith))
            λ c _. extensions-Returns bytes ch_len c limit h l

pub handshake-Returns :
    (bytes : List ℕ) (hs_len limit : ℕ)
    → record_header_len + hs_len ≤ limit
    → limit ≤ length bytes
    → Returns IsDecided (FoundBelow bytes limit) (handshake bytes hs_len)
unfolding handshake
handshake-Returns bytes hs_len limit h l =
    require_rule _ _ _ ((λ e. cc), (λ e. cc))
      λ t.
        let room = leb→le handshake_header_len hs_len t in
        read_u8_rule _ _ _ (omega arith) λ _.
          require_rule _ _ _ ((λ e. cc), (λ e. cc))
            λ _. read_u8_rule _ _ _ (omega arith) λ high. read_u8_rule _ _ _ (omega arith) λ mid.
              read_u8_rule _ _ _ (omega arith) λ low.
                require_rule _ _ _ ((λ e. cc), (λ e. cc))
                  λ fits.
                    let inside =
                      leb→le (handshake_header_len + (high * 2 ^ 16 + mid * 2 ^ 8 + low)) hs_len
                        fits in
                    client_hello-Returns bytes _ limit (omega arith) l

pub record_length-Returns :
    (bytes : List ℕ)
    → Returns (λ s. s ≢ found) (λ n. record_header_len + n ≤ length bytes) (record_length bytes)
unfolding record_length
record_length-Returns bytes =
    require_rule _ _ _ (λ e. cc)
      λ t.
        let room = leb→le record_header_len (length bytes) t in
        read_u8_rule _ _ _ (omega arith) λ _.
          require_rule _ _ _ (λ e. cc)
            λ _.
              read_u16_rule _ _ _ (omega arith)
                λ record_len _. require_rule _ _ _ (λ e. cc) λ fits. value (leb→le _ _ fits)

try_extract_sni-Returns :
    (bytes : List ℕ)
    → Returns
        (λ s. s ≢ found)
        (FoundBelow bytes (length bytes))
        (record_length bytes >>= handshake bytes)
try_extract_sni-Returns bytes =
    Returns-bind_to (λ s d. d.1) (record_length-Returns bytes)
      λ record_len h. handshake-Returns bytes record_len (length bytes) h (omega arith)

finish-Returns :
    (bytes : List ℕ) {m : Parse (TlsParseStatus × List ℕ)}
    → Returns (λ s. s ≢ found) (FoundBelow bytes (length bytes)) m
    → (status : TlsParseStatus) × (sni : List ℕ) × (finish m ≡ some (status, sni))
      × (status ≡ found → IsSliceOf bytes sni)
finish-Returns bytes (value {a} p) =
    (a.0, a.1, refl, λ e. let (i, n, fits, same_bytes) = p.1 e in (i, n, fits, same_bytes))
finish-Returns bytes (early {s} e) = (s, [], refl, λ f. absurd (e f))

-- No read leaves the buffer and the fuel of both loops is enough, whatever the bytes are: the
-- parser returns a status, and a name that it finds is a slice of the buffer.
pub try_extract_sni_safe :
    (bytes : List ℕ)
    → (status : TlsParseStatus) × (sni : List ℕ) × (try_extract_sni bytes ≡ some (status, sni))
      × (status ≡ found → IsSliceOf bytes sni)
unfolding try_extract_sni
try_extract_sni_safe bytes = finish-Returns bytes (try_extract_sni-Returns bytes)
