-- ===== src/Tls/RoundTrip.antt =====
-- src/tls_parser.cpp against the ClientHello that src/benchmark.cpp builds, of any host name.
use flow_dpi.Prelude.{
  ℕ, suc, ◌+◌, ◌*◌, ◌/◌, ◌%◌, ◌^◌, ◌<◌, ◌≡◌, refl, ap, ◌∙◌, List, ◌∷◌, ◌++◌, length, length-append,
  take-append_left, take-length, replicate, some, le→leb, ne→==, arith,
}
use flow_dpi.Bench.{
  build_client_hello_record, hello_handshake, hello_body, hello_extensions, sni_ext,
}
use flow_dpi.Tls.{
  scan_names, server_names, scan_extensions, skip_vector_u8, skip_vector_u16, extensions,
  client_hello, handshake, record_length, try_extract_sni, finish,
}
use flow_dpi.Tls.Statements.{
  run-require, choose_then, choose_else, run-bind, run-read_u8, run-read_u16,
}
use flow_dpi.Tls.Monad.{found, ok, fault, ◌>>=◌, read_slice}

-- The record with its length fields open, and bytes behind it.
module _ (host more : List ℕ) (r1 r2 h1 h2 h3 e1 e2 x1 x2 s1 s2 n1 n2 : ℕ) where
  hello : List ℕ
  hello =
      0x16
      ∷ 0x03
      ∷ 0x01
      ∷ r1
      ∷ r2
      ∷ 0x01
      ∷ h1
      ∷ h2
      ∷ h3
      ∷ 0x03
      ∷ 0x03
      ∷ (replicate 32 0xAB
          ++ (0x00
              ∷ 0
              ∷ 4
              ∷ 0x13
              ∷ 0x01
              ∷ 0x13
              ∷ 0x02
              ∷ 1
              ∷ 0x00
              ∷ e1
              ∷ e2
              ∷ 0
              ∷ 0
              ∷ x1
              ∷ x2
              ∷ s1
              ∷ s2
              ∷ 0x00
              ∷ n1
              ∷ n2
              ∷ (host ++ more)))

  length-hello : length hello ≡ 63 + (length host + length more)
  unfolding hello
  length-hello = omega (arith, length-append host more)

  module _ (record_len : (r1 * 2 ^ 8 + r2) % 2 ^ 16 ≡ 58 + length host)
      (handshake_len : h1 * 2 ^ 16 + h2 * 2 ^ 8 + h3 ≡ 54 + length host)
      (extensions_len : (e1 * 2 ^ 8 + e2) % 2 ^ 16 ≡ 9 + length host)
      (ext_len : (x1 * 2 ^ 8 + x2) % 2 ^ 16 ≡ 5 + length host)
      (list_len : (s1 * 2 ^ 8 + s2) % 2 ^ 16 ≡ 3 + length host)
      (name_len : (n1 * 2 ^ 8 + n2) % 2 ^ 16 ≡ length host) where
    read_slice-host : read_slice hello 63 (length host) ≡ ok host
    unfolding read_slice hello
    read_slice-host =
        choose_then fault (le→leb (63 + length host) (length hello) (omega (arith, length-hello)))
          (ap ok (take-append_left (length host) host more (omega arith) ∙ take-length host))

    scan_names-hello :
        (fuel list_end : ℕ)
        → list_end ≡ 54 + length host
        → scan_names (suc fuel) hello list_end 51 ≡ ok (found, host)
    unfolding scan_names hello
    scan_names-hello fuel list_end e = choose_then _ (le→leb _ _ (omega (arith, e))) (
        run-read_u8 _ _ 0 _ refl (
          run-read_u16 _ _ n1 n2 (length host) _ refl refl name_len (
            run-require _ (le→leb _ _ (omega (arith, e)))
              (choose_then _ refl (run-bind host _ read_slice-host refl)))))

    server_names-hello :
        (sni_end : ℕ)
        → sni_end ≡ 54 + length host
        → server_names hello 49 sni_end ≡ ok (found, host)
    unfolding server_names hello
    server_names-hello sni_end e = run-require _ (le→leb _ _ (omega (arith, e))) (
        run-read_u16 _ _ s1 s2 (3 + length host) _ refl refl list_len
          (run-require _ (le→leb _ _ (omega (arith, e))) (scan_names-hello _ _ (omega arith))))

    scan_extensions-hello :
        (fuel extensions_end : ℕ)
        → extensions_end ≡ 54 + length host
        → scan_extensions (suc fuel) hello extensions_end 45 ≡ ok (found, host)
    unfolding scan_extensions hello
    scan_extensions-hello fuel extensions_end e = choose_then _ (le→leb _ _ (omega (arith, e))) (
        run-read_u16 _ _ 0 0 0 _ refl refl refl (
          run-read_u16 _ _ x1 x2 (5 + length host) _ refl refl ext_len (
            run-require _ (le→leb _ _ (omega (arith, e)))
              (choose_then _ refl (server_names-hello _ (omega arith))))))

    skip_vector_u16-hello : skip_vector_u16 hello (54 + length host) 43 ≡ ok (54 + length host)
    unfolding skip_vector_u16 hello
    skip_vector_u16-hello = run-require _ (le→leb _ _ (omega arith)) (
        run-read_u16 _ _ e1 e2 (9 + length host) _ refl refl extensions_len
          (run-require _ (le→leb _ _ (omega arith)) (ap ok (omega arith))))

    extensions-hello : extensions hello (54 + length host) 43 ≡ ok (found, host)
    unfolding extensions
    extensions-hello =
        choose_else _ (ne→== _ _ (omega arith))
          (run-bind (54 + length host) _ skip_vector_u16-hello (scan_extensions-hello _ _ refl))

    client_hello-hello : client_hello hello (54 + length host) ≡ ok (found, host)
    unfolding client_hello skip_vector_u8 skip_vector_u16 hello
    client_hello-hello = run-require _ (le→leb _ _ (omega arith)) (
        run-bind 35 _
          (run-require _ (le→leb _ _ (omega arith))
            (run-read_u8 _ _ 0 _ refl (run-require _ (le→leb _ _ (omega arith)) refl)))
          (run-bind 41 _
            (run-require _ (le→leb _ _ (omega arith)) (
              run-read_u16 _ _ 0 4 4 _ refl refl refl
                (run-require _ (le→leb _ _ (omega arith)) refl)))
            (run-bind 43 _
              (run-require _ (le→leb _ _ (omega arith))
                (run-read_u8 _ _ 1 _ refl (run-require _ (le→leb _ _ (omega arith)) refl)))
              extensions-hello)))

    handshake-hello : handshake hello (58 + length host) ≡ ok (found, host)
    unfolding handshake hello
    handshake-hello = run-require _ (le→leb _ _ (omega arith)) (
        run-read_u8 _ _ 1 _ refl (
          run-require _ refl (
            run-read_u8 _ _ h1 _ refl (
              run-read_u8 _ _ h2 _ refl (
                run-read_u8 _ _ h3 _ refl (
                  run-require _ (le→leb _ _ (omega (arith, handshake_len)))
                    (ap (client_hello hello) handshake_len ∙ client_hello-hello)))))))

    record_length-hello : record_length hello ≡ ok (58 + length host)
    unfolding record_length hello
    record_length-hello = run-require _ (le→leb _ _ (omega (arith, length-hello))) (
        run-read_u8 _ _ 0x16 _ refl (
          run-require _ refl (
            run-read_u16 _ _ r1 r2 (58 + length host) _ refl refl record_len
              (run-require _ (le→leb _ _ (omega (arith, length-hello))) refl))))

    finish-hello : finish (record_length hello >>= handshake hello) ≡ some (found, host)
    finish-hello = ap finish (run-bind (58 + length host) _ record_length-hello handshake-hello)

-- A length that was written as two bytes, or as three, is read back.
word_back :
    (n v : ℕ)
    → n ≡ v
    → v < 2 ^ 16
    → (n % 2 ^ 16 / 2 ^ 8 % 2 ^ 8 * 2 ^ 8 + n % 2 ^ 16 % 2 ^ 8) % 2 ^ 16 ≡ v
word_back n v e h = omega arith

word24_back :
    (n v : ℕ)
    → n ≡ v
    → v < 2 ^ 16
    → n % 2 ^ 32 / 2 ^ 16 % 2 ^ 8 * 2 ^ 16 + n % 2 ^ 32 / 2 ^ 8 % 2 ^ 8 * 2 ^ 8 + n % 2 ^ 32 % 2 ^ 8
      ≡ v
word24_back n v e h = omega arith

module _ (host : List ℕ) where
  length-sni_ext : length (sni_ext host) ≡ 5 + length host
  unfolding sni_ext
  length-sni_ext = omega arith

  length-hello_extensions : length (hello_extensions host) ≡ 9 + length host
  unfolding hello_extensions
  length-hello_extensions = omega (arith, length-sni_ext)

  length-hello_body : length (hello_body host) ≡ 54 + length host
  unfolding hello_body
  length-hello_body = omega (arith, length-hello_extensions)

  pub length-hello_handshake : length (hello_handshake host) ≡ 58 + length host
  unfolding hello_handshake
  length-hello_handshake = omega (arith, length-hello_body)

pub length-build_client_hello_record :
    (host : List ℕ) → length (build_client_hello_record host) ≡ 63 + length host
unfolding build_client_hello_record
length-build_client_hello_record host = omega (arith, length-hello_handshake host)

-- From the record that is built for a host name, whatever bytes follow it, the parser extracts that
-- host name, as long as the length of the record fits the two bytes that hold it.
pub try_extract_sni-build_client_hello_record :
    (host more : List ℕ)
    → 58 + length host < 2 ^ 16
    → try_extract_sni (build_client_hello_record host ++ more) ≡ some (found, host)
unfolding try_extract_sni build_client_hello_record hello
try_extract_sni-build_client_hello_record host more h =
    finish-hello host more _ _ _ _ _ _ _ _ _ _ _ _ _
      (word_back (length (hello_handshake host)) _ (length-hello_handshake host) h)
      (word24_back (length (hello_body host)) _ (length-hello_body host) (omega arith))
      (word_back (length (hello_extensions host)) _ (length-hello_extensions host) (omega arith))
      (word_back (length (sni_ext host)) _ (length-sni_ext host) (omega arith))
      (word_back (3 + length host) _ refl (omega arith))
      (word_back (length host) _ refl (omega arith))
