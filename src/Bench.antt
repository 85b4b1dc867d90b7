-- ===== src/Bench.antt =====
-- src/benchmark.cpp: the frames and records that the benchmark feeds to the parsers.
pub mod Timing
mod Prints
use flow_dpi.Prelude.{ℕ, ◌+◌, ◌*◌, ◌/◌, ◌%◌, ◌^◌, List, [], ◌∷◌, ◌++◌, length, replicate}

-- `appendU16BE`, `appendU24BE` and `appendU32BE`: the bytes that they push.
unfoldable pub u16_be : ℕ → List ℕ
u16_be v = (v / 2 ^ 8 % 2 ^ 8) ∷ (v % 2 ^ 8) ∷ []

unfoldable pub u24_be : ℕ → List ℕ
u24_be v = (v / 2 ^ 16 % 2 ^ 8) ∷ (v / 2 ^ 8 % 2 ^ 8) ∷ (v % 2 ^ 8) ∷ []

unfoldable pub u32_be : ℕ → List ℕ
u32_be v = (v / 2 ^ 24 % 2 ^ 8) ∷ (v / 2 ^ 16 % 2 ^ 8) ∷ (v / 2 ^ 8 % 2 ^ 8) ∷ (v % 2 ^ 8) ∷ []

abbrev pub mac : List ℕ
mac = 0xaa ∷ 0xbb ∷ 0xcc ∷ 0xdd ∷ 0xee ∷ 0xff ∷ []

-- `buildTcpFrame`. The total length is written where the source patches it in at the end: it
-- counts the twenty bytes of each header and the payload.
unfoldable pub build_tcp_frame : List ℕ → List ℕ
unfolding u16_be u32_be
build_tcp_frame payload =
    mac
    ++ (mac
        ++ (u16_be 0x0800
            ++ (((4 * 2 ^ 4 + 5) ∷ 0 ∷ [])
                ++ (u16_be ((40 + length payload) % 2 ^ 16)
                    ++ (u16_be 0
                        ++ (u16_be 0
                            ++ ((64 ∷ 6 ∷ [])
                                ++ (u16_be 0
                                    ++ (u32_be 0xC0A80101
                                        ++ (u32_be 0x08080808
                                            ++ (u16_be 55000
                                                ++ (u16_be 443
                                                    ++ (u32_be 1
                                                        ++ (u32_be 0
                                                            ++ (((5 * 2 ^ 4) ∷ 0x18 ∷ [])
                                                            ++ (u16_be 65535
                                                            ++ (u16_be 0
                                                            ++ (u16_be 0
                                                            ++ payload))))))))))))))))))

-- The parts of `buildClientHelloRecord`: `sni_ext`, `extensions`, `ch` and `hs`.
unfoldable pub sni_ext : List ℕ → List ℕ
unfolding u16_be
sni_ext hostname =
    u16_be ((3 + length hostname) % 2 ^ 16)
    ++ ((0x00 ∷ []) ++ (u16_be (length hostname % 2 ^ 16) ++ hostname))

unfoldable pub hello_extensions : List ℕ → List ℕ
unfolding sni_ext
hello_extensions hostname =
    u16_be 0x0000 ++ (u16_be (length (sni_ext hostname) % 2 ^ 16) ++ sni_ext hostname)

unfoldable pub hello_body : List ℕ → List ℕ
unfolding hello_extensions
hello_body hostname =
    u16_be 0x0303
    ++ (replicate 32 0xAB
        ++ ((0x00 ∷ [])
            ++ (u16_be 4
                ++ (u16_be 0x1301
                    ++ (u16_be 0x1302
                        ++ ((1 ∷ 0x00 ∷ [])
                            ++ (u16_be (length (hello_extensions hostname) % 2 ^ 16)
                                ++ hello_extensions hostname)))))))

unfoldable pub hello_handshake : List ℕ → List ℕ
unfolding hello_body u24_be
hello_handshake hostname =
    (0x01 ∷ []) ++ (u24_be (length (hello_body hostname) % 2 ^ 32) ++ hello_body hostname)

-- `buildClientHelloRecord`
unfoldable pub build_client_hello_record : List ℕ → List ℕ
unfolding hello_handshake
build_client_hello_record hostname =
    (0x16 ∷ 0x03 ∷ 0x01 ∷ [])
    ++ (u16_be (length (hello_handshake hostname) % 2 ^ 16) ++ hello_handshake hostname)
