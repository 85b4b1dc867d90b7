-- ===== src/Packet/Tests.antt =====
-- The parser on the benchmark's frame and on damaged copies of it.
use flow_dpi.Prelude.{
  ℕ, ◌≡◌, refl, List, [], ◌∷◌, Bool, true, false, Option, none, some, take, slice, ◌++◌,
}
use flow_dpi.Bench.{build_tcp_frame}
use flow_dpi.Types.{ParsedPacket}
use flow_dpi.Packet.{parse}
use flow_dpi.Packet.Shape.{IsWellFormed}
use flow_dpi.Packet.Frame.{frame_packet, parse-build_tcp_frame}
use flow_dpi.Packet.Bounds.{parse_safe}

abbrev frame : List ℕ
frame = build_tcp_frame (b'h' ∷ b'i' ∷ [])

abbrev ports : Option (Bool × ParsedPacket) → Option (Bool × ℕ × ℕ × Option ℕ × ℕ)
ports none = none
ports (some (ok, p)) = some (ok, p.src_port, p.dst_port, p.payload, p.payload_len)

frame_parsed : ports (parse frame) ≡ some (true, 55000, 443, some 54, 2)
unfolding parse build_tcp_frame
frame_parsed = refl

-- A frame that ends in the TCP header is accepted without a transport.
frame_cut : ports (parse (take 40 frame)) ≡ some (true, 0, 0, none, 0)
unfolding parse build_tcp_frame
frame_cut = refl

frame_short : ports (parse (take 13 frame)) ≡ some (false, 0, 0, none, 0)
unfolding parse build_tcp_frame
frame_short = refl

parse_safe_example :
    (accepted : Bool) × (out : ParsedPacket) × (parse frame ≡ some (accepted, out))
    × (accepted ≡ true → IsWellFormed frame out)
parse_safe_example = parse_safe frame

-- Two bytes of payload and two that the link added.
parse-build_tcp_frame_example :
    (parse (frame ++ (0 ∷ 0 ∷ [])) ≡ some (true, frame_packet 4))
    × (slice 54 4 (frame ++ (0 ∷ 0 ∷ [])) ≡ b'h' ∷ b'i' ∷ 0 ∷ 0 ∷ [])
parse-build_tcp_frame_example = parse-build_tcp_frame (b'h' ∷ b'i' ∷ []) (0 ∷ 0 ∷ [])
