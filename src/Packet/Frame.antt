-- ===== src/Packet/Frame.antt =====
-- The parser on the frames that src/benchmark.cpp builds, with bytes behind them as a link adds
-- them to a short frame.
use flow_dpi.Prelude.{
  ℕ, ◌+◌, ◌-◌, ◌≤◌, ◌≡◌, refl, sym, ap, ◌∙◌, List, ◌++◌, length, length-append, slice, take,
  take-length, true, some, le→ltb, le→leb, arith,
}
use flow_dpi.Types.{ParsedPacket, empty_packet, tcp}
use flow_dpi.Bench.{build_tcp_frame, mac}
use flow_dpi.Prelude.Fallible.{bind-some}
use flow_dpi.Packet.{
  parse, parse_steps, parse_ethernet, parse_ipv4, ipv4_fields, l4_protocol, parse_tcp, parse_l4,
}
use flow_dpi.Packet.Monad.{choose, read_u8, read_u16, read_u32, read_bytes, ◌>>=◌}

-- What the parser makes of the frame: the fields that the builder wrote, and as payload all bytes
-- from the end of the headers to the end of the buffer.
abbrev pub frame_packet : ℕ → ParsedPacket
frame_packet len = record {
  dst_mac = mac;
  src_mac = mac;
  ethertype = 0x0800;
  has_ip = true;
  ip_version = 4;
  ip_header_len = 20;
  ttl = 64;
  protocol = tcp;
  src_ip = 0xC0A80101;
  dst_ip = 0x08080808;
  has_l4 = true;
  src_port = 55000;
  dst_port = 443;
  tcp_header_len = 20;
  tcp_flags = 0x18;
  tcp_seq = 1;
  tcp_ack = 0;
  payload = some 54;
  payload_len = len;
}

pub length-build_tcp_frame :
    (payload : List ℕ) → length (build_tcp_frame payload) ≡ 54 + length payload
unfolding build_tcp_frame
length-build_tcp_frame payload = omega arith

module _ (payload trailer : List ℕ) where
  frame : List ℕ
  frame = build_tcp_frame payload ++ trailer

  after_ethernet : ParsedPacket
  after_ethernet = record empty_packet { dst_mac = mac; src_mac = mac; ethertype = 0x0800 }

  after_ipv4 : ParsedPacket
  unfolding after_ethernet
  after_ipv4 = record after_ethernet {
    has_ip = true;
    ip_version = 4;
    ip_header_len = 20;
    ttl = 64;
    protocol = tcp;
    src_ip = 0xC0A80101;
    dst_ip = 0x08080808;
  }

  room : (n : ℕ) → n ≤ 54 → n ≤ length frame
  unfolding frame
  room n h =
      omega
        (arith, h, length-append (build_tcp_frame payload) trailer, length-build_tcp_frame payload)

  parse_ethernet-frame : parse_ethernet frame empty_packet 0 ≡ some (true, after_ethernet, 14)
  unfolding parse_ethernet frame build_tcp_frame choose read_bytes read_u16 read_u8 ◌>>=◌
      after_ethernet
  parse_ethernet-frame =
      rw
        (
          le→ltb (length frame) 14 (room 14 (omega arith)),
          le→leb 6 (length frame) (room 6 (omega arith)),
          le→leb 12 (length frame) (room 12 (omega arith)),
        )
        refl

  parse_ipv4-frame : parse_ipv4 frame after_ethernet 14 ≡ some (true, after_ipv4, 34)
  unfolding parse_ipv4 ipv4_fields frame build_tcp_frame choose read_u8 read_u32 l4_protocol ◌>>=◌
      after_ipv4
  parse_ipv4-frame = rw (le→ltb (length frame) 34 (room 34 (omega arith))) refl

  parse_tcp-frame :
      parse_tcp frame after_ipv4 34 ≡ some (true, frame_packet (length frame - 54), 54)
  unfolding parse_tcp frame build_tcp_frame choose read_u8 read_u16 read_u32 ◌>>=◌ after_ipv4
  parse_tcp-frame = rw (le→ltb (length frame) 54 (room 54 (omega arith))) refl

  payload_length : length frame - 54 ≡ length payload + length trailer
  unfolding frame
  payload_length =
      omega (arith, length-append (build_tcp_frame payload) trailer, length-build_tcp_frame payload)

  parse-frame : parse frame ≡ some (true, frame_packet (length payload + length trailer))
  unfolding parse parse_steps parse_l4 choose after_ethernet after_ipv4
  parse-frame = bind-some _ parse_ethernet-frame (
      bind-some _ parse_ipv4-frame
        (bind-some _ parse_tcp-frame (ap (λ n. some (true, frame_packet n)) payload_length)))

  slice-frame : slice 54 (length payload + length trailer) frame ≡ payload ++ trailer
  unfolding frame build_tcp_frame
  slice-frame =
      ap (λ n. take n (payload ++ trailer)) (sym (length-append payload trailer))
      ∙ take-length (payload ++ trailer)

-- The parser gives back each field that the frame was built with. The payload that it gives is
-- what the frame was built with and every byte that follows the frame in the buffer: the total
-- length of the IPv4 header, which counts the payload alone, is not looked at.
pub parse-build_tcp_frame :
    (payload trailer : List ℕ)
    → (parse (build_tcp_frame payload ++ trailer)
        ≡ some (true, frame_packet (length payload + length trailer)))
      × (slice 54 (length payload + length trailer) (build_tcp_frame payload ++ trailer)
          ≡ payload ++ trailer)
unfolding frame
parse-build_tcp_frame payload trailer = (parse-frame payload trailer, slice-frame payload trailer)
