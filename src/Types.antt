-- ===== src/Types.antt =====
-- include/types.h: packets, flows and the fields that the parser fills.
use Prim.Native.Nat.{bit_xor}
use flow_dpi.Prelude.{◌+◌, ◌*◌, ◌/◌, ◌%◌, ◌^◌, ℕ, List, Bool, false, Option, none, replicate}

-- `PcapPacketHeader`; each field is a uint32_t.
pub record PcapPacketHeader : Type 0 where
  pub ts_sec : ℕ
  pub ts_usec : ℕ
  pub incl_len : ℕ
  pub orig_len : ℕ

-- `RawPacket`; the field `data` of the source is `bytes`.
pub record RawPacket : Type 0 where
  pub header : PcapPacketHeader
  pub bytes : List ℕ

pub data L4Protocol : Type 0 where
  unknown tcp udp : L4Protocol

-- The value of the enumerator in its `uint8_t`.
abbrev pub protocol_number : L4Protocol → ℕ
protocol_number unknown = 0
protocol_number tcp = 6
protocol_number udp = 17

pub record FiveTuple : Type 0 where
  pub src_ip : ℕ
  pub dst_ip : ℕ
  pub src_port : ℕ
  pub dst_port : ℕ
  pub protocol : L4Protocol

-- `payload` points into the buffer that was parsed: here it is the offset in that buffer, and
-- `none` is the null pointer.
pub record ParsedPacket : Type 0 where
  pub dst_mac : List ℕ
  pub src_mac : List ℕ
  pub ethertype : ℕ
  pub has_ip : Bool
  pub ip_version : ℕ
  pub ip_header_len : ℕ
  pub ttl : ℕ
  pub protocol : L4Protocol
  pub src_ip : ℕ
  pub dst_ip : ℕ
  pub has_l4 : Bool
  pub src_port : ℕ
  pub dst_port : ℕ
  pub tcp_header_len : ℕ
  pub tcp_flags : ℕ
  pub tcp_seq : ℕ
  pub tcp_ack : ℕ
  pub payload : Option ℕ
  pub payload_len : ℕ

-- `std::hash` of a uint32_t, a uint16_t and a uint8_t.
pub record StdHash : Type 0 where
  pub hash32 : ℕ → ℕ
  pub hash16 : ℕ → ℕ
  pub hash8 : ℕ → ℕ

-- `FiveTupleHash`: one field is mixed into `h`, which is a size_t of 64 bits, and all of them.
unfoldable pub mix : ℕ → ℕ → ℕ
mix h field = bit_xor h ((field + 0x9e3779b9 + h * 2 ^ 6 % 2 ^ 64 + h / 2 ^ 2) % 2 ^ 64)

unfoldable pub five_tuple_hash : StdHash → FiveTuple → ℕ
unfolding mix
five_tuple_hash std t =
    let h1 = mix (std.hash32 t.src_ip) (std.hash32 t.dst_ip) in
    let h2 = mix h1 (std.hash16 t.src_port) in
    let h3 = mix h2 (std.hash16 t.dst_port) in mix h3 (std.hash8 (protocol_number t.protocol))

-- `ParsedPacket{}`; the two addresses are six zero bytes.
abbrev pub empty_packet : ParsedPacket
empty_packet = record {
  dst_mac = replicate 6 0;
  src_mac = replicate 6 0;
  ethertype = 0;
  has_ip = false;
  ip_version = 0;
  ip_header_len = 0;
  ttl = 0;
  protocol = unknown;
  src_ip = 0;
  dst_ip = 0;
  has_l4 = false;
  src_port = 0;
  dst_port = 0;
  tcp_header_len = 0;
  tcp_flags = 0;
  tcp_seq = 0;
  tcp_ack = 0;
  payload = none;
  payload_len = 0;
}

-- `ParsedPacket::tuple`
abbrev pub tuple : ParsedPacket → FiveTuple
tuple p = record {
  src_ip = p.src_ip;
  dst_ip = p.dst_ip;
  src_port = p.src_port;
  dst_port = p.dst_port;
  protocol = p.protocol;
}
