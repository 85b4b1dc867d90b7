-- ===== src/Packet.antt =====
-- src/packet_parser.cpp: Ethernet, IPv4, TCP and UDP headers of one captured frame. A step returns
-- its `bool`, `out` and `offset`; the `none` of a step is a read outside the buffer.
pub mod Monad
pub mod Shape
pub mod Bounds
pub mod Frame
mod Tests
use flow_dpi.Prelude.{
  ℕ, ◌+◌, ◌-◌, ◌*◌, ◌/◌, ◌%◌, ◌^◌, List, length, Bool, true, false, not, ◌||◌, Option, none, some,
  ltb, leb, ◌==◌,
}
use flow_dpi.Types.{ParsedPacket, empty_packet, L4Protocol, unknown, tcp, udp}
use Monad.{◌>>=◌, choose, read_u8, read_u16, read_u32, read_bytes}

abbrev pub eth_header_len : ℕ
eth_header_len = 14

abbrev pub ethertype_ipv4 : ℕ
ethertype_ipv4 = 0x0800

abbrev pub Step : Type 0
Step = Option (Bool × ParsedPacket × ℕ)

pub parse_ethernet : List ℕ → ParsedPacket → ℕ → Step
parse_ethernet bytes out offset =
    let header : Step = do
      dst_mac ← read_bytes bytes 0 6
      src_mac ← read_bytes bytes 6 6
      ethertype ← read_u16 bytes 12
      let out' = record out { dst_mac = dst_mac; src_mac = src_mac; ethertype = ethertype }
      some (true, out', eth_header_len)
    in choose (ltb (length bytes) eth_header_len) (some (false, out, offset)) header

-- `proto == 6 ? TCP : proto == 17 ? UDP : UNKNOWN`
pub l4_protocol : ℕ → L4Protocol
unfolding choose
l4_protocol proto = choose (proto == 6) tcp (choose (proto == 17) udp unknown)

-- The fields behind the checks of `parseIPv4`; `ip` is `data + offset`.
pub ipv4_fields : List ℕ → ParsedPacket → ℕ → ℕ → ℕ → Step
unfolding l4_protocol
ipv4_fields bytes out offset version header_len = do
  ttl ← read_u8 bytes (offset + 8)
  proto ← read_u8 bytes (offset + 9)
  src_ip ← read_u32 bytes (offset + 12)
  dst_ip ← read_u32 bytes (offset + 16)
  let out' = record out {
    has_ip = true;
    ip_version = version;
    ip_header_len = header_len;
    ttl = ttl;
    protocol = l4_protocol proto;
    src_ip = src_ip;
    dst_ip = dst_ip;
  }
  some (true, out', offset + header_len)

-- A shift by four is `/ 2 ^ 4`, and a mask by 0x0F is `% 2 ^ 4`.
pub parse_ipv4 : List ℕ → ParsedPacket → ℕ → Step
parse_ipv4 bytes out offset =
    let refused : Step = some (false, out, offset) in
    let header : Step = do
      first ← read_u8 bytes offset
      let version = first / 2 ^ 4 % 2 ^ 4
      let ihl_words = first % 2 ^ 4
      let header_len = ihl_words * 4 % 2 ^ 8
      choose (not (version == 4) || ltb ihl_words 5) refused (
          choose (ltb (length bytes) (offset + header_len)) refused
            (ipv4_fields bytes out offset version header_len))
    in choose (ltb (length bytes) (offset + 20)) refused header

-- The four fields that `parseTCP` sets before it checks the data offset stay set when it fails.
pub parse_tcp : List ℕ → ParsedPacket → ℕ → Step
parse_tcp bytes out offset =
    let header : Step = do
      src_port ← read_u16 bytes offset
      dst_port ← read_u16 bytes (offset + 2)
      tcp_seq ← read_u32 bytes (offset + 4)
      tcp_ack ← read_u32 bytes (offset + 8)
      let out' = record out {
        src_port = src_port;
        dst_port = dst_port;
        tcp_seq = tcp_seq;
        tcp_ack = tcp_ack;
      }
      word ← read_u8 bytes (offset + 12)
      let data_offset_words = word / 2 ^ 4 % 2 ^ 4
      let header_len = data_offset_words * 4 % 2 ^ 8
      let accepted : Step = do
        flags ← read_u8 bytes (offset + 13)
        let out'' = record out' {
          tcp_flags = flags;
          tcp_header_len = header_len;
          has_l4 = true;
          payload = some (offset + header_len);
          payload_len = length bytes - (offset + header_len);
        }
        some (true, out'', offset + header_len)
      choose (ltb data_offset_words 5) (some (false, out', offset))
          (choose (ltb (length bytes) (offset + header_len)) (some (false, out', offset)) accepted)
    in choose (ltb (length bytes) (offset + 20)) (some (false, out, offset)) header

pub parse_udp : List ℕ → ParsedPacket → ℕ → Step
parse_udp bytes out offset =
    let header : Step = do
      src_port ← read_u16 bytes offset
      dst_port ← read_u16 bytes (offset + 2)
      udp_len ← read_u16 bytes (offset + 4)
      let out' = record out { src_port = src_port; dst_port = dst_port; has_l4 = true }
      let payload_offset = offset + 8
      let declared_payload_len = choose (leb 8 udp_len) (udp_len - 8) 0
      let available = length bytes - payload_offset
      let payload_len = choose (leb declared_payload_len available) declared_payload_len available
      let out'' = record out' { payload = some payload_offset; payload_len = payload_len }
      choose (ltb (length bytes) payload_offset) (some (false, out', offset))
          (some (true, out'', payload_offset + payload_len))
    in choose (ltb (length bytes) (offset + 8)) (some (false, out, offset)) header

-- What `parse` does behind an IPv4 header: the results of `parseTCP` and `parseUDP` are ignored.
pub parse_l4 : List ℕ → ParsedPacket → ℕ → L4Protocol → Option (Bool × ParsedPacket)
parse_l4 bytes out offset tcp = parse_tcp bytes out offset >>= λ r. some (true, r.1)
parse_l4 bytes out offset udp = parse_udp bytes out offset >>= λ r. some (true, r.1)
parse_l4 bytes out offset unknown =
    some (true, record out { payload = some offset; payload_len = length bytes - offset })

pub parse_steps : List ℕ → Option (Bool × ParsedPacket)
parse_steps bytes = parse_ethernet bytes empty_packet 0 >>= λ eth.
    let ipv4 : Option (Bool × ParsedPacket) = parse_ipv4 bytes eth.1 eth.2 >>= λ ip.
    choose (not ip.0) (some (false, ip.1)) (parse_l4 bytes ip.1 ip.2 ip.1.protocol) in
    choose (not eth.0) (some (false, eth.1))
      (choose (eth.1.ethertype == ethertype_ipv4) ipv4 (some (true, eth.1)))

-- `PacketParser::parse`
unfoldable pub parse : List ℕ → Option (Bool × ParsedPacket)
unfolding parse_steps parse_ethernet parse_ipv4 ipv4_fields parse_tcp parse_udp parse_l4 choose
    l4_protocol read_u8 read_u16 read_u32 read_bytes ◌>>=◌
parse bytes = parse_steps bytes
