-- ===== src/Packet/Shape.antt =====
-- What a parsed packet promises: each field is in its range and the payload lies in the buffer.
use flow_dpi.Prelude.{
  ℕ, ◌+◌, ◌-◌, ◌*◌, ◌/◌, ◌%◌, ◌^◌, ◌≤◌, ◌<◌, ◌≡◌, ◌≢◌, List, length, true, false, not, ◌||◌, none,
  some, ltb, leb, ◌==◌, arith,
}
use flow_dpi.Types.{ParsedPacket, L4Protocol, unknown, tcp, udp}
use flow_dpi.Packet.{eth_header_len}
use flow_dpi.Packet.Monad.{choose}

-- What holds of the packet before the transport header is read.
pub record IsBare (p : ParsedPacket) : Type 0 where
  pub no_l4 : p.has_l4 ≡ false
  pub no_payload : p.payload ≡ none
  pub no_length : p.payload_len ≡ 0
  pub no_src : p.src_port ≡ 0
  pub no_dst : p.dst_port ≡ 0
  pub no_seq : p.tcp_seq ≡ 0

-- The ranges of the fields that an IPv4 header gives.
pub record IpFields (bytes : List ℕ) (version header_len src dst : ℕ) : Type 0 where
  pub version_four : version ≡ 4
  pub least : 20 ≤ header_len
  pub most : header_len ≤ 60
  pub room : eth_header_len + header_len ≤ length bytes
  pub src_word : src < 2 ^ 32
  pub dst_word : dst < 2 ^ 32

abbrev pub HasIp : List ℕ → ParsedPacket → Type 0
HasIp bytes p = IpFields bytes p.ip_version p.ip_header_len p.src_ip p.dst_ip

-- Where the payload starts, by the header lengths that the packet itself gives.
abbrev pub payload_start : ParsedPacket → L4Protocol → ℕ
payload_start p tcp = eth_header_len + p.ip_header_len + p.tcp_header_len
payload_start p udp = eth_header_len + p.ip_header_len + 8
payload_start p unknown = eth_header_len + p.ip_header_len

pub record IsWellFormed (bytes : List ℕ) (p : ParsedPacket) : Type 0 where
  pub ip : p.has_ip ≡ true → HasIp bytes p
  pub below : p.has_l4 ≡ true → p.has_ip ≡ true
  pub payload_at :
      (i : ℕ)
      → p.payload ≡ some i
      → (i ≡ payload_start p p.protocol) × (i + p.payload_len ≤ length bytes)
  pub given : p.has_l4 ≡ true → (p.payload ≢ none) × (p.protocol ≢ unknown)
  pub absent : p.payload ≡ none → p.payload_len ≡ 0
  pub tcp_header :
      p.has_l4 ≡ true → p.protocol ≡ tcp → (20 ≤ p.tcp_header_len) × (p.tcp_header_len ≤ 60)
  pub src_word : p.src_port < 2 ^ 16
  pub dst_word : p.dst_port < 2 ^ 16
  pub seq_word : p.tcp_seq < 2 ^ 32

-- The version and the header length that pass the checks.
pub ipv4_shape :
    (first : ℕ)
    → (not (first / 2 ^ 4 % 2 ^ 4 == 4) || ltb (first % 2 ^ 4) 5) ≡ false
    → (first / 2 ^ 4 % 2 ^ 4 ≡ 4)
      × (20 ≤ first % 2 ^ 4 * 4 % 2 ^ 8)
      × (first % 2 ^ 4 * 4 % 2 ^ 8 ≤ 60)
ipv4_shape first h = ground arith

-- The UDP payload: what the header declares, as far as it is there.
pub udp_available :
    (udp_len len start : ℕ)
    → start ≤ len
    → start
        + choose
            (leb (choose (leb 8 udp_len) (udp_len - 8) 0) (len - start))
            (choose (leb 8 udp_len) (udp_len - 8) 0)
            (len - start)
      ≤ len
unfolding choose
udp_available udp_len len start h = ground arith

pub tcp_shape :
    (word : ℕ)
    → ltb (word / 2 ^ 4 % 2 ^ 4) 5 ≡ false
    → (20 ≤ word / 2 ^ 4 % 2 ^ 4 * 4 % 2 ^ 8) × (word / 2 ^ 4 % 2 ^ 4 * 4 % 2 ^ 8 ≤ 60)
tcp_shape word h = ground arith

-- A packet whose transport header was refused; only the fields in front of the check are set.
pub bare-IsWellFormed :
    (bytes : List ℕ) (p : ParsedPacket) (src dst seq ack : ℕ)
    → IsBare p
    → HasIp bytes p
    → p.has_ip ≡ true
    → src < 2 ^ 16
    → dst < 2 ^ 16
    → seq < 2 ^ 32
    → IsWellFormed bytes (record p { src_port = src; dst_port = dst; tcp_seq = seq; tcp_ack = ack })
bare-IsWellFormed bytes p src dst seq ack bare ip has src_word dst_word seq_word = record {
  ip = λ _. ip;
  below = λ _. has;
  payload_at = λ i e. ground (arith, bare.no_payload);
  given = λ e. ground (arith, bare.no_l4);
  absent = λ _. bare.no_length;
  tcp_header = λ e. ground (arith, bare.no_l4);
  src_word = src_word;
  dst_word = dst_word;
  seq_word = seq_word;
}

pub unset-IsWellFormed :
    (bytes : List ℕ) (p : ParsedPacket)
    → IsBare p
    → HasIp bytes p
    → p.has_ip ≡ true
    → IsWellFormed bytes p
unset-IsWellFormed bytes p bare ip has =
    bare-IsWellFormed bytes p p.src_port p.dst_port p.tcp_seq p.tcp_ack bare ip has
      (ground (arith, bare.no_src)) (ground (arith, bare.no_dst)) (ground (arith, bare.no_seq))

-- A frame that is not IPv4.
pub no_ip-IsWellFormed :
    (bytes : List ℕ) (p : ParsedPacket) → IsBare p → p.has_ip ≡ false → IsWellFormed bytes p
no_ip-IsWellFormed bytes p bare absent_ip = record {
  ip = λ f. ground arith;
  below = λ f. ground (arith, bare.no_l4);
  payload_at = λ i f. ground (arith, bare.no_payload);
  given = λ f. ground (arith, bare.no_l4);
  absent = λ f. bare.no_length;
  tcp_header = λ f. ground (arith, bare.no_l4);
  src_word = ground (arith, bare.no_src);
  dst_word = ground (arith, bare.no_dst);
  seq_word = ground (arith, bare.no_seq);
}
