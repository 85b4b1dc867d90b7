-- ===== src/Packet/Bounds.antt =====
-- src/packet_parser.cpp reads inside the buffer, and what it accepts is well formed.
use flow_dpi.Prelude.{
  ℕ, ◌+◌, ◌*◌, ◌/◌, ◌%◌, ◌^◌, ◌≤◌, ◌≡◌, refl, List, length, Bool, true, false, some, arith, ltb→lt,
  ltb_false→le,
}
use flow_dpi.Types.{ParsedPacket, empty_packet, L4Protocol, unknown, tcp, udp}
use flow_dpi.Packet.{
  parse_ethernet, parse_ipv4, ipv4_fields, parse_tcp, parse_udp, parse_l4, parse, eth_header_len,
  parse_steps,
}
use flow_dpi.Packet.Monad.{
  Yields, yields, Yields-bind, Yields-some, choose_rule, read_u8_rule, read_u16_rule, read_u32_rule,
  read_bytes_rule,
}
use flow_dpi.Packet.Shape.{
  IsBare, HasIp, IsWellFormed, ipv4_shape, udp_available, tcp_shape, bare-IsWellFormed,
  unset-IsWellFormed, no_ip-IsWellFormed,
}

abbrev AfterEthernet : List ℕ → Bool × ParsedPacket × ℕ → Type 0
AfterEthernet bytes r =
    r.0 ≡ true
    → IsBare r.1 × (r.1.has_ip ≡ false) × (r.2 ≡ eth_header_len) × (eth_header_len ≤ length bytes)

parse_ethernet-Yields :
    (bytes : List ℕ) → Yields (AfterEthernet bytes) (parse_ethernet bytes empty_packet 0)
unfolding parse_ethernet
parse_ethernet-Yields bytes =
    choose_rule _ _ _ (λ _. yields (λ e. cc))
      λ t.
        let room = ltb_false→le (length bytes) eth_header_len t in
        read_bytes_rule _ _ _ _ (omega arith) (
          read_bytes_rule _ _ _ _ (omega arith) (
            read_u16_rule _ _ _ (omega arith) λ ethertype _. yields λ _. (
              record {
                no_l4 = refl;
                no_payload = refl;
                no_length = refl;
                no_src = refl;
                no_dst = refl;
                no_seq = refl;
              },
              refl,
              refl,
              room,
            )))

abbrev AfterIpv4 : List ℕ → Bool × ParsedPacket × ℕ → Type 0
AfterIpv4 bytes r =
    r.0 ≡ true
    → IsBare r.1
      × HasIp bytes r.1
      × (r.1.has_ip ≡ true)
      × (r.2 ≡ eth_header_len + r.1.ip_header_len)

parse_ipv4-Yields :
    (bytes : List ℕ) (p : ParsedPacket)
    → IsBare p
    → eth_header_len ≤ length bytes
    → Yields (AfterIpv4 bytes) (parse_ipv4 bytes p eth_header_len)
unfolding parse_ipv4 ipv4_fields
parse_ipv4-Yields bytes p bare room =
    choose_rule _ _ _ (λ _. yields (λ e. cc))
      λ t.
        let fixed = ltb_false→le (length bytes) (eth_header_len + 20) t in
        read_u8_rule _ _ _ (omega arith) λ first _.
          choose_rule _ _ _ (λ _. yields (λ e. cc))
            λ sane.
              choose_rule _ _ _ (λ _. yields (λ e. cc))
                λ fits.
                  let shape = ipv4_shape first sane in
                  let inside =
                    ltb_false→le (length bytes) (eth_header_len + first % 2 ^ 4 * 4 % 2 ^ 8) fits in
                  read_u8_rule _ _ _ (omega arith) λ ttl _.
                    read_u8_rule _ _ _ (omega arith) λ proto _.
                      read_u32_rule _ _ _ (omega arith) λ src_ip src_word.
                        read_u32_rule _ _ _ (omega arith) λ dst_ip dst_word. yields λ _. (
                          record {
                            no_l4 = bare.no_l4;
                            no_payload = bare.no_payload;
                            no_length = bare.no_length;
                            no_src = bare.no_src;
                            no_dst = bare.no_dst;
                            no_seq = bare.no_seq;
                          },
                          record {
                            version_four = shape.0;
                            least = shape.1;
                            most = shape.2;
                            room = inside;
                            src_word = src_word;
                            dst_word = dst_word;
                          },
                          refl,
                          refl,
                        )

-- What the transport parsers return: they fail with no payload, or set all of it.
abbrev AfterL4 : List ℕ → Bool × ParsedPacket × ℕ → Type 0
AfterL4 bytes r = IsWellFormed bytes r.1

parse_tcp-Yields :
    (bytes : List ℕ) (p : ParsedPacket)
    → IsBare p
    → HasIp bytes p
    → p.has_ip ≡ true
    → p.protocol ≡ tcp
    → Yields (AfterL4 bytes) (parse_tcp bytes p (eth_header_len + p.ip_header_len))
unfolding parse_tcp
parse_tcp-Yields bytes p bare ip has is_tcp =
    choose_rule _ _ _ (λ _. yields (unset-IsWellFormed bytes p bare ip has))
      λ t.
        let fixed = ltb_false→le (length bytes) (eth_header_len + p.ip_header_len + 20) t in
        read_u16_rule _ _ _ (omega arith) λ src src_word.
          read_u16_rule _ _ _ (omega arith) λ dst dst_word.
            read_u32_rule _ _ _ (omega arith) λ seq seq_word.
              read_u32_rule _ _ _ (omega arith) λ ack _. read_u8_rule _ _ _ (omega arith) λ word _.
                let refused =
                  bare-IsWellFormed bytes p src dst seq ack bare ip has src_word dst_word
                    seq_word in
                choose_rule _ _ _ (λ _. yields refused)
                  λ sane.
                    choose_rule _ _ _ (λ _. yields refused)
                      λ fits. read_u8_rule _ _ _ (omega arith) λ flags _.
                        let shape = tcp_shape word sane in
                        let inside =
                          ltb_false→le (length bytes)
                            (eth_header_len + p.ip_header_len + word / 2 ^ 4 % 2 ^ 4 * 4 % 2 ^ 8)
                            fits in
                        yields (record {
                          ip = λ _. ip;
                          below = λ _. has;
                          payload_at = λ i e. ground arith;
                          given = λ _. ((λ e. cc), λ e. cc);
                          absent = λ e. cc;
                          tcp_header = λ _ _. shape;
                          src_word = src_word;
                          dst_word = dst_word;
                          seq_word = seq_word;
                        })

parse_udp-Yields :
    (bytes : List ℕ) (p : ParsedPacket)
    → IsBare p
    → HasIp bytes p
    → p.has_ip ≡ true
    → p.protocol ≡ udp
    → Yields (AfterL4 bytes) (parse_udp bytes p (eth_header_len + p.ip_header_len))
unfolding parse_udp
parse_udp-Yields bytes p bare ip has is_udp =
    choose_rule _ _ _ (λ _. yields (unset-IsWellFormed bytes p bare ip has))
      λ t.
        let fixed = ltb_false→le (length bytes) (eth_header_len + p.ip_header_len + 8) t in
        read_u16_rule _ _ _ (omega arith) λ src src_word.
          read_u16_rule _ _ _ (omega arith) λ dst dst_word.
            read_u16_rule _ _ _ (omega arith) λ udp_len _.
              choose_rule _ _ _
                (λ short. absurd (
                  omega
                    (arith, ltb→lt (length bytes) (eth_header_len + p.ip_header_len + 8) short)))
                λ _. yields (record {
                  ip = λ _. ip;
                  below = λ _. has;
                  payload_at = λ i e. ground (
                    arith,
                    udp_available udp_len (length bytes) (eth_header_len + p.ip_header_len + 8)
                        fixed,
                  );
                  given = λ _. ((λ e. cc), λ e. cc);
                  absent = λ e. cc;
                  tcp_header = λ _ e. cc;
                  src_word = src_word;
                  dst_word = dst_word;
                  seq_word = ground (arith, bare.no_seq);
                })

abbrev Accepted : List ℕ → Bool × ParsedPacket → Type 0
Accepted bytes r = r.0 ≡ true → IsWellFormed bytes r.1

parse_l4-Yields :
    (bytes : List ℕ) (p : ParsedPacket) (protocol : L4Protocol)
    → IsBare p
    → HasIp bytes p
    → p.has_ip ≡ true
    → p.protocol ≡ protocol
    → Yields (Accepted bytes) (parse_l4 bytes p (eth_header_len + p.ip_header_len) protocol)
unfolding parse_l4
parse_l4-Yields bytes p tcp bare ip has e =
    Yields-bind (parse_tcp-Yields bytes p bare ip has e) (λ r w. yields (λ _. w))
parse_l4-Yields bytes p udp bare ip has e =
    Yields-bind (parse_udp-Yields bytes p bare ip has e) (λ r w. yields (λ _. w))
parse_l4-Yields bytes p unknown bare ip has e = yields (λ _. record {
  ip = λ _. ip;
  below = λ _. has;
  payload_at = λ i f. ground (arith, ip.room);
  given = λ f. ground (arith, bare.no_l4);
  absent = λ f. cc;
  tcp_header = λ f. ground (arith, bare.no_l4);
  src_word = ground (arith, bare.no_src);
  dst_word = ground (arith, bare.no_dst);
  seq_word = ground (arith, bare.no_seq);
})

parse-Yields : (bytes : List ℕ) → Yields (Accepted bytes) (parse_steps bytes)
unfolding parse_steps
parse-Yields bytes = Yields-bind (parse_ethernet-Yields bytes) λ eth after_eth.
    choose_rule _ _ _ (λ _. yields (λ e. cc))
      λ eth_ok.
        let (bare, no_ip, at, room) = after_eth (ground arith) in
        choose_rule _ _ _
          (λ _. rw at (
            Yields-bind (parse_ipv4-Yields bytes eth.1 bare room) λ ip after_ip.
              choose_rule _ _ _ (λ _. yields (λ e. cc))
                λ ip_ok.
                  let (bare', fields, has, at') = after_ip (ground arith) in
                  rw at' (parse_l4-Yields bytes ip.1 ip.1.protocol bare' fields has refl)))
          λ _. yields (λ _. no_ip-IsWellFormed bytes eth.1 bare no_ip)

-- For any bytes the parser never reads outside the buffer, and a packet that it accepts is well
-- formed: header lengths in their ranges, the payload where the lengths put it and inside the
-- buffer, ports, addresses and the sequence number in their words, and a transport header only above an IPv4 one.
pub parse_safe :
    (bytes : List ℕ)
    → (accepted : Bool) × (out : ParsedPacket) × (parse bytes ≡ some (accepted, out))
      × (accepted ≡ true → IsWellFormed bytes out)
unfolding parse
parse_safe bytes = let (r, e, w) = Yields-some (parse-Yields bytes) in (r.0, r.1, e, w)
