-- ===== src/Rules/Sets.antt =====
-- Which addresses and ports are blocked after a rule is added.
use flow_dpi.Prelude.{
  ℕ, ◌^◌, ◌<◌, ◌≡◌, ◌∙◌, ap, refl, List, [], ◌∷◌, Bool, true, false, ◌||◌, ◌&&◌, ◌==◌, arith,
}
use flow_dpi.Types.{L4Protocol, unknown, tcp, udp, protocol_number}
use flow_dpi.Rules.{
  BlockRules, contains, insert, add_blocked_ip, is_blocked_ip, port_key, add_blocked_port,
  is_blocked_port,
}

contains-insert : (a b : ℕ) (xs : List ℕ) → contains (insert a xs) b ≡ (a == b || contains xs b)
unfolding insert contains
contains-insert a b [] = refl
contains-insert a b (x ∷ xs) = ground (arith, contains-insert a b xs)

-- After `addBlockedIp` exactly the new address and those blocked before are blocked.
pub is_blocked_ip-add_blocked_ip :
    (r : BlockRules) (ip other : ℕ)
    → is_blocked_ip (add_blocked_ip r ip) other ≡ (ip == other || is_blocked_ip r other)
unfolding is_blocked_ip add_blocked_ip
is_blocked_ip-add_blocked_ip r ip other = contains-insert ip other r.blocked_ips

-- The transports that a port rule can name.
abbrev pub is_transport : L4Protocol → Bool
is_transport unknown = false
is_transport p = true

abbrev pub same_protocol : L4Protocol → L4Protocol → Bool
same_protocol p q = protocol_number p == protocol_number q

port_key-eq :
    (p q : L4Protocol) (a b : ℕ)
    → a < 2 ^ 16
    → b < 2 ^ 16
    → (port_key p a == port_key q b) ≡ (same_protocol p q && a == b)
unfolding port_key
port_key-eq p q a b ha hb = ground arith

-- After `addBlockedPort` exactly the new port of that transport, if it is TCP or UDP, and the ports
-- blocked before are blocked: the two transports do not mix.
pub is_blocked_port-add_blocked_port :
    (r : BlockRules) (p q : L4Protocol) (port other : ℕ)
    → port < 2 ^ 16
    → other < 2 ^ 16
    → is_blocked_port (add_blocked_port r p port) q other
      ≡ ((is_transport p && (same_protocol p q && port == other)) || is_blocked_port r q other)
unfolding is_blocked_port add_blocked_port
is_blocked_port-add_blocked_port r tcp q port other h k =
    contains-insert (port_key tcp port) (port_key q other) r.blocked_ports
    ∙ ap (λ b. b || contains r.blocked_ports (port_key q other)) (port_key-eq tcp q port other h k)
is_blocked_port-add_blocked_port r udp q port other h k =
    contains-insert (port_key udp port) (port_key q other) r.blocked_ports
    ∙ ap (λ b. b || contains r.blocked_ports (port_key q other)) (port_key-eq udp q port other h k)
is_blocked_port-add_blocked_port r unknown q port other h k = refl
