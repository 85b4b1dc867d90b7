-- ===== src/Rules.antt =====
-- src/block_rules.cpp and include/block_rules.h: the rules that traffic is matched against.
mod Domains
pub mod Sets
mod Tests
use flow_dpi.Prelude.{
  ℕ, ◌+◌, ◌-◌, ◌*◌, ◌^◌, List, [], ◌∷◌, ◌++◌, length, drop, Bool, true, false, ◌||◌, leb, ◌==◌,
  if◌then◌else◌,
}
use flow_dpi.Prelude.Text.{list_eq}
use flow_dpi.Types.{L4Protocol, unknown, tcp, udp, protocol_number}

-- The members of an `unordered_set<uint32_t>`.
unfoldable pub contains : List ℕ → ℕ → Bool
contains [] a = false
contains (x ∷ xs) a = x == a || contains xs a

unfoldable pub insert : ℕ → List ℕ → List ℕ
insert a xs = if contains xs a then xs else a ∷ xs

-- `BlockRules`; a domain is the list of its bytes.
pub record BlockRules : Type 0 where
  pub blocked_ips : List ℕ
  pub blocked_ports : List ℕ
  pub blocked_domains : List (List ℕ)

abbrev pub no_rules : BlockRules
no_rules = record { blocked_ips = []; blocked_ports = []; blocked_domains = [] }

-- `matchesRule`; `drop` gives the last `suffix.size()` bytes.
unfoldable pub matches_rule : List ℕ → List ℕ → Bool
matches_rule hostname rule =
    let suffix = b'.' ∷ rule in
    let ends = list_eq (drop (length hostname - length suffix) hostname) suffix in
    if list_eq hostname rule
    then true
    else (if leb (length hostname) (length suffix) then false else ends)

-- `addBlockedIp`
unfoldable pub add_blocked_ip : BlockRules → ℕ → BlockRules
add_blocked_ip r ip = record r { blocked_ips = insert ip r.blocked_ips }

-- `addBlockedDomain`
unfoldable pub add_blocked_domain : BlockRules → List ℕ → BlockRules
add_blocked_domain r domain = record r { blocked_domains = r.blocked_domains ++ (domain ∷ []) }

-- `portKey`; a port has sixteen bits, so `|` is a sum.
unfoldable pub port_key : L4Protocol → ℕ → ℕ
port_key protocol port = protocol_number protocol * 2 ^ 16 + port

-- `addBlockedPort`
unfoldable pub add_blocked_port : BlockRules → L4Protocol → ℕ → BlockRules
add_blocked_port r tcp port = record r {
  blocked_ports = insert (port_key tcp port) r.blocked_ports;
}
add_blocked_port r udp port = record r {
  blocked_ports = insert (port_key udp port) r.blocked_ports;
}
add_blocked_port r unknown port = r

-- `isBlockedIp`
unfoldable pub is_blocked_ip : BlockRules → ℕ → Bool
is_blocked_ip r ip = contains r.blocked_ips ip

-- `isBlockedPort`
unfoldable pub is_blocked_port : BlockRules → L4Protocol → ℕ → Bool
is_blocked_port r protocol port = contains r.blocked_ports (port_key protocol port)

-- The loop of `matchBlockedDomain`: the first rule that matches, or the empty string.
unfoldable pub first_match : List (List ℕ) → List ℕ → List ℕ
first_match [] hostname = []
first_match (rule ∷ rules) hostname =
    if matches_rule hostname rule then rule else first_match rules hostname

-- `matchBlockedDomain`
unfoldable pub match_blocked_domain : BlockRules → List ℕ → List ℕ
match_blocked_domain r hostname = first_match r.blocked_domains hostname
