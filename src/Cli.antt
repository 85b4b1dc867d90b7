-- ===== src/Cli.antt =====
-- src/main.cpp: the options of the command line. An argument is the list of its bytes.
pub mod Main
pub mod Exits
mod Explained
pub mod Live
pub mod Ports
mod Addresses
mod Tests
use flow_dpi.Prelude.{
  drop, ◌++◌, not, suc, ◌-◌, ◌%◌, leb, Bool, ◌&&◌, ℕ, ◌+◌, ◌*◌, ◌^◌, List, [], ◌∷◌, length, ◌||◌,
  Option, none, some, ltb, ◌==◌, if◌then◌else◌,
}
use flow_dpi.Prelude.Fallible.{◌>>=◌}
use flow_dpi.Prelude.Text.{list_eq}
use flow_dpi.Types.{tcp, udp}
use flow_dpi.Rules.{BlockRules, add_blocked_ip, add_blocked_domain, add_blocked_port}
use flow_dpi.Engine.Describe.{codes}

-- What the loop over the arguments sets, and what is on the error stream so far.
pub record Settings : Type 0 where
  pub rules : BlockRules
  pub num_workers : ℕ
  pub errors : List ℕ

-- How the loop ends: with its settings, at an argument that is not known, or by what `std::stoul`
-- throws; the last two with the error stream.
pub data Outcome : Type 0 where
  proceeds : Settings → Outcome
  refused thrown : List ℕ → Outcome

-- A message on the error stream, up to the end of its line.
unfoldable pub complain : Settings → List ℕ → List ℕ → Settings
complain s message value = record s { errors = s.errors ++ (message ++ (value ++ codes "\n")) }

-- The digits in front of a text: their value behind `value`, and how many follow the `taken`.
unfoldable pub read_digits : ℕ → ℕ → List ℕ → ℕ × ℕ
read_digits value taken [] = (value, taken)
read_digits value taken (c ∷ cs) =
    let rest = read_digits (value * 10 + (c - b'0')) (suc taken) cs in
    if ltb c b'0' || ltb b'9' c then (value, taken) else rest

-- `std::from_chars` for an `unsigned` of 32 bits: the value and the number of bytes that it took, or
-- `none` for an error, which is a text without a digit in front or a value that does not fit.
unfoldable pub from_chars : List ℕ → Option (ℕ × ℕ)
from_chars s =
    let (value, taken) = read_digits 0 0 s in
    if taken == 0 || ltb (2 ^ 32 - 1) value then none else some (value, taken)

-- `std::stoul` where an `unsigned long` has 64 bits: white space, a sign and digits; what follows them
-- is not looked at, a minus sign negates modulo 2 ^ 64, and `none` is an exception.
abbrev pub is_space : ℕ → Bool
is_space c = c == b' ' || (leb 9 c && leb c 13)

unfoldable pub unsigned_long : (ℕ → ℕ) → List ℕ → Option ℕ
unsigned_long sign s =
    let (value, taken) = read_digits 0 0 s in
    if taken == 0 || ltb (2 ^ 64 - 1) value then none else some (sign value)

unfoldable pub stoul : List ℕ → Option ℕ
stoul [] = none
stoul (c ∷ cs) =
    let rest = stoul cs in
    if is_space c
    then rest
    else (if c == b'-'
        then unsigned_long (λ v. (2 ^ 64 - v) % 2 ^ 64) cs
        else (if c == b'+' then unsigned_long (λ v. v) cs else unsigned_long (λ v. v) (c ∷ cs)))

abbrev pub unknown_argument : List ℕ → Settings → Outcome
unknown_argument arg s = refused (complain s (codes "Unknown argument: ") arg).errors

-- `%u` of `sscanf`, behind white space and a sign: what it stores, and the text behind it. A minus
-- sign negates modulo 2 ^ 32; a number that does not fit 32 bits is stored as the C library will.
unfoldable pub fitting : (ℕ → ℕ) → ℕ → ℕ
fitting stored v = if ltb (2 ^ 32 - 1) v then stored v else v

unfoldable pub scan_digits : (ℕ → ℕ) → List ℕ → Option (ℕ × List ℕ)
scan_digits store s =
    let (value, taken) = read_digits 0 0 s in
    if taken == 0 then none else some (store value, drop taken s)

unfoldable pub scan_unsigned : (ℕ → ℕ) → List ℕ → Option (ℕ × List ℕ)
scan_unsigned stored [] = none
scan_unsigned stored (c ∷ cs) =
    let rest = scan_unsigned stored cs in
    if is_space c
    then rest
    else (if c == b'-'
        then scan_digits (λ v. (2 ^ 32 - fitting stored v) % 2 ^ 32) cs
        else (if c == b'+'
            then scan_digits (fitting stored) cs
            else scan_digits (fitting stored) (c ∷ cs)))

-- A character of the format.
unfoldable pub expect : ℕ → List ℕ → Option (List ℕ)
expect c [] = none
expect c (x ∷ xs) = if x == c then some xs else none

-- `sscanf` with `%u.%u.%u.%u`, when it gives four numbers; what follows them is not looked at.
unfoldable pub scan_dotted : (ℕ → ℕ) → List ℕ → Option (ℕ × ℕ × ℕ × ℕ)
unfolding ◌>>=◌
scan_dotted stored s = do
  a ← scan_unsigned stored s
  s1 ← expect b'.' a.1
  b ← scan_unsigned stored s1
  s2 ← expect b'.' b.1
  c ← scan_unsigned stored s2
  s3 ← expect b'.' c.1
  d ← scan_unsigned stored s3
  some (a.0, b.0, c.0, d.0)

module _ (stored : ℕ → ℕ) where
  -- `parseIpv4`; each part has eight bits behind the test, so `|` is a sum.
  unfoldable pub parse_ipv4 : List ℕ → Option ℕ
  parse_ipv4 s = scan_dotted stored s >>= λ n.
      if ltb 255 n.0 || (ltb 255 n.1 || (ltb 255 n.2 || ltb 255 n.3))
      then none
      else some (n.0 * 2 ^ 24 + n.1 * 2 ^ 16 + n.2 * 2 ^ 8 + n.3)

  -- `parsePort`
  unfoldable pub parse_port : List ℕ → Option ℕ
  parse_port s = from_chars s >>= λ read.
      if not (read.1 == length s) || ltb 65535 read.0 then none else some read.0

  -- What is done with the answer of parseIpv4, and the option.
  unfoldable pub add_parsed_ip : List ℕ → Settings → Option ℕ → Settings
  add_parsed_ip value s none = complain s (codes "Invalid IP, skipping: ") value
  add_parsed_ip value s (some ip) = record s { rules = add_blocked_ip s.rules ip }

  unfoldable pub block_ip : List ℕ → Settings → Settings
  block_ip value s = add_parsed_ip value s (parse_ipv4 value)

  -- What is done with the answer of parsePort.
  unfoldable pub add_parsed_port : List ℕ → List ℕ → Settings → Option ℕ → Settings
  add_parsed_port protocol value s none = complain s (codes "Invalid port, skipping: ") value
  add_parsed_port protocol value s (some port) =
      if list_eq protocol (codes "tcp")
      then record s { rules = add_blocked_port s.rules tcp port }
      else (if list_eq protocol (codes "udp")
          then record s { rules = add_blocked_port s.rules udp port }
          else complain s (codes "Invalid transport protocol (use tcp or udp): ") protocol)

  unfoldable pub block_port : List ℕ → List ℕ → Settings → Settings
  block_port protocol value s = add_parsed_port protocol value s (parse_port value)

  -- An option with one value: the settings behind it, or how the loop ends.
  unfoldable pub one_value : List ℕ → List ℕ → Settings → (Settings → Outcome) → Outcome
  one_value arg value s go_on =
      let workers : Outcome = elim (stoul value) [
        | none ↦ thrown s.errors
        | some n ↦ go_on (record s { num_workers = if n == 0 then 1 else n })
      ] in
      if list_eq arg (codes "--block-ip")
      then go_on (block_ip value s)
      else (if list_eq arg (codes "--block-domain")
          then go_on (record s { rules = add_blocked_domain s.rules value })
          else (if list_eq arg (codes "--workers") then workers else unknown_argument arg s))

  -- The loop over the arguments.
  unfoldable pub read_arguments : List (List ℕ) → Settings → Outcome
  read_arguments [] s = proceeds s
  read_arguments (arg ∷ []) s = unknown_argument arg s
  read_arguments (arg ∷ value ∷ []) s = one_value arg value s proceeds
  read_arguments (arg ∷ value ∷ second ∷ rest) s =
      if list_eq arg (codes "--block-port")
      then read_arguments rest (block_port value second s)
      else one_value arg value s (read_arguments (second ∷ rest))
