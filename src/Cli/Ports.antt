-- ===== src/Cli/Ports.antt =====
-- A port on the command line: parsePort against the decimal print of a number, and what the option
-- adds to the rules.
use flow_dpi.Prelude.{
  ℕ, zero, suc, ◌+◌, ◌-◌, ◌*◌, ◌/◌, ◌%◌, ◌^◌, ◌<◌, ◌≡◌, refl, ap, ◌∙◌, List, [], ◌∷◌, length, false,
  ◌&&◌, ◌||◌, some, ltb, ◌==◌, ==_refl, ne→==, le→ltb, Bool-cases, inl, inr, ltb→lt, ltb_false→le,
  arith,
}
use flow_dpi.Prelude.Fallible.{bind-some}
use flow_dpi.Prelude.Text.{to_string, digits_onto, list_eq}
use flow_dpi.Types.{L4Protocol, tcp}
use flow_dpi.Rules.{add_blocked_port, is_blocked_port}
use flow_dpi.Rules.Sets.{same_protocol, is_blocked_port-add_blocked_port}
use flow_dpi.Engine.Describe.{codes}
use flow_dpi.Cli.{
  Settings, proceeds, read_digits, from_chars, parse_port, add_parsed_port, block_port,
  read_arguments,
}

-- One more digit is read.
read_digits-digit :
    (value taken d : ℕ) (tail : List ℕ)
    → d < 10
    → read_digits value taken ((b'0' + d) ∷ tail) ≡ read_digits (value * 10 + d) (suc taken) tail
unfolding read_digits
read_digits-digit value taken d tail h =
    rw (is_digit d h) (ap (λ v. read_digits (value * 10 + v) (suc taken) tail) (same d))
  where
    is_digit : (d : ℕ) → d < 10 → (ltb (b'0' + d) b'0' || ltb b'9' (b'0' + d)) ≡ false
    is_digit d h = ground arith

    same : (d : ℕ) → b'0' + d - b'0' ≡ d
    same d = omega arith

-- The digits of a number, in front of a text, are read as that number.
pub read_digits-digits_onto :
    (fuel n : ℕ) (tail : List ℕ)
    → n < fuel
    → (k : ℕ) × (length (digits_onto fuel n tail) ≡ suc k + length tail)
      × (read_digits 0 0 (digits_onto fuel n tail) ≡ read_digits n (suc k) tail)
unfolding digits_onto
read_digits-digits_onto zero n tail h = absurd (omega arith)
read_digits-digits_onto (suc fuel) n tail h = elim (Bool-cases (ltb n 10)) [
  | inl last ↦
      let small = ltb→lt n 10 last in
      (
        0,
        rw last (omega arith),
        rw last (
            read_digits-digit 0 0 (n % 10) tail (omega arith)
            ∙ ap (λ v. read_digits v 1 tail) (omega (arith, small))),
      )
  | inr more ↦
      let large = ltb_false→le n 10 more in
      let (k, l, e) =
        read_digits-digits_onto fuel (n / 10) ((b'0' + n % 10) ∷ tail) (omega (arith, h, large)) in
      (
        suc k,
        rw more (omega (arith, l)),
        rw more (
            e
            ∙ read_digits-digit (n / 10) (suc k) (n % 10) tail (omega arith)
            ∙ ap (λ v. read_digits v (suc (suc k)) tail) (omega arith)),
      )
]

from_chars-to_string :
    (n : ℕ) → n < 2 ^ 16 → from_chars (to_string n) ≡ some (n, length (to_string n))
unfolding from_chars to_string read_digits
from_chars-to_string n h =
    let (k, l, e) = read_digits-digits_onto (suc n) n [] (omega arith) in
    rw (e, ne→== (suc k) 0 (λ f. absurd (omega arith)), le→ltb (2 ^ 32 - 1) n (omega arith))
      (ap (λ m. some (n, m)) (omega (arith, l)))

module _ (stored : ℕ → ℕ) where
  parse_port-to_string : (n : ℕ) → n < 2 ^ 16 → parse_port stored (to_string n) ≡ some n
  unfolding parse_port
  parse_port-to_string n h =
      bind-some _ (from_chars-to_string n h)
        (rw (==_refl (length (to_string n)), le→ltb 65535 n (omega arith)) refl)

-- The option for a TCP port, with the decimal print of any port: the loop accepts it, leaves the
-- number of workers, says nothing on the error stream, and afterwards exactly that TCP port and the ports blocked before are blocked.
pub read_arguments-block_port :
    (stored : ℕ → ℕ) (s : Settings) (port : ℕ)
    → port < 2 ^ 16
    → (s' : Settings) × (read_arguments stored
          (codes "--block-port" ∷ codes "tcp" ∷ to_string port ∷ [])
          s
        ≡ proceeds s')
      × (s'.num_workers ≡ s.num_workers)
      × (s'.errors ≡ s.errors)
      × ((q : L4Protocol) (other : ℕ)
          → other < 2 ^ 16
          → is_blocked_port s'.rules q other
            ≡ ((same_protocol tcp q && port == other) || is_blocked_port s.rules q other))
unfolding read_arguments block_port add_parsed_port list_eq
read_arguments-block_port stored s port h = (
  record s { rules = add_blocked_port s.rules tcp port },
  ap (λ o. proceeds (add_parsed_port stored (codes "tcp") (to_string port) s o))
      (parse_port-to_string stored port h),
  refl,
  refl,
  λ q other k. is_blocked_port-add_blocked_port s.rules tcp q port other h k,
)
