-- ===== src/Cli/Addresses.antt =====
-- An address on the command line: parseIpv4 against ipToString, and what the option adds to the rules.
use flow_dpi.Prelude.{
  ==_refl, ℕ, zero, suc, ◌+◌, ◌-◌, ◌/◌, ◌%◌, ◌^◌, ◌<◌, ◌≡◌, refl, ap, sym, subst, ◌∙◌, List, [],
  ◌∷◌, ◌++◌, append_assoc, length, length-append, drop, drop-length_append, true, false, ◌||◌, some,
  ltb, ◌==◌, ne→==, le→ltb, Bool-cases, inl, inr, ltb_false→le, arith,
}
use flow_dpi.Prelude.Fallible.{bind-some}
use flow_dpi.Prelude.Text.{to_string, digits_onto, list_eq}
use flow_dpi.Rules.{add_blocked_ip, is_blocked_ip}
use flow_dpi.Rules.Sets.{is_blocked_ip-add_blocked_ip}
use flow_dpi.Engine.Describe.{codes, ip_to_string}
use flow_dpi.Cli.{
  Settings, proceeds, read_digits, is_space, fitting, scan_digits, scan_unsigned, expect,
  scan_dotted, parse_ipv4, add_parsed_ip, block_ip, one_value, read_arguments,
}
use flow_dpi.Cli.Ports.{read_digits-digits_onto}

digits_onto-append :
    (fuel n : ℕ) (xs ys : List ℕ) → digits_onto fuel n (xs ++ ys) ≡ digits_onto fuel n xs ++ ys
unfolding digits_onto
digits_onto-append zero n xs ys = refl
digits_onto-append (suc fuel) n xs ys = elim (Bool-cases (ltb n 10)) [
  | inl last ↦ rw last refl
  | inr more ↦ rw more (digits_onto-append fuel (n / 10) ((b'0' + n % 10) ∷ xs) ys)
]

-- The print of a number starts with a digit.
digits_onto-first :
    (fuel n : ℕ) (tail : List ℕ)
    → n < fuel
    → (d : ℕ) × (rest : List ℕ) × (digits_onto fuel n tail ≡ (b'0' + d) ∷ rest) × (d < 10)
unfolding digits_onto
digits_onto-first zero n tail h = absurd (omega arith)
digits_onto-first (suc fuel) n tail h = elim (Bool-cases (ltb n 10)) [
  | inl last ↦ (n % 10, tail, rw last refl, omega arith)
  | inr more ↦
      let large = ltb_false→le n 10 more in
      let (d, rest, e, small) =
        digits_onto-first fuel (n / 10) ((b'0' + n % 10) ∷ tail) (omega (arith, h, large)) in
      (d, rest, rw more e, small)
]

-- The text does not go on with a digit.
abbrev pub IsEnd : List ℕ → Type 0
IsEnd [] = Unit
IsEnd (c ∷ cs) = (ltb c b'0' || ltb b'9' c) ≡ true

read_digits-IsEnd :
    (value taken : ℕ) (tail : List ℕ) → IsEnd tail → read_digits value taken tail ≡ (value, taken)
unfolding read_digits
read_digits-IsEnd value taken [] end = refl
read_digits-IsEnd value taken (c ∷ cs) end = rw end refl

to_string-append : (n : ℕ) (tail : List ℕ) → digits_onto (suc n) n tail ≡ to_string n ++ tail
unfolding to_string
to_string-append n tail = digits_onto-append (suc n) n [] tail

drop-digits_onto :
    (n k : ℕ) (tail : List ℕ)
    → length (digits_onto (suc n) n tail) ≡ k + length tail
    → drop k (digits_onto (suc n) n tail) ≡ tail
drop-digits_onto n k tail e =
    let same : length (to_string n) ≡ k =
      omega (arith, e, ap length (to_string-append n tail), length-append (to_string n) tail) in
    ap (drop k) (to_string-append n tail)
    ∙ subst (λ m. drop m (to_string n ++ tail) ≡ tail) same (drop-length_append (to_string n) tail)

-- The four parts of an address, in front of a text.
dotted-append :
    (a b c d tail : List ℕ)
    → (a ++ (b'.' ∷ (b ++ (b'.' ∷ (c ++ (b'.' ∷ d)))))) ++ tail
      ≡ a ++ (b'.' ∷ (b ++ (b'.' ∷ (c ++ (b'.' ∷ (d ++ tail))))))
dotted-append a b c d tail = simp append_assoc

expect-here : (c : ℕ) (xs : List ℕ) → expect c (c ∷ xs) ≡ some xs
unfolding expect
expect-here c xs = rw (==_refl c) refl

-- A digit is neither white space nor a sign.
is_space-digit : (d : ℕ) → d < 10 → is_space (b'0' + d) ≡ false
is_space-digit d small = ground arith

no_sign : (d c : ℕ) → c < 48 → (b'0' + d == c) ≡ false
no_sign d c h = ne→== (b'0' + d) c (λ e. omega (arith, e, h))

module _ (stored : ℕ → ℕ) where
  scan_unsigned-digit :
      (d : ℕ) (rest : List ℕ)
      → d < 10
      → scan_unsigned stored ((b'0' + d) ∷ rest) ≡ scan_digits (fitting stored) ((b'0' + d) ∷ rest)
  unfolding scan_unsigned
  scan_unsigned-digit d rest small =
      rw (is_space-digit d small, no_sign d b'-' (omega arith), no_sign d b'+' (omega arith)) refl

  scan_digits-digits_onto :
      (n : ℕ) (tail : List ℕ)
      → n < 2 ^ 32
      → IsEnd tail
      → scan_digits (fitting stored) (digits_onto (suc n) n tail) ≡ some (n, tail)
  unfolding scan_digits fitting
  scan_digits-digits_onto n tail fits end =
      let (k, l, f) = read_digits-digits_onto (suc n) n tail (omega arith) in
      rw
        (
          f ∙ read_digits-IsEnd n (suc k) tail end,
          ne→== (suc k) 0 (λ e. absurd (omega (arith, e))),
          le→ltb (2 ^ 32 - 1) n (omega arith),
        )
        (ap (λ rest. some (n, rest)) (drop-digits_onto n (suc k) tail l))

  scan_unsigned-to_string :
      (n : ℕ) (tail : List ℕ)
      → n < 2 ^ 32
      → IsEnd tail
      → scan_unsigned stored (to_string n ++ tail) ≡ some (n, tail)
  scan_unsigned-to_string n tail fits end =
      let (d, rest, e, small) = digits_onto-first (suc n) n tail (omega arith) in
      ap (scan_unsigned stored) (sym (to_string-append n tail) ∙ e)
      ∙ scan_unsigned-digit d rest small
      ∙ ap (scan_digits (fitting stored)) (sym e)
      ∙ scan_digits-digits_onto n tail fits end

  -- The four numbers of a printed address, in front of any text that does not go on with a digit.
  scan_dotted-to_string :
      (a b c d : ℕ) (tail : List ℕ)
      → a < 2 ^ 8
      → b < 2 ^ 8
      → c < 2 ^ 8
      → d < 2 ^ 8
      → IsEnd tail
      → scan_dotted stored (
          to_string a
          ++ (b'.' ∷ (to_string b ++ (b'.' ∷ (to_string c ++ (b'.' ∷ (to_string d ++ tail)))))))
        ≡ some (a, b, c, d)
  unfolding scan_dotted
  scan_dotted-to_string a b c d tail ha hb hc hd end =
      let t3 = b'.' ∷ (to_string d ++ tail) in
      let t2 = b'.' ∷ (to_string c ++ t3) in
      let t1 = b'.' ∷ (to_string b ++ t2) in
      bind-some _ (scan_unsigned-to_string a t1 (omega arith) refl) (
        bind-some _ (expect-here b'.' (to_string b ++ t2)) (
          bind-some _ (scan_unsigned-to_string b t2 (omega arith) refl) (
            bind-some _ (expect-here b'.' (to_string c ++ t3)) (
              bind-some _ (scan_unsigned-to_string c t3 (omega arith) refl) (
                bind-some _ (expect-here b'.' (to_string d ++ tail))
                  (bind-some _ (scan_unsigned-to_string d tail (omega arith) end) refl))))))

  parse_ipv4-ip_to_string :
      (ip : ℕ) (tail : List ℕ)
      → ip < 2 ^ 32
      → IsEnd tail
      → parse_ipv4 stored (ip_to_string ip ++ tail) ≡ some ip
  unfolding parse_ipv4 ip_to_string
  parse_ipv4-ip_to_string ip tail fits end =
      let a = ip / 2 ^ 24 % 2 ^ 8 in
      let b = ip / 2 ^ 16 % 2 ^ 8 in
      let c = ip / 2 ^ 8 % 2 ^ 8 in
      let d = ip % 2 ^ 8 in
      bind-some _
        (ap (scan_dotted stored)
            (dotted-append (to_string a) (to_string b) (to_string c) (to_string d) tail)
          ∙ scan_dotted-to_string a b c d tail (omega arith) (omega arith) (omega arith)
              (omega arith) end)
        (rw
          (
            le→ltb 255 a (omega arith),
            le→ltb 255 b (omega arith),
            le→ltb 255 c (omega arith),
            le→ltb 255 d (omega arith),
          )
          (ap some (omega arith)))

-- The option for an address, with the print of any address in front of any text that does not go on
-- with a digit, so of none, but also of one that is no part of an address: the loop accepts it, leaves
-- the number of workers, says nothing on the error stream, and afterwards exactly that address and
-- those blocked before are blocked.
pub read_arguments-block_ip :
    (stored : ℕ → ℕ) (s : Settings) (ip : ℕ) (tail : List ℕ)
    → ip < 2 ^ 32
    → IsEnd tail
    → (s' : Settings) × (read_arguments stored
          (codes "--block-ip" ∷ (ip_to_string ip ++ tail) ∷ [])
          s
        ≡ proceeds s')
      × (s'.num_workers ≡ s.num_workers)
      × (s'.errors ≡ s.errors)
      × ((other : ℕ) → is_blocked_ip s'.rules other ≡ (ip == other || is_blocked_ip s.rules other))
unfolding read_arguments one_value block_ip add_parsed_ip list_eq
read_arguments-block_ip stored s ip tail fits end = (
  record s { rules = add_blocked_ip s.rules ip },
  ap (λ o. proceeds (add_parsed_ip stored (ip_to_string ip ++ tail) s o))
      (parse_ipv4-ip_to_string stored ip tail fits end),
  refl,
  refl,
  is_blocked_ip-add_blocked_ip s.rules ip,
)
