-- ===== src/Rules/Domains.antt =====
-- Which host names a domain rule matches.
use flow_dpi.Prelude.{
  ℕ, ◌+◌, ◌-◌, ◌≤◌, ◌<◌, ◌≡◌, ◌≢◌, ◌↔◌, ◌⊎◌, inl, inr, refl, List, [], ◌∷◌, ◌++◌, length, drop,
  take, take-append-drop, true, false, arith, Bool-cases, sym, ap, ◌∙◌, suc, length-take,
  length-append, All, drop-length_append,
}
use flow_dpi.Prelude.Text.{list_eq, list_eq→eq, list_eq_refl}
use flow_dpi.Rules.{BlockRules, matches_rule, first_match, match_blocked_domain}

-- The tests of `matchesRule` behind the first.
suffix_tests :
    (hostname rule : List ℕ)
    → list_eq hostname rule ≡ false
    → matches_rule hostname rule ≡ true
    → (length rule + 1 < length hostname)
      × (list_eq (drop (length hostname - (length rule + 1)) hostname) (b'.' ∷ rule) ≡ true)
unfolding matches_rule
suffix_tests hostname rule other h =
    let one : suc (length rule) ≡ length rule + 1 = omega arith in rw (← one) (ground arith)

suffix_matches :
    (hostname rule : List ℕ)
    → suc (length rule) < length hostname
    → drop (length hostname - suc (length rule)) hostname ≡ b'.' ∷ rule
    → matches_rule hostname rule ≡ true
unfolding matches_rule
suffix_matches hostname rule long e =
    ground (arith, ap (λ t. list_eq t (b'.' ∷ rule)) e, list_eq_refl (b'.' ∷ rule))

take-ne_nil : (n : ℕ) (xs : List ℕ) → 0 < n → n ≤ length xs → take n xs ≢ []
take-ne_nil n xs h l e = absurd (omega (arith, length-take n xs, ap length e))

matches_rule_refl : (rule : List ℕ) → matches_rule rule rule ≡ true
unfolding matches_rule
matches_rule_refl rule = rw (list_eq_refl rule)

length-ne_zero : (xs : List ℕ) → xs ≢ [] → 0 < length xs
length-ne_zero [] h = absurd (h refl)
length-ne_zero (x ∷ xs) h = omega arith

-- A rule matches a host name exactly when the name is the rule's, or ends in a dot and the rule
-- behind at least one more byte: a shared suffix without the dot is no match.
pub matches_rule_iff :
    (hostname rule : List ℕ)
    → (matches_rule hostname rule ≡ true) ↔ (
        (hostname ≡ rule)
        ⊎ ((prefix : List ℕ) × (prefix ≢ []) × (hostname ≡ prefix ++ (b'.' ∷ rule))))
matches_rule_iff hostname rule = (forward, backward)
  where
    forward :
        matches_rule hostname rule ≡ true
        → (hostname ≡ rule)
          ⊎ ((prefix : List ℕ) × (prefix ≢ []) × (hostname ≡ prefix ++ (b'.' ∷ rule)))
    forward h = elim (Bool-cases (list_eq hostname rule)) [
      | inl exact ↦ inl (list_eq→eq hostname rule exact)
      | inr other ↦
          let (long, ends) = suffix_tests hostname rule other h in
          let n = length hostname - (length rule + 1) in
          inr (
            take n hostname,
            take-ne_nil n hostname (omega arith) (omega arith),
            sym (take-append-drop n hostname)
                ∙ ap (λ t. take n hostname ++ t) (list_eq→eq (drop n hostname) (b'.' ∷ rule) ends),
          )
    ]

    from_prefix :
        (prefix : List ℕ) → prefix ≢ [] → matches_rule (prefix ++ (b'.' ∷ rule)) rule ≡ true
    from_prefix prefix some_bytes =
        suffix_matches (prefix ++ (b'.' ∷ rule)) rule
          (omega (arith, length-append prefix (b'.' ∷ rule), length-ne_zero prefix some_bytes))
          (ap (λ n. drop n (prefix ++ (b'.' ∷ rule)))
              (omega (arith, length-append prefix (b'.' ∷ rule)))
            ∙ drop-length_append prefix (b'.' ∷ rule))

    backward :
        (hostname ≡ rule)
          ⊎ ((prefix : List ℕ) × (prefix ≢ []) × (hostname ≡ prefix ++ (b'.' ∷ rule)))
        → matches_rule hostname rule ≡ true
    backward (inl e) = rw e (matches_rule_refl rule)
    backward (inr (prefix, some_bytes, e)) = rw e (from_prefix prefix some_bytes)

abbrev Misses : List ℕ → List ℕ → Type 0
Misses hostname rule = matches_rule hostname rule ≡ false

-- What `matchBlockedDomain` promises of its answer.
abbrev pub Answers : List (List ℕ) → List ℕ → List ℕ → Type 0
Answers rules hostname answer =
    ((answer ≡ []) × All (Misses hostname) rules)
    ⊎ ((before : List (List ℕ)) × (after : List (List ℕ)) × (rules ≡ before ++ (answer ∷ after))
        × All (Misses hostname) before
        × (matches_rule hostname answer ≡ true)
        × (answer ≢ []))

first_match-Answers :
    (rules : List (List ℕ)) (hostname : List ℕ)
    → All (λ rule. rule ≢ []) rules
    → Answers rules hostname (first_match rules hostname)
unfolding first_match
first_match-Answers [] hostname named = inl (refl, tt)
first_match-Answers (rule ∷ rules) hostname named = elim (Bool-cases (matches_rule hostname rule)) [
  | inl hit ↦ inr ([], rules, rw hit, tt, rw hit hit, rw hit named.0)
  | inr miss ↦ elim (first_match-Answers rules hostname named.1) [
    | inl (e, all) ↦ inl (rw miss e, (miss, all))
    | inr (before, after, e, all, hit, some_bytes) ↦ inr (
      rule ∷ before,
      after,
      rw miss (ap (◌∷◌ rule) e),
      (miss, all),
      rw miss hit,
      rw miss some_bytes,
    )
  ]
]

-- With no empty rule among the domains, `matchBlockedDomain` answers with the first rule that
-- matches the host name, and with the empty string only when none does.
pub match_blocked_domain-Answers :
    (r : BlockRules) (hostname : List ℕ)
    → All (λ rule. rule ≢ []) r.blocked_domains
    → Answers r.blocked_domains hostname (match_blocked_domain r hostname)
unfolding match_blocked_domain
match_blocked_domain-Answers r hostname named = first_match-Answers r.blocked_domains hostname named
