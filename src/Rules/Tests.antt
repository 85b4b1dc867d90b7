-- ===== src/Rules/Tests.antt =====
-- Each theorem of this folder at an input.
use flow_dpi.Prelude.{ℕ, ◌≡◌, ◌≢◌, ◌↔◌, ◌⊎◌, List, [], ◌∷◌, ◌++◌, true}
use flow_dpi.Rules.{BlockRules, matches_rule, match_blocked_domain}
use flow_dpi.Rules.Domains.{Answers, matches_rule_iff, match_blocked_domain-Answers}

abbrev rule : List ℕ
rule = b'a' ∷ b'.' ∷ b'b' ∷ []

abbrev subdomain : List ℕ
subdomain = b'x' ∷ b'.' ∷ b'a' ∷ b'.' ∷ b'b' ∷ []

abbrev lookalike : List ℕ
lookalike = b'x' ∷ b'a' ∷ b'.' ∷ b'b' ∷ []

abbrev rules : BlockRules
rules = record { blocked_ips = 7 ∷ []; blocked_ports = []; blocked_domains = rule ∷ [] }

matches_rule_iff_example : (matches_rule subdomain rule ≡ true) ↔ (
    (subdomain ≡ rule)
    ⊎ ((prefix : List ℕ) × (prefix ≢ []) × (subdomain ≡ prefix ++ (b'.' ∷ rule))))
matches_rule_iff_example = matches_rule_iff subdomain rule

match_blocked_domain-Answers_example :
    Answers (rule ∷ []) lookalike (match_blocked_domain rules lookalike)
match_blocked_domain-Answers_example = match_blocked_domain-Answers rules lookalike ((λ e. cc), tt)
