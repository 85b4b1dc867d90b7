-- ===== src/Report/Lines.antt =====
-- The lines of the rendered report.
use flow_dpi.Prelude.{
  ℕ, zero, suc, ◌+◌, ◌/◌, ◌%◌, ◌≡◌, refl, sym, ap, ◌∙◌, List, [], ◌∷◌, ◌++◌, map, Bool, true, false,
  ◌||◌, All, ltb, ◌==◌, Bool-cases, inl, inr, if◌then◌else◌, arith,
}
use flow_dpi.Prelude.Text.{to_string, digits_onto}
use flow_dpi.Engine.Describe.{codes}
use flow_dpi.Engine.State.{BlockedEntry}
use flow_dpi.Report.{
  line, entry_text, name_text, render_entries, render_names, matches_heading, names_heading,
  render_matches, render_observed,
}

-- The text, cut behind each newline.
abbrev in_front : ℕ → List (List ℕ) → List (List ℕ)
in_front c [] = (c ∷ []) ∷ []
in_front c (l ∷ ls) = (c ∷ l) ∷ ls

unfoldable pub lines : List ℕ → List (List ℕ)
lines [] = []
lines (c ∷ cs) = let rest = lines cs in if c == b'\n' then [] ∷ rest else in_front c rest

unfoldable pub has_newline : List ℕ → Bool
has_newline [] = false
has_newline (c ∷ cs) = c == b'\n' || has_newline cs

-- A text without a newline.
abbrev pub IsPlain : List ℕ → Type 0
IsPlain s = has_newline s ≡ false

pub append-IsPlain : (xs ys : List ℕ) → IsPlain xs → IsPlain ys → IsPlain (xs ++ ys)
unfolding has_newline
append-IsPlain [] ys h k = k
append-IsPlain (x ∷ xs) ys h k = elim (Bool-cases (x == b'\n')) [
  | inl newline ↦ absurd (apart (sym (rw newline refl) ∙ h))
  | inr other ↦ rw other (append-IsPlain xs ys (sym (rw other refl) ∙ h) k)
]
  where
    apart : ¬ (true ≡ false)
    apart e = cc

pub lines-line : (text rest : List ℕ) → IsPlain text → lines (line text rest) ≡ text ∷ lines rest
unfolding lines line has_newline
lines-line [] rest h = refl
lines-line (c ∷ cs) rest h = elim (Bool-cases (c == b'\n')) [
  | inl newline ↦ absurd (apart (sym (rw newline refl) ∙ h))
  | inr other ↦ rw other (ap (in_front c) (lines-line cs rest (sym (rw other refl) ∙ h)))
]
  where
    apart : ¬ (true ≡ false)
    apart e = cc

-- The same, in front of lines that are known.
pub lines-next :
    {text : List ℕ} {ls : List (List ℕ)} (rest : List ℕ)
    → IsPlain text
    → lines rest ≡ ls
    → lines (line text rest) ≡ text ∷ ls
lines-next {text} rest h e = lines-line text rest h ∙ ap (◌∷◌ text) e

digits_onto-IsPlain :
    (fuel n : ℕ) (tail : List ℕ) → IsPlain tail → IsPlain (digits_onto fuel n tail)
unfolding digits_onto has_newline
digits_onto-IsPlain zero n tail h = h
digits_onto-IsPlain (suc fuel) n tail h = elim (Bool-cases (ltb n 10)) [
  | inl last ↦ rw last plain
  | inr more ↦ rw more (digits_onto-IsPlain fuel (n / 10) _ plain)
]
  where
    no_newline : (d : ℕ) → (b'0' + d == b'\n') ≡ false
    no_newline d = ground arith

    plain : IsPlain ((b'0' + n % 10) ∷ tail)
    plain = rw (no_newline (n % 10)) h

pub to_string-IsPlain : (n : ℕ) → IsPlain (to_string n)
unfolding to_string has_newline
to_string-IsPlain n = digits_onto-IsPlain (suc n) n [] refl

-- The lines that a report is to have.
unfoldable pub section : List ℕ → List (List ℕ) → List (List ℕ)
section heading [] = []
section heading (l ∷ ls) = [] ∷ heading ∷ l ∷ ls

abbrev pub IsPlainEntry : BlockedEntry → Type 0
IsPlainEntry e = IsPlain e.description × IsPlain e.reason

entry_text-IsPlain : (e : BlockedEntry) → IsPlainEntry e → IsPlain (entry_text e)
unfolding has_newline
entry_text-IsPlain e (d, r) =
    append-IsPlain (codes "  ") (e.description ++ (codes "  [" ++ (e.reason ++ codes "]"))) refl (
      append-IsPlain e.description (codes "  [" ++ (e.reason ++ codes "]")) d (
        append-IsPlain (codes "  [") (e.reason ++ codes "]") refl
          (append-IsPlain e.reason (codes "]") r refl)))

name_text-IsPlain : (sni : List ℕ) → IsPlain sni → IsPlain (name_text sni)
unfolding has_newline
name_text-IsPlain sni h = append-IsPlain (codes "  ") sni refl h

lines-render_entries :
    (es : List BlockedEntry) (rest : List ℕ)
    → All IsPlainEntry es
    → lines (render_entries es rest) ≡ map entry_text es ++ lines rest
unfolding render_entries
lines-render_entries [] rest all = refl
lines-render_entries (e ∷ es) rest (h, all) =
    lines-line (entry_text e) (render_entries es rest) (entry_text-IsPlain e h)
    ∙ ap (◌∷◌ (entry_text e)) (lines-render_entries es rest all)

lines-render_names :
    (ss : List (List ℕ)) (rest : List ℕ)
    → All IsPlain ss
    → lines (render_names ss rest) ≡ map name_text ss ++ lines rest
unfolding render_names
lines-render_names [] rest all = refl
lines-render_names (s ∷ ss) rest (h, all) =
    lines-line (name_text s) (render_names ss rest) (name_text-IsPlain s h)
    ∙ ap (◌∷◌ (name_text s)) (lines-render_names ss rest all)

-- A heading behind an empty line.
pub lines-heading :
    (heading rest : List ℕ)
    → IsPlain heading
    → lines (line [] (line heading rest)) ≡ [] ∷ heading ∷ lines rest
unfolding has_newline
lines-heading heading rest h =
    lines-line [] (line heading rest) refl ∙ ap (◌∷◌ []) (lines-line heading rest h)

pub lines-render_matches :
    (es : List BlockedEntry) (rest : List ℕ)
    → All IsPlainEntry es
    → lines (render_matches es rest) ≡ section matches_heading (map entry_text es) ++ lines rest
unfolding render_matches section has_newline
lines-render_matches [] rest all = refl
lines-render_matches (e ∷ es) rest all =
    lines-heading matches_heading (render_entries (e ∷ es) rest) refl
    ∙ ap (λ ls. [] ∷ matches_heading ∷ ls) (lines-render_entries (e ∷ es) rest all)

pub lines-render_observed :
    (ss : List (List ℕ)) (rest : List ℕ)
    → All IsPlain ss
    → lines (render_observed ss rest) ≡ section names_heading (map name_text ss) ++ lines rest
unfolding render_observed section has_newline
lines-render_observed [] rest all = refl
lines-render_observed (s ∷ ss) rest all =
    lines-heading names_heading (render_names (s ∷ ss) rest) refl
    ∙ ap (λ ls. [] ∷ names_heading ∷ ls) (lines-render_names (s ∷ ss) rest all)

-- The line of a counter.
pub counter-IsPlain : (label : List ℕ) (n : ℕ) → IsPlain label → IsPlain (label ++ to_string n)
counter-IsPlain label n h = append-IsPlain label (to_string n) h (to_string-IsPlain n)
