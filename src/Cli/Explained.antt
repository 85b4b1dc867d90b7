-- ===== src/Cli/Explained.antt =====
-- The loop over the options of src/main.cpp: what it says when it refuses them.
use flow_dpi.Prelude.{
  ◌==◌, ℕ, ◌≢◌, List, [], ◌∷◌, ◌++◌, Bool, true, false, Option, none, some, if◌then◌else◌,
}
use flow_dpi.Prelude.Text.{list_eq}
use flow_dpi.Rules.{add_blocked_domain}
use flow_dpi.Engine.Describe.{codes}
use flow_dpi.Cli.{
  Settings, Outcome, proceeds, refused, thrown, complain, unknown_argument, stoul, one_value,
  block_port, block_ip, read_arguments,
}

pub append-nonempty : (xs : List ℕ) (y : ℕ) (ys : List ℕ) → xs ++ (y ∷ ys) ≢ []
append-nonempty [] y ys e = cc
append-nonempty (x ∷ xs) y ys e = cc

-- A test keeps what holds of both its branches.
pub if-both :
    {A : Type 0} (P : A → Type 0) (b : Bool) (x y : A) → P x → P y → P (if b then x else y)
if-both P true x y p q = p
if-both P false x y p q = q

-- The loop over the arguments does not refuse without a message.
pub data IsExplained : Outcome → Type 0 where
  goes_on : {s : Settings} → IsExplained (proceeds s)
  says_why : {errors : List ℕ} → errors ≢ [] → IsExplained (refused errors)
  is_thrown : {errors : List ℕ} → IsExplained (thrown errors)

unknown_argument-IsExplained : (arg : List ℕ) (s : Settings) → IsExplained (unknown_argument arg s)
unfolding complain
unknown_argument-IsExplained arg s = says_why (append-nonempty s.errors _ _)

module _ (stored : ℕ → ℕ) where
  one_value-IsExplained :
      (arg value : List ℕ) (s : Settings) (go_on : Settings → Outcome)
      → ((s' : Settings) → IsExplained (go_on s'))
      → IsExplained (one_value stored arg value s go_on)
  unfolding one_value
  one_value-IsExplained arg value s go_on explained =
      if-both IsExplained (list_eq arg (codes "--block-ip")) _ _
        (explained (block_ip stored value s))
        (if-both IsExplained (list_eq arg (codes "--block-domain")) _ _
          (explained (record s { rules = add_blocked_domain s.rules value }))
          (if-both IsExplained (list_eq arg (codes "--workers")) _ _ (counted (stoul value))
            (unknown_argument-IsExplained arg s)))
    where
      counted :
          (o : Option ℕ)
          → IsExplained (elim o [
            | none ↦ thrown s.errors
            | some n ↦ go_on (record s { num_workers = if n == 0 then 1 else n })
          ])
      counted none = is_thrown
      counted (some n) = explained _

  pub read_arguments-IsExplained :
      (args : List (List ℕ)) (s : Settings) → IsExplained (read_arguments stored args s)
  unfolding read_arguments
  read_arguments-IsExplained [] s = goes_on
  read_arguments-IsExplained (arg ∷ []) s = unknown_argument-IsExplained arg s
  read_arguments-IsExplained (arg ∷ value ∷ []) s =
      one_value-IsExplained arg value s proceeds (λ s'. goes_on)
  read_arguments-IsExplained (arg ∷ value ∷ second ∷ rest) s =
      if-both IsExplained (list_eq arg (codes "--block-port")) _ _
        (read_arguments-IsExplained rest (block_port stored value second s))
        (one_value-IsExplained arg value s (read_arguments stored (second ∷ rest))
          (read_arguments-IsExplained (second ∷ rest)))
