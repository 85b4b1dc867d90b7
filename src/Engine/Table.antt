-- ===== src/Engine/Table.antt =====
-- The table of flows: what `find` gives after an entry is set, and sums over the table.
use flow_dpi.Prelude.{
  some_injective, ℕ, ◌+◌, ◌≡◌, refl, [], ◌∷◌, length, Bool, true, false, Option, some, none, All,
  arith, Bool-cases, inl, inr, if◌then◌else◌, ap, subst,
}
use flow_dpi.Types.{FiveTuple, protocol_number, StdHash, five_tuple_hash}
use flow_dpi.Engine.{one_if_none, L4Protocol}
use flow_dpi.Engine.State.{FlowState, Flows, tuple_eq, find_flow, set_flow}

pub tuple_eq_refl : (t : FiveTuple) → tuple_eq t t ≡ true
unfolding tuple_eq
tuple_eq_refl t = ground arith

-- A key that equals one key and not another tells the two apart.
pub tuple_eq-apart :
    (k t u : FiveTuple) → tuple_eq k t ≡ true → tuple_eq t u ≡ false → tuple_eq k u ≡ false
unfolding tuple_eq
tuple_eq-apart k t u same other = ground arith

pub find_flow-set_flow :
    (t : FiveTuple) (g : FlowState) (m : Flows) → find_flow t (set_flow t g m) ≡ some g
unfolding find_flow set_flow
find_flow-set_flow t g [] = rw (tuple_eq_refl t) refl
find_flow-set_flow t g ((k, f) ∷ m) = elim (Bool-cases (tuple_eq k t)) [
  | inl hit ↦ rw (hit, hit) refl
  | inr miss ↦ rw (miss, miss) (find_flow-set_flow t g m)
]

pub find_flow-set_flow_other :
    (t u : FiveTuple) (g : FlowState) (m : Flows)
    → tuple_eq t u ≡ false
    → find_flow u (set_flow t g m) ≡ find_flow u m
unfolding find_flow set_flow
find_flow-set_flow_other t u g [] other = rw other refl
find_flow-set_flow_other t u g ((k, f) ∷ m) other = elim (Bool-cases (tuple_eq k t)) [
  | inl hit ↦ rw hit (rw (tuple_eq-apart k t u hit other) refl)
  | inr miss ↦
      rw miss
        (ap (λ o. if tuple_eq k u then some f else o) (find_flow-set_flow_other t u g m other))
]

-- Equal keys find the same entry.
tuple_eq-same : (k t u : FiveTuple) → tuple_eq t u ≡ true → tuple_eq k t ≡ tuple_eq k u
unfolding tuple_eq
tuple_eq-same k t u same = ground arith

pub find_flow-same :
    (t u : FiveTuple) (m : Flows) → tuple_eq t u ≡ true → find_flow t m ≡ find_flow u m
unfolding find_flow
find_flow-same t u [] same = refl
find_flow-same t u ((k, f) ∷ m) same = rw (tuple_eq-same k t u same, find_flow-same t u m same) refl

-- The table grows by one for a new key.
pub length-set_flow :
    (t : FiveTuple) (g : FlowState) (m : Flows)
    → length (set_flow t g m) ≡ length m + one_if_none (find_flow t m)
unfolding find_flow set_flow
length-set_flow t g [] = refl
length-set_flow t g ((k, f) ∷ m) = elim (Bool-cases (tuple_eq k t)) [
  | inl hit ↦ rw hit (omega arith)
  | inr miss ↦ rw miss (omega (arith, length-set_flow t g m))
]

abbrev pub bit : Bool → ℕ
bit true = 1
bit false = 0

-- The flows that are blocked.
abbrev pub count_blocked : Flows → ℕ
count_blocked [] = 0
count_blocked ((k, f) ∷ m) = bit f.blocked + count_blocked m

abbrev pub blocked_before : Option FlowState → ℕ
blocked_before none = 0
blocked_before (some f) = bit f.blocked

pub count_blocked-set_flow :
    (t : FiveTuple) (g : FlowState) (m : Flows)
    → count_blocked (set_flow t g m) + blocked_before (find_flow t m)
      ≡ count_blocked m + bit g.blocked
unfolding find_flow set_flow
count_blocked-set_flow t g [] = omega arith
count_blocked-set_flow t g ((k, f) ∷ m) = elim (Bool-cases (tuple_eq k t)) [
  | inl hit ↦ rw hit (omega arith)
  | inr miss ↦ rw miss (omega (arith, count_blocked-set_flow t g m))
]

module _ (P : FiveTuple × FlowState → Type 0) where
  pub set_flow-All :
      (t : FiveTuple) (g : FlowState) (m : Flows)
      → ((k : FiveTuple) → tuple_eq k t ≡ true → P (k, g))
      → All P m
      → All P (set_flow t g m)
  unfolding set_flow
  set_flow-All t g [] h all = (h t (tuple_eq_refl t), tt)
  set_flow-All t g ((k, f) ∷ m) h all = elim (Bool-cases (tuple_eq k t)) [
    | inl hit ↦ rw hit (h k hit, all.1)
    | inr miss ↦ rw miss (all.0, set_flow-All t g m h all.1)
  ]

  pub find_flow-All :
      (t : FiveTuple) (m : Flows) (f : FlowState)
      → All P m
      → find_flow t m ≡ some f
      → (k : FiveTuple) × (tuple_eq k t ≡ true) × P (k, f)
  unfolding find_flow
  find_flow-All t [] f all e = cc
  find_flow-All t ((k, g) ∷ m) f all e = elim (Bool-cases (tuple_eq k t)) [
    | inl hit ↦
        let same : g ≡ f = some_injective (rw hit at e) in
        (k, hit, subst (λ x. P (k, x)) same all.0)
    | inr miss ↦ find_flow-All t m f all.1 (rw miss at e)
  ]

protocol_number_injective : (a b : L4Protocol) → protocol_number a ≡ protocol_number b → a ≡ b
protocol_number_injective a b h = ground arith

-- Keys that compare equal are equal.
pub tuple_eq→eq : (t u : FiveTuple) → tuple_eq t u ≡ true → t ≡ u
unfolding tuple_eq
tuple_eq→eq t u h = ground (arith, protocol_number_injective t.protocol u.protocol)

-- Keys that `operator==` takes for equal have the same hash, as the `unordered_map` and the choice of
-- a worker need it.
tuple_eq-five_tuple_hash :
    (std : StdHash) (a b : FiveTuple)
    → tuple_eq a b ≡ true
    → five_tuple_hash std a ≡ five_tuple_hash std b
unfolding tuple_eq five_tuple_hash
tuple_eq-five_tuple_hash std a b same =
    let fields : (a.src_ip ≡ b.src_ip)
        × (a.dst_ip ≡ b.dst_ip)
        × (a.src_port ≡ b.src_port)
        × (a.dst_port ≡ b.dst_port)
        × (protocol_number a.protocol ≡ protocol_number b.protocol) =
      ground arith in
    rw (fields.0, fields.1, fields.2, fields.3, fields.4) refl
