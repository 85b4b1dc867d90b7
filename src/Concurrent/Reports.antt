-- ===== src/Concurrent/Reports.antt =====
-- Reports that tell the same, up to the order of their lists, and how merging treats them.
use flow_dpi.Prelude.{ℕ, ◌^◌, ◌<◌, ◌≡◌, refl, sym, ap, ◌∙◌, append-nil, append_assoc, arith, subst}
use mathlib.Core.List.{Perm, perm_append_comm}
use mathlib.Core.List.Perm
use flow_dpi.Engine.State.{EngineReport, empty_report, add64}
use flow_dpi.Concurrent.{merge_report_into}

-- The counters are the same, and the lists hold the same, each as often.
pub record Agree (a b : EngineReport) : Type 0 where
  pub packets : a.total_packets ≡ b.total_packets
  pub flows : a.total_flows ≡ b.total_flows
  pub blocked_flows : a.blocked_flows ≡ b.blocked_flows
  pub blocked_packets : a.blocked_packets ≡ b.blocked_packets
  pub entries : Perm a.blocked_entries b.blocked_entries
  pub snis : Perm a.observed_snis b.observed_snis
  pub times : Perm a.packet_latencies_ns b.packet_latencies_ns

-- The counters fit a uint64_t.
pub record IsWord64 (r : EngineReport) : Type 0 where
  pub packets : r.total_packets < 2 ^ 64
  pub flows : r.total_flows < 2 ^ 64
  pub blocked_flows : r.blocked_flows < 2 ^ 64
  pub blocked_packets : r.blocked_packets < 2 ^ 64

pub report_eq :
    (a b : EngineReport)
    → a.total_packets ≡ b.total_packets
    → a.total_flows ≡ b.total_flows
    → a.blocked_flows ≡ b.blocked_flows
    → a.blocked_packets ≡ b.blocked_packets
    → a.blocked_entries ≡ b.blocked_entries
    → a.observed_snis ≡ b.observed_snis
    → a.packet_latencies_ns ≡ b.packet_latencies_ns
    → a ≡ b
report_eq a b p q r s t u v = λ i. record {
  total_packets = p i;
  total_flows = q i;
  blocked_flows = r i;
  blocked_packets = s i;
  blocked_entries = t i;
  observed_snis = u i;
  packet_latencies_ns = v i;
}

pub add64_assoc : (a b c : ℕ) → add64 (add64 a b) c ≡ add64 a (add64 b c)
add64_assoc a b c = omega arith

add64_comm : (a b : ℕ) → add64 a b ≡ add64 b a
add64_comm a b = omega arith

pub Agree-refl : (a : EngineReport) → Agree a a
Agree-refl a = record {
  packets = refl;
  flows = refl;
  blocked_flows = refl;
  blocked_packets = refl;
  entries = Perm.rfl;
  snis = Perm.rfl;
  times = Perm.rfl;
}

pub Agree-trans : (a b c : EngineReport) → Agree a b → Agree b c → Agree a c
Agree-trans a b c x y = record {
  packets = x.packets ∙ y.packets;
  flows = x.flows ∙ y.flows;
  blocked_flows = x.blocked_flows ∙ y.blocked_flows;
  blocked_packets = x.blocked_packets ∙ y.blocked_packets;
  entries = Perm.trans x.entries y.entries;
  snis = Perm.trans x.snis y.snis;
  times = Perm.trans x.times y.times;
}

pub Agree-sym : (a b : EngineReport) → Agree a b → Agree b a
Agree-sym a b x = record {
  packets = sym x.packets;
  flows = sym x.flows;
  blocked_flows = sym x.blocked_flows;
  blocked_packets = sym x.blocked_packets;
  entries = Perm.symm x.entries;
  snis = Perm.symm x.snis;
  times = Perm.symm x.times;
}

-- Either report of a merge may be replaced by one that agrees with it.
pub merge-Agree :
    (a b c : EngineReport) → Agree a b → Agree (merge_report_into a c) (merge_report_into b c)
unfolding merge_report_into
merge-Agree a b c x = record {
  packets = ap (λ n. add64 n c.total_packets) x.packets;
  flows = ap (λ n. add64 n c.total_flows) x.flows;
  blocked_flows = ap (λ n. add64 n c.blocked_flows) x.blocked_flows;
  blocked_packets = ap (λ n. add64 n c.blocked_packets) x.blocked_packets;
  entries = Perm.append_right c.blocked_entries x.entries;
  snis = Perm.append_right c.observed_snis x.snis;
  times = Perm.append_right c.packet_latencies_ns x.times;
}

pub merge_assoc :
    (a b c : EngineReport)
    → merge_report_into (merge_report_into a b) c ≡ merge_report_into a (merge_report_into b c)
unfolding merge_report_into
merge_assoc a b c =
    report_eq _ _ (add64_assoc a.total_packets b.total_packets c.total_packets)
      (add64_assoc a.total_flows b.total_flows c.total_flows)
      (add64_assoc a.blocked_flows b.blocked_flows c.blocked_flows)
      (add64_assoc a.blocked_packets b.blocked_packets c.blocked_packets)
      (append_assoc a.blocked_entries b.blocked_entries c.blocked_entries)
      (append_assoc a.observed_snis b.observed_snis c.observed_snis)
      (append_assoc a.packet_latencies_ns b.packet_latencies_ns c.packet_latencies_ns)

merge_comm : (a b : EngineReport) → Agree (merge_report_into a b) (merge_report_into b a)
unfolding merge_report_into
merge_comm a b = record {
  packets = add64_comm a.total_packets b.total_packets;
  flows = add64_comm a.total_flows b.total_flows;
  blocked_flows = add64_comm a.blocked_flows b.blocked_flows;
  blocked_packets = add64_comm a.blocked_packets b.blocked_packets;
  entries = perm_append_comm a.blocked_entries b.blocked_entries;
  snis = perm_append_comm a.observed_snis b.observed_snis;
  times = perm_append_comm a.packet_latencies_ns b.packet_latencies_ns;
}

merge-Agree_behind :
    (a b c : EngineReport) → Agree b c → Agree (merge_report_into a b) (merge_report_into a c)
unfolding merge_report_into
merge-Agree_behind a b c x = record {
  packets = ap (λ n. add64 a.total_packets n) x.packets;
  flows = ap (λ n. add64 a.total_flows n) x.flows;
  blocked_flows = ap (λ n. add64 a.blocked_flows n) x.blocked_flows;
  blocked_packets = ap (λ n. add64 a.blocked_packets n) x.blocked_packets;
  entries = Perm.append_left a.blocked_entries x.entries;
  snis = Perm.append_left a.observed_snis x.snis;
  times = Perm.append_left a.packet_latencies_ns x.times;
}

-- The order in which two reports are merged behind a third does not show.
pub merge_swap :
    (a b c : EngineReport)
    → Agree
        (merge_report_into (merge_report_into a b) c)
        (merge_report_into (merge_report_into a c) b)
merge_swap a b c =
    subst (λ r. Agree (merge_report_into (merge_report_into a b) c) r) (sym (merge_assoc a c b))
      (subst (λ r. Agree r (merge_report_into a (merge_report_into c b))) (sym (merge_assoc a b c))
        (merge-Agree_behind a (merge_report_into b c) (merge_report_into c b) (merge_comm b c)))

pub merge-IsWord64 : (a b : EngineReport) → IsWord64 (merge_report_into a b)
unfolding merge_report_into
merge-IsWord64 a b = record {
  packets = omega arith;
  flows = omega arith;
  blocked_flows = omega arith;
  blocked_packets = omega arith;
}

pub merge-empty : (a : EngineReport) → IsWord64 a → merge_report_into a empty_report ≡ a
unfolding merge_report_into
merge-empty a w =
    report_eq _ _ (omega (arith, w.packets)) (omega (arith, w.flows))
      (omega (arith, w.blocked_flows)) (omega (arith, w.blocked_packets)) (append-nil _)
      (append-nil _) (append-nil _)
