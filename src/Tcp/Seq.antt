-- ===== src/Tcp/Seq.antt =====
-- Sequence numbers of a stream that starts at `isn`: the comparison is that of the offsets.
use flow_dpi.Prelude.{ℕ, ◌+◌, ◌-◌, ◌%◌, ◌^◌, ◌≤◌, ◌<◌, ◌≡◌, ltb, arith}
use flow_dpi.Tcp.{sub32, add32, seq_less_than}

-- The sequence number of the byte at `offset`.
abbrev pub at : ℕ → ℕ → ℕ
at isn offset = (isn + offset) % 2 ^ 32

pub sub32-at : (isn a b : ℕ) → a ≤ b → b < 2 ^ 31 → sub32 (at isn b) (at isn a) ≡ b - a
sub32-at isn a b h l = omega arith

pub add32-at : (isn a n : ℕ) → n < 2 ^ 32 → add32 (at isn a) (n % 2 ^ 32) ≡ at isn (a + n)
add32-at isn a n h = omega arith

-- Within a window of less than 2 ^ 31 bytes the comparison orders the bytes of the stream, also
-- where their numbers wrap.
pub seq_less_than-at :
    (isn a b : ℕ) → a < 2 ^ 31 → b < 2 ^ 31 → seq_less_than (at isn a) (at isn b) ≡ ltb a b
unfolding seq_less_than
seq_less_than-at isn a b ha hb = ground arith
