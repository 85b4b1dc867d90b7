-- ===== src/Tcp/Total.antt =====
-- src/tcp_reassembler.cpp: no call of the reassembler copies bytes from outside a segment.
use flow_dpi.Prelude.{
  ℕ, ◌%◌, ◌^◌, ◌≤◌, ◌<◌, ◌≡◌, refl, List, [], ◌∷◌, length, true, some, arith, Bool-cases, inl, inr,
  le→ltb, ◌∙◌, drop,
}
use flow_dpi.Tcp.Cut.{add_segment-cons}
use flow_dpi.Tcp.{
  assign, Reassembler, Pending, add32, sub32, seq_less_than, place_cursor, store_segment,
  add_segment, consume, pull_loop, pull_contiguous,
}

-- The cursor is a uint32_t.
abbrev pub IsWord : Reassembler → Type 0
IsWord r = r.next_seq < 2 ^ 32

-- What is trimmed from a segment that reaches behind the cursor is at most the segment.
trim_le :
    (next seq len : ℕ)
    → next < 2 ^ 32
    → seq < 2 ^ 32
    → 0 < len
    → seq_less_than next (add32 seq (len % 2 ^ 32)) ≡ true
    → seq_less_than seq next ≡ true
    → sub32 next seq ≤ len
unfolding seq_less_than
trim_le next seq len hn hs some_bytes reaches before = ground arith

place_cursor-IsWord :
    (r : Reassembler) (seq : ℕ) → IsWord r → seq < 2 ^ 32 → IsWord (place_cursor r seq)
unfolding place_cursor
place_cursor-IsWord r seq h hs = ground arith

store_segment-IsWord :
    (r : Reassembler) (seq : ℕ) (segment : List ℕ)
    → IsWord r
    → seq < 2 ^ 32
    → 0 < length segment
    → (r' : Reassembler) × (store_segment r seq segment ≡ some r') × IsWord r'
unfolding store_segment
store_segment-IsWord r seq segment h hs some_bytes =
    elim (Bool-cases (seq_less_than r.next_seq (add32 seq (length segment % 2 ^ 32)))) [
      | inr behind ↦ (r, rw behind refl, h)
      | inl reaches ↦ elim (Bool-cases (seq_less_than seq r.next_seq)) [
        | inr whole ↦
            (record r { pending = assign seq segment r.pending }, rw (reaches, whole) refl, h)
        | inl before ↦ (
          record r { pending = assign r.next_seq (drop (sub32 r.next_seq seq) segment) r.pending },
          rw (reaches, before)
              (rw
                (le→ltb _ _
                  (trim_le r.next_seq seq (length segment) h hs some_bytes reaches before))
                refl),
          h,
        )
      ]
    ]

-- `addSegment` never copies from outside the segment.
pub add_segment-IsWord :
    (r : Reassembler) (seq : ℕ) (segment : List ℕ)
    → IsWord r
    → seq < 2 ^ 32
    → (r' : Reassembler) × (add_segment r seq segment ≡ some r') × IsWord r'
unfolding add_segment
add_segment-IsWord r seq [] h hs = (r, refl, h)
add_segment-IsWord r seq (x ∷ xs) h hs =
    let (r', e, w) =
      store_segment-IsWord (place_cursor r seq) seq (x ∷ xs) (place_cursor-IsWord r seq h hs) hs
        (omega arith) in
    (r', add_segment-cons r seq x xs ∙ e, w)

consume-word :
    (next key : ℕ) (buffer : List ℕ) → next < 2 ^ 32 → (consume next key buffer).0 < 2 ^ 32
unfolding consume
consume-word next key buffer h = ground arith

pull_loop-word : (next : ℕ) (m : Pending) → next < 2 ^ 32 → (pull_loop next m).0 < 2 ^ 32
unfolding pull_loop
pull_loop-word next [] h = h
pull_loop-word next ((key, buffer) ∷ m) h = elim (Bool-cases (seq_less_than next key)) [
  | inl gap ↦ rw gap h
  | inr reached ↦
      rw reached (pull_loop-word (consume next key buffer).0 m (consume-word next key buffer h))
]

pub pull_contiguous-IsWord : (r : Reassembler) → IsWord r → IsWord (pull_contiguous r).0
unfolding pull_contiguous
pull_contiguous-IsWord r h = pull_loop-word r.next_seq r.pending h
