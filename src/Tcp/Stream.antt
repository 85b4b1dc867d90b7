-- ===== src/Tcp/Stream.antt =====
-- What is delivered: segments in order, a swapped pair, and the pairs that are lost.
use flow_dpi.Prelude.{
  ◌⊎◌, inl, inr, ℕ, ◌+◌, ◌%◌, ◌^◌, ◌<◌, ◌≡◌, refl, List, [], ◌∷◌, ◌++◌, length, Bool, true, false,
  ◌||◌, some, arith, All, ap, ◌∙◌, append-nil, ap₂,
}
use flow_dpi.Prelude.Fallible.{◌>>=◌, bind-some}
use flow_dpi.Tcp.{
  Reassembler, fresh, assign, place_cursor, store_segment, add_segment, pull_loop, pull_contiguous,
  feed, feed_all,
}
use flow_dpi.Tcp.Seq.{at, seq_less_than-at}
use flow_dpi.Tcp.Cut.{consume_exact, store_whole, add_segment-cons}

-- Consecutive chunks of a stream whose first byte has the number `seq`.
abbrev pub consecutive : ℕ → List (List ℕ) → List (ℕ × List ℕ)
consecutive seq [] = []
consecutive seq (c ∷ cs) = (seq, c) ∷ consecutive ((seq + length c) % 2 ^ 32) cs

abbrev pub concat : List (List ℕ) → List ℕ
concat [] = []
concat (c ∷ cs) = c ++ concat cs

pub at-zero : (n : ℕ) → n < 2 ^ 32 → at n 0 ≡ n
at-zero n h = omega arith

pull_one :
    (n : ℕ) (segment : List ℕ)
    → length segment < 2 ^ 31
    → pull_loop (at n 0) ((at n 0, segment) ∷ []) ≡ (at n (length segment), segment, [])
unfolding pull_loop
pull_one n segment h =
    rw
      (
        consume_exact n 0 segment (omega arith),
        seq_less_than-at n 0 0 (omega arith) (omega arith),
        append-nil,
      )
      (ap (λ k. (at n k, segment, [])) (omega arith))

-- A reassembler with nothing pending.
abbrev pub idle : Bool → ℕ → Reassembler
idle consumed next = record {
  initialized = true;
  consumed_any = consumed;
  next_seq = next;
  pending = [];
}

abbrev holding : Bool → ℕ → List ℕ → Reassembler
holding consumed next segment = record {
  initialized = true;
  consumed_any = consumed;
  next_seq = next;
  pending = (next, segment) ∷ [];
}

store_next :
    (consumed : Bool) (n : ℕ) (segment : List ℕ)
    → 0 < length segment
    → length segment < 2 ^ 31
    → store_segment (idle consumed (at n 0)) (at n 0) segment
      ≡ some (holding consumed (at n 0) segment)
unfolding assign
store_next consumed n segment some_bytes h =
    store_whole n 0 0 (idle consumed (at n 0)) segment refl (omega arith) (omega arith)
      (omega arith) some_bytes

pull_next :
    (consumed : Bool) (n x : ℕ) (xs : List ℕ)
    → length (x ∷ xs) < 2 ^ 31
    → pull_contiguous (holding consumed (at n 0) (x ∷ xs))
      ≡ (idle (consumed || true) (at n (length (x ∷ xs))), x ∷ xs)
unfolding pull_contiguous
pull_next consumed n x xs h = rw (pull_one n (x ∷ xs) h)

pub or_true : (b : Bool) → (b || true) ≡ true
or_true true = refl
or_true false = refl

-- The next bytes of the stream go through at once.
pub feed_next :
    (r : Reassembler) (consumed : Bool) (n x : ℕ) (xs : List ℕ)
    → n < 2 ^ 32
    → length (x ∷ xs) < 2 ^ 31
    → place_cursor r n ≡ idle consumed n
    → feed r n (x ∷ xs) ≡ some (idle true ((n + length (x ∷ xs)) % 2 ^ 32), x ∷ xs)
unfolding feed
feed_next r consumed n x xs small h placed =
    rw (add_segment-cons r n x xs, placed)
      (rw (← at-zero n small) (
        rw (store_next consumed n (x ∷ xs) (omega arith) h, ◌>>=◌)
          (ap some (
            pull_next consumed n x xs h
            ∙ ap₂ (λ b k. (idle b k, x ∷ xs)) (or_true consumed) (omega arith)))))

feed_nothing : (r : Reassembler) (n : ℕ) → feed r n [] ≡ some (pull_contiguous r)
unfolding feed add_segment
feed_nothing r n = refl

pub pull_idle : (n : ℕ) → pull_contiguous (idle true n) ≡ (idle true n, [])
unfolding pull_contiguous pull_loop
pull_idle n = refl

pull_fresh : pull_contiguous fresh ≡ (fresh, [])
unfolding pull_contiguous pull_loop
pull_fresh = refl

pub place_fresh : (n : ℕ) → place_cursor fresh n ≡ idle false n
unfolding place_cursor
place_fresh n = refl

place_idle : (n : ℕ) → place_cursor (idle true n) n ≡ idle true n
unfolding place_cursor
place_idle n = refl

abbrev pub IsShort : List ℕ → Type 0
IsShort c = length c < 2 ^ 31

-- A stream of which all that arrived is delivered, and whose next byte has the number `seq`.
abbrev pub IsReady : Reassembler → ℕ → Type 0
IsReady r seq = (r ≡ fresh) ⊎ (r ≡ idle true seq)

-- The next chunk, which may be empty, is delivered at once.
pub feed-IsReady :
    (r : Reassembler) (seq : ℕ) (chunk : List ℕ)
    → seq < 2 ^ 32
    → IsShort chunk
    → IsReady r seq
    → (r' : Reassembler) × (feed r seq chunk ≡ some (r', chunk))
      × IsReady r' ((seq + length chunk) % 2 ^ 32)
feed-IsReady r seq [] small short (inl new) =
    (fresh, rw (new, feed_nothing, pull_fresh) refl, inl refl)
feed-IsReady r seq [] small short (inr same) =
    let still : (seq + 0) % 2 ^ 32 ≡ seq = omega arith in
    (idle true seq, rw (same, feed_nothing, pull_idle seq) refl, inr (rw still refl))
feed-IsReady r seq (x ∷ xs) small short (inl new) =
    (_, rw new (feed_next fresh false seq x xs small short (place_fresh seq)), inr refl)
feed-IsReady r seq (x ∷ xs) small short (inr same) =
    (_, rw same (feed_next (idle true seq) true seq x xs small short (place_idle seq)), inr refl)

in_order_ready :
    (r : Reassembler) (seq : ℕ) (chunks : List (List ℕ))
    → seq < 2 ^ 32
    → All IsShort chunks
    → IsReady r seq
    → (last : Reassembler) × (feed_all r (consecutive seq chunks) ≡ some (last, concat chunks))
      × (last.pending ≡ [])
unfolding feed_all
in_order_ready r seq [] small short (inl new) = (r, refl, rw new refl)
in_order_ready r seq [] small short (inr same) = (r, refl, rw same refl)
in_order_ready r seq (c ∷ cs) small short ready =
    let (r', e, next) = feed-IsReady r seq c small short.0 ready in
    let (last, f, g) =
      in_order_ready r' ((seq + length c) % 2 ^ 32) cs (omega arith) short.1 next in
    (last, bind-some _ e (bind-some _ f refl), g)

-- A stream that arrives in order is delivered whole, in chunks of less than 2 ^ 31 bytes, from any
-- first sequence number, however long it is and however often its numbers wrap; nothing is left
-- pending.
pub in_order_delivery :
    (seq : ℕ) (chunks : List (List ℕ))
    → seq < 2 ^ 32
    → All IsShort chunks
    → (r : Reassembler) × (feed_all fresh (consecutive seq chunks) ≡ some (r, concat chunks))
      × (r.pending ≡ [])
in_order_delivery seq chunks small short = in_order_ready fresh seq chunks small short (inl refl)
