-- ===== src/Tcp/Cut.antt =====
-- Segments as cuts of one stream, and where a segment or an entry of the map lies to the cursor.
use flow_dpi.Prelude.{
  is_empty, ℕ, ◌+◌, ◌-◌, ◌%◌, ◌^◌, ◌≤◌, ◌<◌, ◌≡◌, refl, List, [], ◌∷◌, length, slice, drop, Bool,
  true, false, not, ◌||◌, some, arith, All, ap, ◌∙◌, drop-slice, length-drop, lt→ltb, ltb_irrefl,
  le→leb, lt→leb, ap₂, le→ltb, ◌&&◌, suc, ◌==◌, ◌++◌,
}
use flow_dpi.Tcp.{
  add32, seq_less_than, Pending, Reassembler, assign, place_cursor, store_segment, add_segment,
  consume, pull_loop,
}
use flow_dpi.Tcp.Seq.{at, sub32-at, add32-at, seq_less_than-at}

-- A segment, or an entry of the map: bytes of the stream `stream` at their sequence number.
pub record IsCut (isn : ℕ) (stream : List ℕ) (entry : ℕ × List ℕ) : Type 0 where
  pub offset : ℕ
  pub numbered : entry.0 ≡ at isn offset
  pub inside : offset + length entry.1 ≤ length stream
  pub content : entry.1 ≡ slice offset (length entry.1) stream

pub assign-All :
    (P : ℕ × List ℕ → Type 0) (key : ℕ) (buffer : List ℕ) (m : Pending)
    → P (key, buffer)
    → All P m
    → All P (assign key buffer m)
unfolding assign
assign-All P key buffer [] p h = (p, tt)
assign-All P key buffer ((k, b) ∷ m) p h = ground (arith, assign-All P key buffer m p h.1)

-- The end of a cut, from the byte at `n` on.
pub IsCut-drop :
    (isn : ℕ) (stream : List ℕ) {seq : ℕ} (segment : List ℕ) (n : ℕ)
    (cut : IsCut isn stream (seq, segment))
    → cut.offset ≤ n
    → n ≤ cut.offset + length segment
    → IsCut isn stream (at isn n, drop (n - cut.offset) segment)
IsCut-drop isn stream segment n cut after before = record {
  offset = n;
  numbered = refl;
  inside = omega (arith, length-drop (n - offset) segment);
  content =
      ap (drop (n - offset)) content
      ∙ drop-slice (n - offset) offset (length segment) stream
      ∙ ap₂ (λ i m. slice i m stream) (omega arith)
          (omega (arith, length-drop (n - offset) segment));
}
  where
    open cut use {offset, inside, content}

-- The three ways in which an entry lies to the cursor.
module _ (isn off n : ℕ) (buffer : List ℕ) where
  pub consume_old :
      off < n
      → n < 2 ^ 31
      → off + length buffer ≤ n
      → consume (at isn n) (at isn off) buffer ≡ (at isn n, [])
  unfolding consume
  consume_old before small old = rw (
    seq_less_than-at isn off n (omega arith) small,
    lt→ltb off n before,
    sub32-at isn off n (omega arith) small,
    le→leb (length buffer) (n - off) (omega arith),
  )

  pub consume_overlap :
      off < n
      → off + length buffer < 2 ^ 31
      → n < off + length buffer
      → consume (at isn n) (at isn off) buffer
        ≡ (at isn (off + length buffer), drop (n - off) buffer)
  unfolding consume
  consume_overlap before small new = rw (
    seq_less_than-at isn off n (omega arith) (omega arith),
    lt→ltb off n before,
    sub32-at isn off n (omega arith) (omega arith),
    lt→leb (n - off) (length buffer) (omega arith),
    add32-at isn off (length buffer) (omega arith),
  )

pub consume_exact :
    (isn n : ℕ) (buffer : List ℕ)
    → n + length buffer < 2 ^ 31
    → consume (at isn n) (at isn n) buffer ≡ (at isn (n + length buffer), buffer)
unfolding consume
consume_exact isn n buffer small = rw (
  seq_less_than-at isn n n (omega arith) (omega arith),
  ltb_irrefl n,
  add32-at isn n (length buffer) (omega arith),
)

pub is_empty-length : (xs : List ℕ) → is_empty xs ≡ true → length xs ≡ 0
is_empty-length [] e = refl
is_empty-length (x ∷ xs) e = cc

pub quiet :
    (consumed empty : Bool) → (consumed || not empty) ≡ false → (consumed ≡ false) × (empty ≡ true)
quiet true empty e = cc
quiet false true e = (refl, refl)
quiet false false e = cc

-- Where the bytes of a new segment lie to the cursor.
module _ (isn off n : ℕ) (r : Reassembler) (segment : List ℕ) (cursor : r.next_seq ≡ at isn n)
    (small : off + length segment < 2 ^ 31) (near : n < 2 ^ 31) where
  pub seg_end-at : add32 (at isn off) (length segment % 2 ^ 32) ≡ at isn (off + length segment)
  seg_end-at = add32-at isn off (length segment) (omega arith)

  pub store_old : off + length segment ≤ n → store_segment r (at isn off) segment ≡ some r
  unfolding store_segment
  store_old old = rw (
    seg_end-at,
    cursor,
    seq_less_than-at isn n (off + length segment) near small,
    le→ltb n (off + length segment) old,
  )

  pub store_overlap :
      off < n
      → n < off + length segment
      → store_segment r (at isn off) segment
        ≡ some (record r { pending = assign (at isn n) (drop (n - off) segment) r.pending })
  unfolding store_segment
  store_overlap before new = rw (
    seg_end-at,
    cursor,
    seq_less_than-at isn n (off + length segment) near small,
    lt→ltb n (off + length segment) new,
    seq_less_than-at isn off n (omega arith) near,
    lt→ltb off n before,
    sub32-at isn off n (omega arith) near,
    le→ltb (length segment) (n - off) (omega arith),
  )

  pub store_whole :
      n ≤ off
      → 0 < length segment
      → store_segment r (at isn off) segment
        ≡ some (record r { pending = assign (at isn off) segment r.pending })
  unfolding store_segment
  store_whole after some_bytes = rw (
    seg_end-at,
    cursor,
    seq_less_than-at isn n (off + length segment) near small,
    lt→ltb n (off + length segment) (omega arith),
    seq_less_than-at isn off n (omega arith) near,
    le→ltb off n after,
  )

pub suc-ne_zero : (n : ℕ) → (suc n == 0) ≡ false
suc-ne_zero n = ground arith

pub add_segment-cons :
    (r : Reassembler) (seq x : ℕ) (xs : List ℕ)
    → add_segment r seq (x ∷ xs) ≡ store_segment (place_cursor r seq) seq (x ∷ xs)
unfolding add_segment
add_segment-cons r seq x xs = rw (suc-ne_zero (length xs))

pub untouched : (consumed before : Bool) → (not consumed && before) ≡ true → consumed ≡ false
untouched true before e = cc
untouched false before e = refl

module _ (r : Reassembler) (seq : ℕ) (live : r.initialized ≡ true) where
  pub place_cursor_moves :
      (not r.consumed_any && seq_less_than seq r.next_seq) ≡ true
      → place_cursor r seq ≡ record r { next_seq = seq }
  unfolding place_cursor
  place_cursor_moves moves = ground arith

  pub place_cursor_stays :
      (not r.consumed_any && seq_less_than seq r.next_seq) ≡ false → place_cursor r seq ≡ r
  unfolding place_cursor
  place_cursor_stays stays = ground arith

-- A pull takes an entry at the cursor whole.
pub pull_loop_exact :
    (isn n : ℕ) (buffer : List ℕ) (m : Pending)
    → n + length buffer < 2 ^ 31
    → pull_loop (at isn n) ((at isn n, buffer) ∷ m) ≡ (
        let (last, more, rest) = pull_loop (at isn (n + length buffer)) m in
        (last, buffer ++ more, rest))
unfolding pull_loop
pull_loop_exact isn n buffer m small = rw (
  consume_exact isn n buffer small,
  seq_less_than-at isn n n (omega arith) (omega arith),
  ltb_irrefl n,
)

-- It stops at an entry behind the cursor.
pub pull_loop_gap :
    (isn n off : ℕ) (buffer : List ℕ) (m : Pending)
    → n < off
    → off < 2 ^ 31
    → pull_loop (at isn n) ((at isn off, buffer) ∷ m) ≡ (at isn n, [], (at isn off, buffer) ∷ m)
unfolding pull_loop
pull_loop_gap isn n off buffer m before small =
    rw (seq_less_than-at isn n off (omega arith) small, lt→ltb n off before)
