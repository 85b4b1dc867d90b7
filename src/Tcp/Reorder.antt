-- ===== src/Tcp/Reorder.antt =====
-- Segments that change places: what is delivered, and when bytes are held back or lost.
use flow_dpi.Prelude.{
  ℕ, ◌+◌, ◌^◌, ◌<◌, ◌≡◌, refl, List, [], ◌∷◌, ◌++◌, length, true, some, arith, ap, ◌∙◌, append-nil,
  ◌≤◌, ◌%◌, le→ltb, ne→==, lt→ltb, false, subst,
}
use flow_dpi.Prelude.Fallible.{◌>>=◌}
use flow_dpi.Tcp.{
  Pending, Reassembler, assign, place_cursor, add_segment, pull_loop, pull_contiguous, feed,
  feed_all, fresh,
}
use flow_dpi.Tcp.Seq.{at}
use flow_dpi.Tcp.Stream.{idle, at-zero, feed_next, place_fresh, pull_idle}
use flow_dpi.Tcp.Cut.{store_whole, add_segment-cons, pull_loop_gap, pull_loop_exact, store_old}

place_idle_any : (k seq : ℕ) → place_cursor (idle true k) seq ≡ idle true k
unfolding place_cursor
place_idle_any k seq = refl

-- A segment `first` at the cursor and the segment `second` behind it.
module _ (n x y : ℕ) (xs ys : List ℕ) (small : n < 2 ^ 32)
    (short : length (x ∷ xs) + length (y ∷ ys) < 2 ^ 31) where
  abbrev first : List ℕ
  first = x ∷ xs

  abbrev second : List ℕ
  second = y ∷ ys

  abbrev waiting : Pending → Reassembler
  waiting m = record { initialized = true; consumed_any = true; next_seq = at n 0; pending = m }

  place_waiting : (m : Pending) (seq : ℕ) → place_cursor (waiting m) seq ≡ waiting m
  unfolding place_cursor
  place_waiting m seq = refl

  -- The second segment alone waits for the gap to close.
  feed_ahead :
      feed (waiting []) (at n (length first)) second
      ≡ some (waiting ((at n (length first), second) ∷ []), [])
  unfolding feed pull_contiguous assign
  feed_ahead =
      rw
        (
          add_segment-cons (waiting []) (at n (length first)) y ys,
          place_waiting [] (at n (length first)),
        )
        (rw
          (
            store_whole n (length first) 0 (waiting []) second refl (omega arith) (omega arith)
                (omega arith) (omega arith),
            ◌>>=◌,
          )
          (rw (pull_loop_gap n 0 (length first) second [] (omega arith) (omega arith)) refl))

  add_behind :
      add_segment (waiting ((at n (length first), second) ∷ [])) (at n 0) first
      ≡ some (waiting (assign (at n 0) first ((at n (length first), second) ∷ [])))
  add_behind =
      rw
        (
          add_segment-cons (waiting ((at n (length first), second) ∷ [])) (at n 0) x xs,
          place_waiting ((at n (length first), second) ∷ []) (at n 0),
        )
        (store_whole n 0 0 (waiting ((at n (length first), second) ∷ [])) first refl (omega arith)
          (omega arith) (omega arith) (omega arith))

  pull_pair :
      pull_loop (at n 0) ((at n 0, first) ∷ (at n (length first), second) ∷ [])
      ≡ (at n (length first + length second), first ++ second, [])
  unfolding pull_loop
  pull_pair =
      rw pull_first
        (rw (pull_loop_exact n (length first) second [] (omega arith)) (rw append-nil refl))
    where
      at_second : (l : ℕ) → at n (0 + l) ≡ at n l
      at_second l = ap (at n) (omega arith)

      pull_first : pull_loop (at n 0) ((at n 0, first) ∷ (at n (length first), second) ∷ []) ≡ (
          let (last, more, rest) =
            pull_loop (at n (length first)) ((at n (length first), second) ∷ []) in
          (last, first ++ more, rest))
      pull_first =
          pull_loop_exact n 0 first ((at n (length first), second) ∷ []) (omega arith)
          ∙ ap
              (λ k.
                let (last, more, rest) = pull_loop k ((at n (length first), second) ∷ []) in
                (last, first ++ more, rest))
              (at_second (length first))

  feed_pair :
      length first + n < 2 ^ 32
      → feed (waiting ((at n (length first), second) ∷ [])) (at n 0) first
        ≡ some (idle true (at n (length first + length second)), first ++ second)
  unfolding feed pull_contiguous assign
  feed_pair flat =
      rw (add_behind, ◌>>=◌)
        (rw (lt→ltb (at n 0) (at n (length first)) (omega arith)) (rw pull_pair refl))

  feed_stalled :
      2 ^ 32 ≤ length first + n
      → feed (waiting ((at n (length first), second) ∷ [])) (at n 0) first
        ≡ some (waiting ((at n (length first), second) ∷ (at n 0, first) ∷ []), [])
  unfolding feed pull_contiguous assign
  feed_stalled wraps =
      rw (add_behind, ◌>>=◌)
        (rw
          (
            le→ltb (at n 0) (at n (length first)) (omega arith),
            ne→== (at n (length first)) (at n 0) (omega arith),
          )
          (rw
            (pull_loop_gap n 0 (length first) second ((at n 0, first) ∷ []) (omega arith)
              (omega arith))
            refl))

  abbrev arrivals : ℕ → List (ℕ × List ℕ)
  arrivals seq = (at n (length first), second) ∷ (seq, first) ∷ []

  restored :
      length first + n < 2 ^ 32
      → feed_all (waiting []) (arrivals (at n 0))
        ≡ some (idle true (at n (length first + length second)), first ++ second)
  unfolding feed_all
  restored flat = rw (feed_ahead, ◌>>=◌) (rw (feed_pair flat, ◌>>=◌) (rw append-nil refl))

  held_back :
      2 ^ 32 ≤ length first + n
      → feed_all (waiting []) (arrivals (at n 0))
        ≡ some (waiting ((at n (length first), second) ∷ (at n 0, first) ∷ []), [])
  unfolding feed_all
  held_back wraps = rw (feed_ahead, ◌>>=◌) (rw (feed_stalled wraps, ◌>>=◌) refl)

  pull_stalled :
      pull_contiguous (waiting ((at n (length first), second) ∷ (at n 0, first) ∷ []))
      ≡ (waiting ((at n (length first), second) ∷ (at n 0, first) ∷ []), [])
  unfolding pull_contiguous
  pull_stalled =
      rw
        (pull_loop_gap n 0 (length first) second ((at n 0, first) ∷ []) (omega arith) (omega arith))

  -- The first segment comes after the second has been delivered.
  feed_late :
      feed (idle true (at n (length first + length second))) (at n 0) first
      ≡ some (idle true (at n (length first + length second)), [])
  unfolding feed
  feed_late =
      rw
        (
          add_segment-cons (idle true (at n (length first + length second))) (at n 0) x xs,
          place_late (at n (length first + length second)),
        )
        (rw
          (
            store_old n 0 (length first + length second)
                (idle true (at n (length first + length second))) first refl (omega arith) short
                (omega arith),
            ◌>>=◌,
          )
          (rw (pull_idle (at n (length first + length second))) refl))
    where
      place_late : (k : ℕ) → place_cursor (idle true k) (at n 0) ≡ idle true k
      place_late k = place_idle_any k (at n 0)

  dropped :
      feed_all fresh (arrivals (at n 0))
      ≡ some (idle true (at n (length first + length second)), second)
  unfolding feed_all
  dropped =
      rw
        (
          feed_next fresh false (at n (length first)) y ys (omega arith) (omega arith)
              (place_fresh (at n (length first))),
          ◌>>=◌,
        )
        (rw (joined, feed_late, ◌>>=◌) (rw append-nil refl))
    where
      joined : (at n (length first) + length second) % 2 ^ 32 ≡ at n (length first + length second)
      joined = omega arith

-- The two segments in the wrong order.
abbrev pub swapped : ℕ → List ℕ → List ℕ → List (ℕ × List ℕ)
swapped n first second = ((n + length first) % 2 ^ 32, second) ∷ (n, first) ∷ []

-- Behind delivered bytes, two segments that arrive in the wrong order are put in order, when the
-- numbers of the first do not run over 2 ^ 32.
swapped_pair :
    (n x y : ℕ) (xs ys : List ℕ)
    → length (x ∷ xs) + length (y ∷ ys) < 2 ^ 31
    → length (x ∷ xs) + n < 2 ^ 32
    → feed_all (idle true n) (swapped n (x ∷ xs) (y ∷ ys))
      ≡ some (idle true ((n + (length (x ∷ xs) + length (y ∷ ys))) % 2 ^ 32), (x ∷ xs) ++ (y ∷ ys))
unfolding feed_all
swapped_pair n x y xs ys short flat =
    subst
      (λ k.
        feed_all (idle true k) (arrivals n x y xs ys (omega arith) short k)
        ≡ some (idle true (at n (length (x ∷ xs) + length (y ∷ ys))), (x ∷ xs) ++ (y ∷ ys)))
      (at-zero n (omega arith)) (restored n x y xs ys (omega arith) short flat)

-- Behind delivered bytes, two segments that arrive in the wrong order, together of less than 2 ^ 31
-- bytes, when the numbers of the first run over 2 ^ 32: nothing is delivered, the second stands in front
-- of the first in the map, both of them whole, and another pull delivers nothing, although every byte
-- has arrived.
pub swapped_pair_stalls :
    (n x y : ℕ) (xs ys : List ℕ)
    → length (x ∷ xs) + length (y ∷ ys) < 2 ^ 31
    → n < 2 ^ 32
    → 2 ^ 32 ≤ length (x ∷ xs) + n
    → (r : Reassembler) × (feed_all (idle true n) (swapped n (x ∷ xs) (y ∷ ys)) ≡ some (r, []))
      × (r.pending ≡ swapped n (x ∷ xs) (y ∷ ys))
      × (pull_contiguous r ≡ (r, []))
unfolding feed_all
swapped_pair_stalls n x y xs ys short small wraps = (
  waiting n x y xs ys small short ((at n (length (x ∷ xs)), y ∷ ys) ∷ (at n 0, x ∷ xs) ∷ []),
  subst
      (λ k.
        feed_all (idle true k) (arrivals n x y xs ys small short k)
        ≡ some (
          waiting n x y xs ys small short
              ((at n (length (x ∷ xs)), y ∷ ys) ∷ (at n 0, x ∷ xs) ∷ []),
          [],
        ))
      (at-zero n small) (held_back n x y xs ys small short wraps),
  ap (λ k. (at n (length (x ∷ xs)), y ∷ ys) ∷ (k, x ∷ xs) ∷ []) (at-zero n small),
  pull_stalled n x y xs ys small short,
)

-- At the start of a stream the segment that arrives first sets the cursor for good, since it is
-- delivered at once: the one in front of it is dropped.
pub swapped_start_lost :
    (n x y : ℕ) (xs ys : List ℕ)
    → length (x ∷ xs) + length (y ∷ ys) < 2 ^ 31
    → n < 2 ^ 32
    → (r : Reassembler) × (feed_all fresh (swapped n (x ∷ xs) (y ∷ ys)) ≡ some (r, y ∷ ys))
      × (r.pending ≡ [])
unfolding feed_all
swapped_start_lost n x y xs ys short small = (
  idle true (at n (length (x ∷ xs) + length (y ∷ ys))),
  subst
      (λ k.
        feed_all fresh (arrivals n x y xs ys small short k)
        ≡ some (idle true (at n (length (x ∷ xs) + length (y ∷ ys))), y ∷ ys))
      (at-zero n small) (dropped n x y xs ys small short),
  refl,
)
