-- ===== src/Tcp/Sound.antt =====
-- The reassembler delivers bytes of the stream that its segments were cut from, in order.
use flow_dpi.Prelude.{
  ℕ, ◌+◌, ◌^◌, ◌≤◌, ◌<◌, ◌≡◌, refl, ◌⊎◌, inl, inr, List, [], ◌∷◌, ◌++◌, length, slice, some, arith,
  All, sym, ◌∙◌, slice-append, append-nil, append_assoc,
}
use flow_dpi.Tcp.{
  Reassembler, fresh, place_cursor, add_segment, pull_loop, pull_contiguous, feed, feed_all,
}
use flow_dpi.Tcp.Cut.{IsCut, add_segment-cons}
use flow_dpi.Tcp.Tracks.{Tracks, pull-Tracks, store-Tracks, fresh-Tracks, place_cursor-Tracks}

module _ (isn : ℕ) (stream : List ℕ) (short : length stream < 2 ^ 31) where
  -- What has been delivered, for a reassembler that has seen no byte and for one that has.
  abbrev pub Delivered : Reassembler → List ℕ → Type 0
  Delivered r out =
      ((r ≡ fresh) × (out ≡ []))
      ⊎ ((start : ℕ) × (count : ℕ) × Tracks isn stream short r start count
          × (out ≡ slice start count stream))

  start-Delivered : Delivered fresh []
  start-Delivered = inl (refl, refl)

  -- A segment of the stream is taken without fault, and what has been delivered stays so.
  add_segment-Delivered :
      (r : Reassembler) (out : List ℕ) (seq : ℕ) (segment : List ℕ)
      → Delivered r out
      → IsCut isn stream (seq, segment)
      → (r' : Reassembler) × (add_segment r seq segment ≡ some r') × Delivered r' out
  unfolding add_segment
  add_segment-Delivered r out seq [] d cut = (r, refl, d)
  add_segment-Delivered r out seq (x ∷ xs) (inl (e, f)) cut =
      let (r', g, t) =
        store-Tracks isn stream short (place_cursor r seq) cut.offset 0 seq (x ∷ xs)
          (rw e (fresh-Tracks isn stream short seq (x ∷ xs) cut)) cut (omega arith) in
      (r', add_segment-cons r seq x xs ∙ g, inr (cut.offset, 0, t, f))
  add_segment-Delivered r out seq (x ∷ xs) (inr (start, count, t, f)) cut =
      let (s, placed, same) =
        place_cursor-Tracks isn stream short r start count seq (x ∷ xs) t cut in
      let (r', g, t') =
        store-Tracks isn stream short (place_cursor r seq) s count seq (x ∷ xs) placed cut
          (omega arith) in
      (r', add_segment-cons r seq x xs ∙ g, inr (s, count, t', f ∙ sym same))

  pull-Delivered :
      (r : Reassembler) (out : List ℕ)
      → Delivered r out
      → (r' : Reassembler) × (bytes : List ℕ) × (pull_contiguous r ≡ (r', bytes))
        × Delivered r' (out ++ bytes)
  unfolding pull_contiguous pull_loop
  pull-Delivered r out (inl (e, f)) = (fresh, [], rw e refl, inl (refl, rw f refl))
  pull-Delivered r out (inr (start, count, t, f)) =
      let (r', d, e, t') = pull-Tracks isn stream short r start count t in
      (
        r',
        slice (start + count) d stream,
        e,
        inr (start, count + d, t', rw f (slice-append start count d stream)),
      )

  feed-Delivered :
      (r : Reassembler) (out : List ℕ) (seq : ℕ) (segment : List ℕ)
      → Delivered r out
      → IsCut isn stream (seq, segment)
      → (r' : Reassembler) × (bytes : List ℕ) × (feed r seq segment ≡ some (r', bytes))
        × Delivered r' (out ++ bytes)
  unfolding feed
  feed-Delivered r out seq segment d cut =
      let (r', e, d') = add_segment-Delivered r out seq segment d cut in
      let (r'', bytes, f, d'') = pull-Delivered r' out d' in (r'', bytes, rw (e, f) refl, d'')

  feed_all-Delivered :
      (r : Reassembler) (out : List ℕ) (segments : List (ℕ × List ℕ))
      → Delivered r out
      → All (IsCut isn stream) segments
      → (r' : Reassembler) × (bytes : List ℕ) × (feed_all r segments ≡ some (r', bytes))
        × Delivered r' (out ++ bytes)
  unfolding feed_all
  feed_all-Delivered r out [] d cuts = (r, [], refl, rw append-nil d)
  feed_all-Delivered r out ((seq, segment) ∷ rest) d cuts =
      let (r', bytes, e, d') = feed-Delivered r out seq segment d cuts.0 in
      let (r'', more, f, d'') = feed_all-Delivered r' (out ++ bytes) rest d' cuts.1 in
      (r'', bytes ++ more, rw (e, f) refl, rw (← append_assoc) d'')

-- Whatever the order, the overlaps and the repetitions in which segments of one stream of less than
-- 2 ^ 31 bytes arrive, also across a wrap of the sequence numbers: no segment is read out of its
-- bounds, and the bytes delivered are one run of consecutive bytes of the stream.
pub feed_all-slice :
    (isn : ℕ) (stream : List ℕ) (segments : List (ℕ × List ℕ))
    → length stream < 2 ^ 31
    → All (IsCut isn stream) segments
    → (r : Reassembler) × (bytes : List ℕ) × (feed_all fresh segments ≡ some (r, bytes))
      × ((start : ℕ) × (count : ℕ) × (start + count ≤ length stream)
          × (bytes ≡ slice start count stream))
feed_all-slice isn stream segments short cuts =
    let (r, bytes, e, d) =
      feed_all-Delivered isn stream short fresh [] segments (inl (refl, refl)) cuts in
    (r, bytes, e, run_of r bytes d)
  where
    run_of :
        (r : Reassembler) (bytes : List ℕ)
        → Delivered isn stream short r bytes
        → (start : ℕ) × (count : ℕ) × (start + count ≤ length stream)
          × (bytes ≡ slice start count stream)
    run_of r bytes (inl (e, f)) = (0, 0, omega arith, f)
    run_of r bytes (inr (start, count, t, f)) = (start, count, t.inside, f)
