-- ===== src/Tcp/Tracks.antt =====
-- How much of the stream the reassembler has delivered, and how its steps keep track of it.
use flow_dpi.Prelude.{
  is_empty, ℕ, ◌+◌, ◌-◌, ◌^◌, ◌≤◌, ◌<◌, ◌≡◌, refl, inl, inr, List, [], ◌∷◌, length, slice, drop,
  true, false, not, ◌||◌, some, arith, All, sym, ap, ◌∙◌, slice-append, drop-slice, length-slice,
  dec_lt, dec_le, ap₂, Bool-cases, ltb_false→le, ◌&&◌,
}
use flow_dpi.Tcp.{
  seq_less_than, Pending, Reassembler, fresh, assign, place_cursor, store_segment, consume,
  pull_loop, pull_contiguous,
}
use flow_dpi.Tcp.Seq.{at, seq_less_than-at}
use flow_dpi.Tcp.Cut.{
  IsCut, IsCut-drop, assign-All, consume_old, consume_overlap, consume_exact, is_empty-length,
  quiet, store_old, store_overlap, store_whole, untouched, place_cursor_moves, place_cursor_stays,
}

module _ (isn : ℕ) (stream : List ℕ) (short : length stream < 2 ^ 31) where
  -- Bytes `start` to `start + count` of the stream have been delivered.
  pub record Tracks (r : Reassembler) (start count : ℕ) : Type 0 where
    pub live : r.initialized ≡ true
    pub cursor : r.next_seq ≡ at isn (start + count)
    pub inside : start + count ≤ length stream
    pub guess : r.consumed_any ≡ false → count ≡ 0
    pub entries : All (IsCut isn stream) r.pending

  -- What one entry delivers.
  Delivers : ℕ → ℕ × List ℕ → Type 0
  Delivers n out = (d : ℕ) × (n + d ≤ length stream) × (out ≡ (at isn (n + d), slice n d stream))

  deliver_exact :
      (n d : ℕ) (key : ℕ) (buffer out : List ℕ)
      → n + d ≤ length stream
      → consume (at isn n) key buffer ≡ (at isn (n + d), out)
      → out ≡ slice n d stream
      → Delivers n (consume (at isn n) key buffer)
  unfolding Delivers
  deliver_exact n d key buffer out h e f = (d, h, rw (e, f))

  consume-Delivers :
      (n : ℕ) (key : ℕ) (buffer : List ℕ)
      → n ≤ length stream
      → IsCut isn stream (key, buffer)
      → seq_less_than (at isn n) key ≡ false
      → Delivers n (consume (at isn n) key buffer)
  consume-Delivers n key buffer h cut behind = rw numbered (elim (dec_lt offset n) [
    | yes before ↦ elim (dec_le (offset + length buffer) n) [
      | yes old ↦
          deliver_exact n 0 _ buffer [] (omega arith)
            (consume_old isn offset n buffer before (omega arith) old
              ∙ ap (λ k. (at isn k, [])) (omega arith))
            refl
      | no new ↦
          deliver_exact n (offset + length buffer - n) _ buffer _ (omega arith)
            (consume_overlap isn offset n buffer before (omega arith) (omega arith)
              ∙ ap (λ k. (at isn k, drop (n - offset) buffer)) (omega arith))
            (ap (drop (n - offset)) content
              ∙ drop-slice (n - offset) offset (length buffer) stream
              ∙ ap₂ (λ i k. slice i k stream) (omega arith) (omega arith))
    ]
    | no here ↦
        let reached : offset ≤ n = ltb_false→le n offset (
          sym (seq_less_than-at isn n offset (omega arith) (omega arith))
          ∙ (rw numbered at behind)) in
        let e : offset ≡ n = omega arith in
        deliver_exact n (length buffer) _ buffer _ (omega arith)
          (ap (λ o. consume (at isn n) (at isn o) buffer) e
            ∙ consume_exact isn n buffer (omega arith))
          (content ∙ ap (λ o. slice o (length buffer) stream) e)
  ])
    where
      open cut use {offset, numbered, inside, content}

  -- What a pull from the cursor delivers, and what it leaves.
  Pulls : ℕ → ℕ × List ℕ × Pending → Type 0
  Pulls n out =
      (d : ℕ) × (rest : Pending) × (n + d ≤ length stream)
      × (out ≡ (at isn (n + d), slice n d stream, rest))
      × All (IsCut isn stream) rest

  pull_loop-Pulls :
      (n : ℕ) (m : Pending)
      → n ≤ length stream
      → All (IsCut isn stream) m
      → Pulls n (pull_loop (at isn n) m)
  unfolding pull_loop Pulls Delivers
  pull_loop-Pulls n [] h cuts = (0, [], omega arith, ap (λ k. (at isn k, [], [])) (omega arith), tt)
  pull_loop-Pulls n ((key, buffer) ∷ m) h cuts = elim (Bool-cases (seq_less_than (at isn n) key)) [
    | inl gap ↦ (
      0,
      (key, buffer) ∷ m,
      omega arith,
      rw gap (ap (λ k. (at isn k, [], (key, buffer) ∷ m)) (omega arith)),
      cuts,
    )
    | inr reached ↦
        let (d, fits, e) = consume-Delivers n key buffer h cuts.0 reached in
        let (d', rest, fits', e', kept) = pull_loop-Pulls (n + d) m fits cuts.1 in
        (
          d + d',
          rest,
          omega arith,
          rw (reached, e, e')
              (ap₂ (λ k s. (at isn k, s, rest)) (omega arith) (slice-append n d d' stream)),
          kept,
        )
  ]

  is_empty-slice : (i d : ℕ) → i + d ≤ length stream → is_empty (slice i d stream) ≡ true → d ≡ 0
  is_empty-slice i d h e =
      omega (arith, length-slice i d stream h, is_empty-length (slice i d stream) e)

  -- A pull delivers the bytes behind the cursor, and keeps track.
  pub pull-Tracks :
      (r : Reassembler) (start count : ℕ)
      → Tracks r start count
      → (r' : Reassembler) × (d : ℕ) × (pull_contiguous r ≡ (r', slice (start + count) d stream))
        × Tracks r' start (count + d)
  unfolding pull_contiguous Pulls
  pull-Tracks r start count t =
      let (d, rest, fits, e, kept) = pull_loop-Pulls (start + count) r.pending t.inside t.entries in
      (
        record r {
          next_seq = at isn (start + count + d);
          pending = rest;
          consumed_any = r.consumed_any || not (is_empty (slice (start + count) d stream));
        },
        d,
        rw (t.cursor, e),
        record {
          live = t.live;
          cursor = ap (at isn) (omega arith);
          inside = omega arith;
          guess = λ g.
              let (unread, nothing) =
                quiet r.consumed_any (is_empty (slice (start + count) d stream)) g in
              omega (arith, t.guess unread, is_empty-slice (start + count) d fits nothing);
          entries = kept;
        },
      )

  -- Storing a segment keeps track, wherever it lies.
  pub store-Tracks :
      (r : Reassembler) (start count : ℕ) (seq : ℕ) (segment : List ℕ)
      → Tracks r start count
      → IsCut isn stream (seq, segment)
      → 0 < length segment
      → (r' : Reassembler) × (store_segment r seq segment ≡ some r') × Tracks r' start count
  store-Tracks r start count seq segment t cut some_bytes =
      elim (dec_le (cut.offset + length segment) (start + count)) [
        | yes old ↦ (
          r,
          rw cut.numbered (
              store_old isn cut.offset (start + count) r segment t.cursor (omega arith)
                (omega arith) old),
          t,
        )
        | no new ↦ elim (dec_lt cut.offset (start + count)) [
          | yes before ↦ (
            record r {
              pending =
                  assign (at isn (start + count)) (drop (start + count - cut.offset) segment)
                    r.pending;
            },
            rw cut.numbered (
                store_overlap isn cut.offset (start + count) r segment t.cursor (omega arith)
                  (omega arith) before (omega arith)),
            with_entry (at isn (start + count)) (drop (start + count - cut.offset) segment)
                (IsCut-drop isn stream segment (start + count) cut (omega arith) (omega arith)),
          )
          | no after ↦ (
            record r { pending = assign (at isn cut.offset) segment r.pending },
            rw cut.numbered (
                store_whole isn cut.offset (start + count) r segment t.cursor (omega arith)
                  (omega arith) (omega arith) some_bytes),
            with_entry (at isn cut.offset) segment (record {
              offset = cut.offset;
              numbered = refl;
              inside = cut.inside;
              content = cut.content;
            }),
          )
        ]
      ]
    where
      with_entry :
          (key : ℕ) (buffer : List ℕ)
          → IsCut isn stream (key, buffer)
          → Tracks (record r { pending = assign key buffer r.pending }) start count
      with_entry key buffer c = record {
        live = t.live;
        cursor = t.cursor;
        inside = t.inside;
        guess = t.guess;
        entries = assign-All (IsCut isn stream) key buffer r.pending c t.entries;
      }

  pub fresh-Tracks :
      (seq : ℕ) (segment : List ℕ) (cut : IsCut isn stream (seq, segment))
      → Tracks (place_cursor fresh seq) cut.offset 0
  unfolding place_cursor
  fresh-Tracks seq segment cut = record {
    live = refl;
    cursor = cut.numbered ∙ ap (at isn) (omega arith);
    inside = omega (arith, cut.inside);
    guess = λ _. refl;
    entries = tt;
  }

  -- The cursor's move keeps what has been delivered: it moves only while that is nothing.
  pub place_cursor-Tracks :
      (r : Reassembler) (start count seq : ℕ) (segment : List ℕ)
      → Tracks r start count
      → (cut : IsCut isn stream (seq, segment))
      → (s : ℕ) × Tracks (place_cursor r seq) s count
        × (slice s count stream ≡ slice start count stream)
  unfolding place_cursor
  place_cursor-Tracks r start count seq segment t cut =
      elim (Bool-cases (not r.consumed_any && seq_less_than seq r.next_seq)) [
        | inl moves ↦
            let none_yet = t.guess (untouched r.consumed_any _ moves) in
            (
              cut.offset,
              rw (place_cursor_moves r seq t.live moves) (record {
                live = t.live;
                cursor = cut.numbered ∙ ap (at isn) (omega arith);
                inside = omega (arith, cut.inside);
                guess = t.guess;
                entries = t.entries;
              }),
              ap (λ k. slice cut.offset k stream) none_yet
                  ∙ sym (ap (λ k. slice start k stream) none_yet),
            )
        | inr stays ↦ (start, rw (place_cursor_stays r seq t.live stays) t, refl)
      ]
