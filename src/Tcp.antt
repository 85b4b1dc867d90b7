-- ===== src/Tcp.antt =====
-- src/tcp_reassembler.cpp and include/tcp_reassembler.h: one direction of one TCP stream.
mod Seq
mod Cut
pub mod Total
mod Tracks
mod Sound
pub mod Stream
mod Reorder
mod Tests
use flow_dpi.Prelude.Fallible.{◌>>=◌}
use flow_dpi.Prelude.{
  is_empty, ℕ, ◌+◌, ◌-◌, ◌%◌, ◌^◌, List, [], ◌∷◌, ◌++◌, length, drop, Bool, true, false, not, ◌&&◌,
  ◌||◌, Option, none, some, ltb, leb, ◌==◌, if◌then◌else◌,
}

-- uint32_t sums and differences.
abbrev pub add32 : ℕ → ℕ → ℕ
add32 a b = (a + b) % 2 ^ 32

abbrev pub sub32 : ℕ → ℕ → ℕ
sub32 a b = (a + 2 ^ 32 - b) % 2 ^ 32

-- `seqLessThan`: the difference, read as an int32_t, is negative when its top bit is set.
unfoldable pub seq_less_than : ℕ → ℕ → Bool
seq_less_than a b = leb (2 ^ 31) (sub32 a b)

-- The `std::map`, in the order of its keys.
abbrev pub Pending : Type 0
Pending = List (ℕ × List ℕ)

-- `TcpStreamReassembler`
pub record Reassembler : Type 0 where
  pub initialized : Bool
  pub consumed_any : Bool
  pub next_seq : ℕ
  pub pending : Pending

abbrev pub fresh : Reassembler
fresh = record { initialized = false; consumed_any = false; next_seq = 0; pending = [] }

-- `pending_[key] = buffer`
unfoldable pub assign : ℕ → List ℕ → Pending → Pending
assign key buffer [] = (key, buffer) ∷ []
assign key buffer ((k, b) ∷ m) =
    if ltb key k
    then (key, buffer) ∷ (k, b) ∷ m
    else (if k == key then (key, buffer) ∷ m else (k, b) ∷ assign key buffer m)

-- The first segment sets the cursor; until bytes have been delivered an earlier one moves it back.
unfoldable pub place_cursor : Reassembler → ℕ → Reassembler
place_cursor r seq =
    if not r.initialized
    then record r { next_seq = seq; initialized = true }
    else (if not r.consumed_any && seq_less_than seq r.next_seq
        then record r { next_seq = seq }
        else r)

-- The part of `addSegment` behind the cursor's move. `none` is a copy of bytes behind the end of
-- the segment, where `len - trim` wraps.
unfoldable pub store_segment : Reassembler → ℕ → List ℕ → Option Reassembler
unfolding assign
store_segment r seq segment =
    let seg_end = add32 seq (length segment % 2 ^ 32) in
    let trim = sub32 r.next_seq seq in
    let trimmed : Option Reassembler =
      if ltb (length segment) trim
      then none
      else some (record r { pending = assign r.next_seq (drop trim segment) r.pending }) in
    let whole : Option Reassembler = some (record r { pending = assign seq segment r.pending }) in
    if not (seq_less_than r.next_seq seg_end)
    then some r
    else (if seq_less_than seq r.next_seq then trimmed else whole)

-- `addSegment`
unfoldable pub add_segment : Reassembler → ℕ → List ℕ → Option Reassembler
add_segment r seq segment =
    if length segment == 0 then some r else store_segment (place_cursor r seq) seq segment

-- One entry of the map that does not start behind the cursor: the cursor after it, and its bytes
-- that are new.
unfoldable pub consume : ℕ → ℕ → List ℕ → ℕ × List ℕ
consume next key buffer =
    let trim = sub32 next key in
    let after = add32 key (length buffer % 2 ^ 32) in
    if seq_less_than key next
    then (if leb (length buffer) trim then (next, []) else (after, drop trim buffer))
    else (after, buffer)

-- The loop of `pullContiguous`: the cursor, the bytes, and the entries that stay.
unfoldable pub pull_loop : ℕ → Pending → ℕ × List ℕ × Pending
pull_loop next [] = (next, [], [])
pull_loop next ((key, buffer) ∷ m) =
    let (next', bytes) = consume next key buffer in
    let (last, more, rest) = pull_loop next' m in
    if seq_less_than next key then (next, [], (key, buffer) ∷ m) else (last, bytes ++ more, rest)

-- `pullContiguous`
unfoldable pub pull_contiguous : Reassembler → Reassembler × List ℕ
pull_contiguous r =
    let (next, result, rest) = pull_loop r.next_seq r.pending in
    let r' = record r {
      next_seq = next;
      pending = rest;
      consumed_any = r.consumed_any || not (is_empty result);
    } in
    (r', result)

-- `pendingBytes`
unfoldable pub pending_bytes : Pending → ℕ
pending_bytes [] = 0
pending_bytes ((k, b) ∷ m) = length b + pending_bytes m

-- A segment and the pull that the engine makes behind it.
unfoldable pub feed : Reassembler → ℕ → List ℕ → Option (Reassembler × List ℕ)
unfolding ◌>>=◌
feed r seq segment = do r' ← add_segment r seq segment; some (pull_contiguous r')

-- Segments in the order of their arrival, and all bytes delivered.
unfoldable pub feed_all : Reassembler → List (ℕ × List ℕ) → Option (Reassembler × List ℕ)
unfolding ◌>>=◌
feed_all r [] = some (r, [])
feed_all r ((seq, segment) ∷ rest) =
    feed r seq segment >>= λ fed. feed_all fed.0 rest >>= λ last. some (last.0, fed.1 ++ last.1)
