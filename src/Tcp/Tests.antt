-- ===== src/Tcp/Tests.antt =====
-- The reassembler on short streams, and each theorem of this folder at an input.
use flow_dpi.Prelude.{ℕ, ◌+◌, ◌≤◌, ◌≡◌, refl, List, [], ◌∷◌, length, slice, some, arith, All, true}
use flow_dpi.Tcp.{Reassembler, fresh, feed_all, pull_contiguous}
use flow_dpi.Tcp.Cut.{IsCut}
use flow_dpi.Tcp.Sound.{feed_all-slice}
use flow_dpi.Tcp.Stream.{idle, consecutive, in_order_delivery}
use flow_dpi.Tcp.Reorder.{swapped, swapped_pair_stalls, swapped_start_lost}

abbrev stream : List ℕ
stream = 10 ∷ 11 ∷ 12 ∷ 13 ∷ 14 ∷ 15 ∷ []

-- The first two bytes, a segment behind a gap, and one that overlaps both; the numbers wrap.
abbrev overlapping : List (ℕ × List ℕ)
overlapping =
    (0xffff_fffe, 10 ∷ 11 ∷ []) ∷ (2, 14 ∷ 15 ∷ []) ∷ (0xffff_ffff, 11 ∷ 12 ∷ 13 ∷ []) ∷ []

overlapping_cuts : All (IsCut 0xffff_fffe stream) overlapping
overlapping_cuts = (
  record { offset = 0; numbered = refl; inside = omega arith; content = refl },
  (
    record { offset = 4; numbered = refl; inside = omega arith; content = refl },
    (record { offset = 1; numbered = refl; inside = omega arith; content = refl }, tt),
  ),
)

feed_all-slice_example :
    (r : Reassembler) × (bytes : List ℕ) × (feed_all fresh overlapping ≡ some (r, bytes))
    × ((start : ℕ) × (count : ℕ) × (start + count ≤ length stream)
        × (bytes ≡ slice start count stream))
feed_all-slice_example =
    feed_all-slice 0xffff_fffe stream overlapping (omega arith) overlapping_cuts

in_order_delivery_example :
    (r : Reassembler) × (feed_all fresh (consecutive 0xffff_ffff ((1 ∷ 2 ∷ []) ∷ (3 ∷ []) ∷ []))
      ≡ some (r, 1 ∷ 2 ∷ 3 ∷ []))
    × (r.pending ≡ [])
in_order_delivery_example =
    in_order_delivery 0xffff_ffff ((1 ∷ 2 ∷ []) ∷ (3 ∷ []) ∷ []) (omega arith) (omega arith)

swapped_pair_stalls_example :
    (r : Reassembler) × (feed_all
        (idle true 0xffff_ffff)
        (swapped 0xffff_ffff (1 ∷ 2 ∷ []) (3 ∷ []))
      ≡ some (r, []))
    × (r.pending ≡ swapped 0xffff_ffff (1 ∷ 2 ∷ []) (3 ∷ []))
    × (pull_contiguous r ≡ (r, []))
swapped_pair_stalls_example =
    swapped_pair_stalls 0xffff_ffff 1 3 (2 ∷ []) [] (omega arith) (omega arith) (omega arith)

swapped_start_lost_example :
    (r : Reassembler) × (feed_all fresh (swapped 100 (1 ∷ 2 ∷ []) (3 ∷ [])) ≡ some (r, 3 ∷ []))
    × (r.pending ≡ [])
swapped_start_lost_example = swapped_start_lost 100 1 3 (2 ∷ []) [] (omega arith) (omega arith)
