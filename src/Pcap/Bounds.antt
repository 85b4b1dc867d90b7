-- ===== src/Pcap/Bounds.antt =====
-- What the reader returns for any file: packets within the limits, and its loop ends.
use flow_dpi.Prelude.{
  subst, ℕ, zero, suc, ◌+◌, ◌≤◌, ◌≡◌, ◌⊎◌, inl, inr, refl, List, [], length, take, drop,
  length-take, length-drop, Bool, true, false, not, ◌&&◌, none, some, arith, Bool-cases, ltb, leb,
  ◌==◌, All, ap, ◌∙◌,
}
use flow_dpi.Types.{PcapPacketHeader, RawPacket}
use flow_dpi.Pcap.{
  Stream, closed, opened, read, PcapReader, read_body, read_next_packet, ◌∷◌, before_end,
  read_packets, after_header, packet_header, resize, overwrite, Reading, arriving,
}

abbrev pub remaining : Stream → ℕ
remaining closed = 0
remaining (opened bytes good) = length bytes

-- A packet as the reader may return it: all of its bytes are there, within the file's limit.
abbrev pub IsFair : ℕ → RawPacket → Type 0
IsFair snaplen raw =
    (length raw.bytes ≡ raw.header.incl_len) × ((snaplen ≡ 0) ⊎ (raw.header.incl_len ≤ snaplen))

read-cases :
    (n : ℕ) (s : Stream)
    → ((file : Stream) × (read n s ≡ (none, file)))
      ⊎ ((xs : List ℕ) × (file : Stream) × (read n s ≡ (some xs, file))
          × (length xs ≡ n)
          × (remaining file + n ≡ remaining s))
unfolding read
read-cases n closed = inl (closed, refl)
read-cases n (opened bytes good) = elim (Bool-cases (good && leb n (length bytes))) [
  | inr short ↦ inl (opened [] false, rw short refl)
  | inl enough ↦
      let fits : n ≤ length bytes = fits_of good enough in
      inr (
        take n bytes,
        opened (drop n bytes) true,
        rw enough refl,
        omega (arith, length-take n bytes),
        omega (arith, length-drop n bytes),
      )
]
  where
    fits_of : (good : Bool) → (good && leb n (length bytes)) ≡ true → n ≤ length bytes
    fits_of true e = ground arith
    fits_of false e = cc

pub length-resize : (n : ℕ) (xs : List ℕ) → length (resize n xs) ≡ n
unfolding resize
length-resize zero xs = refl
length-resize (suc n) [] = omega (arith, length-resize n [])
length-resize (suc n) (x ∷ xs) = omega (arith, length-resize n xs)

pub length-overwrite : (xs buffer : List ℕ) → length (overwrite xs buffer) ≡ length buffer
unfolding overwrite
length-overwrite [] buffer = refl
length-overwrite (x ∷ xs) [] = refl
length-overwrite (x ∷ xs) (y ∷ ys) = omega (arith, length-overwrite xs ys)

-- What a call leaves: `out` as it was or with room for the packet of a header within the limit, or a
-- fair packet whose bytes and header it took from the file.
abbrev Takes : PcapReader → RawPacket → ℕ → Reading → Type 0
Takes r out header m =
    ((r' : PcapReader) × (out' : RawPacket) × (m ≡ (r', out', false))
      × ((out' ≡ out) ⊎ IsFair r.global_header.snaplen out'))
    ⊎ ((r' : PcapReader) × (raw : RawPacket) × (m ≡ (r', raw, true))
        × IsFair r.global_header.snaplen raw
        × (r'.global_header ≡ r.global_header)
        × (remaining r'.file + (header + length raw.bytes) ≡ remaining r.file))

snaplen_cases :
    (snaplen incl : ℕ)
    → (not (snaplen == 0) && ltb snaplen incl) ≡ false
    → (snaplen ≡ 0) ⊎ (incl ≤ snaplen)
snaplen_cases zero incl h = inl refl
snaplen_cases (suc n) incl h = inr (ground arith)

read_body-Takes :
    (r : PcapReader) (out : RawPacket) (hdr : PcapPacketHeader)
    → Takes r out 0 (read_body r out hdr)
unfolding read_body
read_body-Takes r out hdr =
    let sized = resize hdr.incl_len out.bytes in
    let room : length sized ≡ hdr.incl_len = length-resize hdr.incl_len out.bytes in
    elim (Bool-cases
      (not (r.global_header.snaplen == 0) && ltb r.global_header.snaplen hdr.incl_len)) [
        | inl refused ↦ inl (r, out, simp refused, inl refl)
        | inr allowed ↦
            let limit = snaplen_cases r.global_header.snaplen hdr.incl_len allowed in
            elim (Bool-cases (ltb 0 hdr.incl_len)) [
              | inr nothing ↦ inr (
                r,
                record { header = hdr; bytes = sized },
                simp (allowed, nothing),
                (room, limit),
                refl,
                ground (arith, room),
              )
              | inl something ↦ elim (read-cases hdr.incl_len r.file) [
                | inl (file, e) ↦ inl (
                  record r { file = file },
                  record { header = hdr; bytes = overwrite (arriving r.file) sized },
                  simp (allowed, something, e),
                  inr (length-overwrite (arriving r.file) sized ∙ room, limit),
                )
                | inr (xs, file, e, n, left) ↦ inr (
                  record r { file = file },
                  record { header = hdr; bytes = xs },
                  simp (allowed, something, e),
                  (n, limit),
                  refl,
                  omega (arith, n, left),
                )
              ]
            ]
      ]

read_next_packet-Takes :
    (r : PcapReader) (out : RawPacket) → Takes r out 16 (read_next_packet r out)
unfolding read_next_packet after_header
read_next_packet-Takes r out = elim (read-cases 16 r.file) [
  | inl (file, e) ↦ inl (record r { file = file }, out, ap (after_header r out) e, inl refl)
  | inr (xs, file, e, _, left) ↦
      elim (read_body-Takes (record r { file = file }) out (packet_header r.swapped xs)) [
        | inl (r', out', f, kept) ↦ inl (r', out', ap (after_header r out) e ∙ f, kept)
        | inr (r', raw, f, fair, same, taken) ↦
            inr (r', raw, ap (after_header r out) e ∙ f, fair, same, omega (arith, left, taken))
      ]
]

-- The bytes that the packets take in the file, their headers included.
abbrev pub taken : List RawPacket → ℕ
taken [] = 0
taken (raw ∷ raws) = 16 + length raw.bytes + taken raws

-- From any reader: each packet that the loop returns has as many bytes as its header says, no more than
-- the file's limit if it is not 0, and together with their headers the packets are no larger than
-- what was left of the file. This is of the packets that are returned: the room that a call makes
-- before a read that fails is not among them.
pub read_packets-IsFair :
    (fuel : ℕ) (r : PcapReader) (out : RawPacket)
    → All (IsFair r.global_header.snaplen) (read_packets fuel r out)
      × (taken (read_packets fuel r out) ≤ remaining r.file)
unfolding read_packets before_end
read_packets-IsFair zero r out = (tt, omega arith)
read_packets-IsFair (suc fuel) r out = elim (read_next_packet-Takes r out) [
  | inl (r', out', e, _) ↦ rw e (tt, omega arith)
  | inr (r', raw, e, fair, same, left) ↦
      let (rest, small) = read_packets-IsFair fuel r' raw in
      rw e (
        (fair, subst (λ h. All (IsFair h.snaplen) (read_packets fuel r' raw)) same rest),
        omega (arith, small, left),
      )
]

-- The bytes left in the file are fuel enough: with more of it the loop returns the same packets.
read_packets-enough :
    (fuel more : ℕ) (r : PcapReader) (out : RawPacket)
    → remaining r.file ≤ fuel
    → fuel ≤ more
    → read_packets more r out ≡ read_packets fuel r out
unfolding read_packets before_end
read_packets-enough zero zero r out h l = refl
read_packets-enough (suc fuel) zero r out h l = absurd (omega arith)
read_packets-enough zero (suc more) r out h l = elim (read_next_packet-Takes r out) [
  | inl (r', out', e, _) ↦ rw e refl
  | inr (r', raw, e, fair, same, left) ↦ absurd (omega (arith, left))
]
read_packets-enough (suc fuel) (suc more) r out h l = elim (read_next_packet-Takes r out) [
  | inl (r', out', e, _) ↦ rw e refl
  | inr (r', raw, e, fair, same, left) ↦
      rw e (ap (◌∷◌ raw) (read_packets-enough fuel more r' raw (omega (arith, left)) (omega arith)))
]
