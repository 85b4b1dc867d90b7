-- ===== src/Pcap/RoundTrip.antt =====
-- A capture file written in either byte order, and what the reader makes of it.
use flow_dpi.Prelude.{
  if◌then◌else◌, zero, suc, ℕ, ◌/◌, ◌%◌, ◌^◌, ◌≤◌, ◌<◌, ◌≡◌, ◌⊎◌, refl, List, [], ◌∷◌, ◌++◌, length,
  Bool, true, false, some, arith, le→leb, length-append, take-append_left, take-length,
  drop-length_append, All, ◌==◌, ap, ◌&&◌, inl, inr, ◌∙◌, sym,
}
use flow_dpi.Types.{PcapPacketHeader, RawPacket}
use flow_dpi.Pcap.{
  swap16, read_file, before_end, after_header, check_header, swap32, opened, read, word32,
  packet_header, PcapGlobalHeader, read_body, read_next_packet, read_packets, PcapReader, not, suc,
  ltb, Stream, open_file, new_reader, accept_header, global_header, none, resize, empty_raw,
}

-- A word in the order of the file: the host's, or turned round.
abbrev pub put32 : Bool → ℕ → List ℕ
put32 false v = (v % 2 ^ 8) ∷ (v / 2 ^ 8 % 2 ^ 8) ∷ (v / 2 ^ 16 % 2 ^ 8) ∷ (v / 2 ^ 24 % 2 ^ 8) ∷ []
put32 true v = (v / 2 ^ 24 % 2 ^ 8) ∷ (v / 2 ^ 16 % 2 ^ 8) ∷ (v / 2 ^ 8 % 2 ^ 8) ∷ (v % 2 ^ 8) ∷ []

abbrev pub put16 : Bool → ℕ → List ℕ
put16 false v = (v % 2 ^ 8) ∷ (v / 2 ^ 8 % 2 ^ 8) ∷ []
put16 true v = (v / 2 ^ 8 % 2 ^ 8) ∷ (v % 2 ^ 8) ∷ []

abbrev pub put_header : Bool → PcapPacketHeader → List ℕ
put_header swapped h =
    put32 swapped h.ts_sec
    ++ (put32 swapped h.ts_usec ++ (put32 swapped h.incl_len ++ put32 swapped h.orig_len))

abbrev pub put_packets : Bool → List RawPacket → List ℕ
put_packets swapped [] = []
put_packets swapped (raw ∷ raws) =
    put_header swapped raw.header ++ (raw.bytes ++ put_packets swapped raws)

-- Version 2.4 with the link type of Ethernet.
abbrev put_global : Bool → ℕ → List ℕ
put_global swapped snaplen =
    put32 swapped 0xa1b2c3d4
    ++ (put16 swapped 2
        ++ (put16 swapped 4
            ++ (put32 swapped 0
                ++ (put32 swapped 0 ++ (put32 swapped snaplen ++ put32 swapped 1)))))

abbrev pub put_file : Bool → ℕ → List RawPacket → List ℕ
put_file swapped snaplen raws = put_global swapped snaplen ++ put_packets swapped raws

-- A packet that a file with this `snaplen` can hold.
pub record IsStorable (snaplen : ℕ) (raw : RawPacket) : Type 0 where
  pub sec_word : raw.header.ts_sec < 2 ^ 32
  pub usec_word : raw.header.ts_usec < 2 ^ 32
  pub orig_word : raw.header.orig_len < 2 ^ 32
  pub length_word : raw.header.incl_len < 2 ^ 32
  pub whole : raw.header.incl_len ≡ length raw.bytes
  pub short : (snaplen ≡ 0) ⊎ (raw.header.incl_len ≤ snaplen)

word_host : (v : ℕ) → v < 2 ^ 32 → word32 (put32 false v) 0 ≡ v
word_host v h = omega arith

word_turned : (v : ℕ) → v < 2 ^ 32 → swap32 (word32 (put32 true v) 0) ≡ v
unfolding swap32
word_turned v h = omega arith

pub read_exact :
    (xs ys : List ℕ) (n : ℕ)
    → length xs ≡ n
    → read n (opened (xs ++ ys) true) ≡ (some xs, opened ys true)
unfolding read
read_exact xs ys n e = rw (← e) (
    rw
      (
        le→leb (length xs) (length (xs ++ ys)) (omega (arith, length-append xs ys)),
        take-append_left (length xs) xs ys (omega arith),
        take-length xs,
        drop-length_append xs ys,
      )
      refl)

pub packet_header-put :
    (swapped : Bool) (h : PcapPacketHeader)
    → h.ts_sec < 2 ^ 32
    → h.ts_usec < 2 ^ 32
    → h.incl_len < 2 ^ 32
    → h.orig_len < 2 ^ 32
    → packet_header swapped (put_header swapped h) ≡ h
unfolding packet_header
packet_header-put false h a b c d =
    rw (word_host h.ts_sec a, word_host h.ts_usec b, word_host h.incl_len c, word_host h.orig_len d)
      refl
packet_header-put true h a b c d =
    rw
      (
        word_turned h.ts_sec a,
        word_turned h.ts_usec b,
        word_turned h.incl_len c,
        word_turned h.orig_len d,
      )
      refl

-- A reader in front of these bytes.
abbrev pub reader_at : Bool → PcapGlobalHeader → List ℕ → PcapReader
reader_at swapped header bytes = record {
  file = opened bytes true;
  global_header = header;
  swapped = swapped;
}

resize-zero : (xs : List ℕ) → resize 0 xs ≡ []
unfolding resize
resize-zero xs = refl

read_body-put :
    (swapped : Bool) (h : PcapGlobalHeader) (out : RawPacket) (hdr : PcapPacketHeader)
    (bytes rest : List ℕ)
    → (not (h.snaplen == 0) && ltb h.snaplen hdr.incl_len) ≡ false
    → length bytes ≡ hdr.incl_len
    → read_body (reader_at swapped h (bytes ++ rest)) out hdr
      ≡ (reader_at swapped h rest, record { header = hdr; bytes = bytes }, true)
unfolding read_body
read_body-put swapped h out hdr [] rest allowed e =
    let nothing : ltb 0 hdr.incl_len ≡ false = ground arith in
    simp (allowed, nothing, ap (λ n. resize n out.bytes) (sym e), resize-zero out.bytes)
read_body-put swapped h out hdr (x ∷ xs) rest allowed e =
    let something : ltb 0 hdr.incl_len ≡ true = ground arith in
    simp (allowed, something, read_exact (x ∷ xs) rest hdr.incl_len e)

storable_allowed :
    (snaplen : ℕ) (raw : RawPacket)
    → IsStorable snaplen raw
    → (not (snaplen == 0) && ltb snaplen raw.header.incl_len) ≡ false
storable_allowed snaplen raw s = elim s.short [ inl e ↦ ground arith | inr le ↦ ground arith ]

pub length-put_header : (swapped : Bool) (h : PcapPacketHeader) → length (put_header swapped h) ≡ 16
length-put_header false h = refl
length-put_header true h = refl

pub read_next_packet-read :
    (r : PcapReader) (out : RawPacket) (xs : List ℕ) (file : Stream)
    → read 16 r.file ≡ (some xs, file)
    → read_next_packet r out ≡ read_body (record r { file = file }) out (packet_header r.swapped xs)
unfolding read_next_packet after_header
read_next_packet-read r out xs file e = ap (after_header r out) e

read_next_packet-put :
    (swapped : Bool) (h : PcapGlobalHeader) (out raw : RawPacket) (rest : List ℕ)
    → IsStorable h.snaplen raw
    → read_next_packet
        (reader_at swapped h (put_header swapped raw.header ++ (raw.bytes ++ rest)))
        out
      ≡ (reader_at swapped h rest, raw, true)
read_next_packet-put swapped h out raw rest s =
    read_next_packet-read
      (reader_at swapped h (put_header swapped raw.header ++ (raw.bytes ++ rest))) out
      (put_header swapped raw.header) (opened (raw.bytes ++ rest) true)
      (read_exact (put_header swapped raw.header) (raw.bytes ++ rest) 16
        (length-put_header swapped raw.header))
    ∙ ap (read_body (reader_at swapped h (raw.bytes ++ rest)) out)
        (packet_header-put swapped raw.header s.sec_word s.usec_word s.length_word s.orig_word)
    ∙ read_body-put swapped h out raw.header raw.bytes rest (storable_allowed h.snaplen raw s)
        (sym s.whole)

read_packets-put :
    (swapped : Bool) (h : PcapGlobalHeader) (raws : List RawPacket) (out : RawPacket) (fuel : ℕ)
    → All (IsStorable h.snaplen) raws
    → length raws ≤ fuel
    → read_packets fuel (reader_at swapped h (put_packets swapped raws)) out ≡ raws
unfolding read_packets before_end read_next_packet after_header read
read_packets-put swapped h [] out zero all enough = refl
read_packets-put swapped h [] out (suc fuel) all enough = refl
read_packets-put swapped h (raw ∷ raws) out zero all enough = absurd (omega arith)
read_packets-put swapped h (raw ∷ raws) out (suc fuel) all enough =
    ap (λ m. before_end m.2 m.1 (read_packets fuel m.0 m.1))
      (read_next_packet-put swapped h out raw (put_packets swapped raws) all.0)
    ∙ (ap (◌∷◌ raw) (read_packets-put swapped h raws raw fuel all.1 (omega arith)))

length-put_packets :
    (swapped : Bool) (raws : List RawPacket) → length raws ≤ length (put_packets swapped raws)
length-put_packets swapped [] = omega arith
length-put_packets swapped (raw ∷ raws) = omega (
  arith,
  length-put_packets swapped raws,
  length-put_header swapped raw.header,
  length-append (put_header swapped raw.header) (raw.bytes ++ put_packets swapped raws),
  length-append raw.bytes (put_packets swapped raws),
)

-- The header of the file, which stays in the reader.
abbrev pub written_header : ℕ → PcapGlobalHeader
written_header snaplen = record {
  magic_number = 0;
  version_major = 2;
  version_minor = 4;
  thiszone = 0;
  sigfigs = 0;
  snaplen = snaplen;
  network = 1;
}

abbrev magic_of : Bool → ℕ
magic_of false = 0xa1b2c3d4
magic_of true = 0xd4c3b2a1

open_file-put :
    (swapped : Bool) (snaplen : ℕ) (rest : List ℕ)
    → snaplen < 2 ^ 32
    → open_file new_reader (some (put_global swapped snaplen ++ rest)) ≡ (
      reader_at swapped (record (written_header snaplen) { magic_number = magic_of swapped }) rest,
      true,
    )
unfolding open_file check_header accept_header global_header swap16 swap32
open_file-put swapped snaplen rest h =
    ap (check_header new_reader)
      (read_exact (put_global swapped snaplen) rest 24 (length_global swapped))
    ∙ accepted swapped
  where
    length_global : (swapped : Bool) → length (put_global swapped snaplen) ≡ 24
    length_global false = refl
    length_global true = refl

    accepted :
        (swapped : Bool)
        → check_header new_reader (some (put_global swapped snaplen), opened rest true) ≡ (
          reader_at swapped
              (record (written_header snaplen) { magic_number = magic_of swapped })
              rest,
          true,
        )
    accepted false =
        ap
          (λ n. (
            reader_at false (record (written_header n) { magic_number = magic_of false }) rest,
            true,
          ))
          (word_host snaplen h)
    accepted true =
        ap
          (λ n. (
            reader_at true (record (written_header n) { magic_number = magic_of true }) rest,
            true,
          ))
          (word_turned snaplen h)

-- Packets written to a capture file in either byte order are read back as they were: the file is
-- accepted and the loop returns each packet with its header and its bytes, when the header's
-- fields are words, the captured length is the number of the bytes, and the limit of the file, if
-- it is not 0, allows it.
pub read_file-put_file :
    (swapped : Bool) (snaplen : ℕ) (raws : List RawPacket)
    → snaplen < 2 ^ 32
    → All (IsStorable snaplen) raws
    → read_file (some (put_file swapped snaplen raws)) ≡ some raws
unfolding read_file
read_file-put_file swapped snaplen raws h all =
    let fuel = length (put_file swapped snaplen raws) in
    ap (λ m. if m.1 then some (read_packets fuel m.0 empty_raw) else none)
      (open_file-put swapped snaplen (put_packets swapped raws) h)
    ∙ ap some (
        read_packets-put swapped _ raws empty_raw fuel all (
          omega (
            arith,
            length-put_packets swapped raws,
            length-append (put_global swapped snaplen) (put_packets swapped raws),
          )))
