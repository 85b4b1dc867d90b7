-- ===== src/Pcap.antt =====
-- src/pcap_reader.cpp and include/pcap_reader.h: the reader of capture files. The host is
-- little-endian, as `read` into a header takes the bytes in the host's order.

pub mod RoundTrip
pub mod Bounds
mod Allocation
mod Tests
use flow_dpi.Prelude.{
  ℕ, suc, zero, ◌+◌, ◌*◌, ◌/◌, ◌%◌, ◌^◌, List, [], ◌∷◌, length, take, drop, Bool, true, false, not,
  ◌&&◌, Option, none, some, leb, ltb, ◌==◌, if◌then◌else◌,
}
use flow_dpi.Types.{PcapPacketHeader, RawPacket}

abbrev pub pcap_magic : ℕ
pcap_magic = 0xa1b2c3d4

abbrev pub pcap_magic_swapped : ℕ
pcap_magic_swapped = 0xd4c3b2a1

-- The order of the bytes of a word, turned round.
unfoldable pub swap32 : ℕ → ℕ
swap32 v =
    v % 2 ^ 8 * 2 ^ 24
    + v / 2 ^ 8 % 2 ^ 8 * 2 ^ 16
    + v / 2 ^ 16 % 2 ^ 8 * 2 ^ 8
    + v / 2 ^ 24 % 2 ^ 8

unfoldable pub swap16 : ℕ → ℕ
swap16 v = v % 2 ^ 8 * 2 ^ 8 + v / 2 ^ 8 % 2 ^ 8

-- The `std::ifstream`: closed, or the bytes in front of it and whether no read has failed.
pub data Stream : Type 0 where
  closed : Stream
  opened : List ℕ → Bool → Stream

-- `read` of `n` bytes and the test behind it: the bytes, when all of them came.
unfoldable pub read : ℕ → Stream → Option (List ℕ) × Stream
read n closed = (none, closed)
read n (opened bytes good) =
    if good && leb n (length bytes)
    then (some (take n bytes), opened (drop n bytes) true)
    else (none, opened [] false)

-- A byte, and the words of a header in the host's order, at an index.
abbrev byte : List ℕ → ℕ → ℕ
byte [] i = 0
byte (x ∷ xs) zero = x
byte (x ∷ xs) (suc i) = byte xs i

abbrev pub word16 : List ℕ → ℕ → ℕ
word16 xs i = byte xs i + byte xs (i + 1) * 2 ^ 8

abbrev pub word32 : List ℕ → ℕ → ℕ
word32 xs i =
    byte xs i + byte xs (i + 1) * 2 ^ 8 + byte xs (i + 2) * 2 ^ 16 + byte xs (i + 3) * 2 ^ 24

-- `PcapGlobalHeader`; `thiszone`, the one field with a sign, is the number of its bits.
pub record PcapGlobalHeader : Type 0 where
  pub magic_number : ℕ
  pub version_major : ℕ
  pub version_minor : ℕ
  pub thiszone : ℕ
  pub sigfigs : ℕ
  pub snaplen : ℕ
  pub network : ℕ

abbrev pub empty_header : PcapGlobalHeader
empty_header = record {
  magic_number = 0;
  version_major = 0;
  version_minor = 0;
  thiszone = 0;
  sigfigs = 0;
  snaplen = 0;
  network = 0;
}

-- The 24 bytes of the header, as the struct lies in memory.
unfoldable pub global_header : List ℕ → PcapGlobalHeader
global_header xs = record {
  magic_number = word32 xs 0;
  version_major = word16 xs 4;
  version_minor = word16 xs 6;
  thiszone = word32 xs 8;
  sigfigs = word32 xs 12;
  snaplen = word32 xs 16;
  network = word32 xs 20;
}

-- `PcapReader`
pub record PcapReader : Type 0 where
  pub file : Stream
  pub global_header : PcapGlobalHeader
  pub swapped : Bool

abbrev pub new_reader : PcapReader
new_reader = record { file = closed; global_header = empty_header; swapped = false }

-- The branches of `open` on the magic number.
unfoldable pub accept_header : PcapReader → PcapReader × Bool
accept_header r =
    let h = r.global_header in
    let turned = record h {
      version_major = swap16 h.version_major;
      version_minor = swap16 h.version_minor;
      snaplen = swap32 h.snaplen;
      network = swap32 h.network;
    } in
    if h.magic_number == pcap_magic
    then (record r { swapped = false }, true)
    else (if h.magic_number == pcap_magic_swapped
        then (record r { swapped = true; global_header = turned }, true)
        else (record r { file = closed }, false))

-- `open`, of a file with these bytes, or of one that cannot be opened.
unfoldable pub check_header : PcapReader → Option (List ℕ) × Stream → PcapReader × Bool
check_header r (none, file) = (record r { file = closed }, false)
check_header r (some xs, file) =
    accept_header (record r { file = file; global_header = global_header xs })

-- An open of a stream that is open fails and leaves it open, so the read behind it fails.
unfoldable pub open_file : PcapReader → Option (List ℕ) → PcapReader × Bool
open_file r file = elim r.file [
  | opened bytes good ↦ (record r { file = closed }, false)
  | closed ↦ elim file [
    | none ↦ (r, false)
    | some bytes ↦ check_header r (read 24 (opened bytes true))
  ]
]

-- The header of a packet, in the file's order.
unfoldable pub packet_header : Bool → List ℕ → PcapPacketHeader
packet_header swapped xs =
    let order : ℕ → ℕ = λ v. if swapped then swap32 v else v in
    record {
      ts_sec = order (word32 xs 0);
      ts_usec = order (word32 xs 4);
      incl_len = order (word32 xs 8);
      orig_len = order (word32 xs 12);
    }

-- `RawPacket{}`
abbrev pub empty_raw : RawPacket
empty_raw = record {
  header = record { ts_sec = 0; ts_usec = 0; incl_len = 0; orig_len = 0 };
  bytes = [];
}

-- `resize` of a `std::vector` of bytes, which fills up with zeros.
unfoldable pub resize : ℕ → List ℕ → List ℕ
resize zero xs = []
resize (suc n) [] = 0 ∷ resize n []
resize (suc n) (x ∷ xs) = x ∷ resize n xs

-- What a read of more bytes than there are leaves in a buffer: those that came in front, if the stream
-- had not failed before.
unfoldable pub overwrite : List ℕ → List ℕ → List ℕ
overwrite [] buffer = buffer
overwrite (x ∷ xs) [] = []
overwrite (x ∷ xs) (y ∷ ys) = x ∷ overwrite xs ys

abbrev pub arriving : Stream → List ℕ
arriving closed = []
arriving (opened bytes good) = if good then bytes else []

-- What `readNextPacket` leaves: the reader, `out`, and what it returns.
abbrev pub Reading : Type 0
Reading = PcapReader × RawPacket × Bool

-- `readNextPacket` behind the header: the check against `snaplen`, the allocation of the packet's bytes
-- and the read into them.
unfoldable pub read_body : PcapReader → RawPacket → PcapPacketHeader → Reading
read_body r out hdr =
    let snaplen = r.global_header.snaplen in
    let sized = resize hdr.incl_len out.bytes in
    let body = read hdr.incl_len r.file in
    let filled : Reading = elim body.0 [
      | none ↦ (
        record r { file = body.1 },
        record { header = hdr; bytes = overwrite (arriving r.file) sized },
        false,
      )
      | some xs ↦ (record r { file = body.1 }, record { header = hdr; bytes = xs }, true)
    ] in
    if not (snaplen == 0) && ltb snaplen hdr.incl_len
    then (r, out, false)
    else (if ltb 0 hdr.incl_len then filled else (r, record { header = hdr; bytes = sized }, true))

unfoldable pub after_header : PcapReader → RawPacket → Option (List ℕ) × Stream → Reading
after_header r out (none, file) = (record r { file = file }, out, false)
after_header r out (some xs, file) =
    read_body (record r { file = file }) out (packet_header r.swapped xs)

-- `readNextPacket`
unfoldable pub read_next_packet : PcapReader → RawPacket → Reading
read_next_packet r out = after_header r out (read 16 r.file)

-- `close`, which the destructor calls, and the accessors.
unfoldable pub is_open : PcapReader → Bool
is_open r = elim r.file [ closed ↦ false | opened bytes good ↦ true ]

unfoldable pub close_reader : PcapReader → PcapReader
unfolding is_open
close_reader r = if is_open r then record r { file = closed } else r

abbrev pub snaplen : PcapReader → ℕ
snaplen r = r.global_header.snaplen

abbrev pub is_swapped : PcapReader → Bool
is_swapped r = r.swapped

-- The loop of `processFile` over the reader; each call writes to the packet of the one before.
unfoldable pub before_end : Bool → RawPacket → List RawPacket → List RawPacket
before_end false raw rest = []
before_end true raw rest = raw ∷ rest

unfoldable pub read_packets : ℕ → PcapReader → RawPacket → List RawPacket
read_packets zero r out = []
read_packets (suc fuel) r out =
    let (r', out', more) = read_next_packet r out in
    before_end more out' (read_packets fuel r' out')

-- `processFile` as far as the reader goes: `none` when the file is refused. The bytes of the file
-- are fuel enough, as each packet takes sixteen of them at least.
unfoldable pub read_file : Option (List ℕ) → Option (List RawPacket)
read_file none = none
read_file (some bytes) =
    let (r, accepted) = open_file new_reader (some bytes) in
    if accepted then some (read_packets (length bytes) r empty_raw) else none
