-- ===== src/Pcap/Tests.antt =====
-- The reader on small files, and each theorem of this folder at an input.
use flow_dpi.Prelude.{
  ◌≡◌, ◌≤◌, inr, refl, List, [], ◌∷◌, true, false, none, some, All, arith, take, ◌++◌,
}
use flow_dpi.Types.{RawPacket, PcapPacketHeader}
use flow_dpi.Pcap.Allocation.{read_next_packet-allocates}
use flow_dpi.Pcap.{
  PcapReader, read_packets, read_file, open_file, check_header, accept_header, global_header,
  swap16, swap32, read, read_next_packet, after_header, read_body, packet_header, before_end,
  empty_raw, closed, length,
}
use flow_dpi.Pcap.RoundTrip.{
  put_file, put_packets, reader_at, written_header, read_file-put_file, put_header,
}
use flow_dpi.Pcap.Bounds.{IsFair, remaining, taken, read_packets-IsFair}

abbrev raws : List RawPacket
raws =
    record {
      header = record { ts_sec = 7; ts_usec = 8; incl_len = 2; orig_len = 60 };
      bytes = 1 ∷ 2 ∷ [];
    }
    ∷ (record {
      header = record { ts_sec = 9; ts_usec = 0; incl_len = 0; orig_len = 0 };
      bytes = [];
    }
        ∷ [])

-- A file that is cut in the body of its first packet has no packet, one that is no capture is
-- refused, and a packet above the limit ends the loop.
damaged_files :
    (read_file (some (take 41 (put_file true 100 raws))) ≡ some [])
    × (read_file (some (take 30 (1 ∷ put_file true 100 raws))) ≡ none)
    × (read_file (some (put_file false 1 raws)) ≡ some [])
unfolding read_file open_file check_header accept_header global_header swap16 swap32 read
    read_packets read_next_packet after_header read_body packet_header before_end
damaged_files = (refl, refl, refl)

read_file-put_file_example : read_file (some (put_file true 100 raws)) ≡ some raws
read_file-put_file_example = read_file-put_file true 100 raws (omega arith) (
  record {
    sec_word = omega arith;
    usec_word = omega arith;
    orig_word = omega arith;
    length_word = omega arith;
    whole = refl;
    short = inr (omega arith);
  },
  (
    record {
      sec_word = omega arith;
      usec_word = omega arith;
      orig_word = omega arith;
      length_word = omega arith;
      whole = refl;
      short = inr (omega arith);
    },
    tt,
  ),
)

abbrev reader : PcapReader
reader = reader_at true (written_header 100) (put_packets true raws)

read_packets-IsFair_example :
    All (IsFair 100) (read_packets 5 reader empty_raw)
    × (taken (read_packets 5 reader empty_raw) ≤ remaining reader.file)
read_packets-IsFair_example = read_packets-IsFair 5 reader empty_raw

-- A header of a gigabyte in front of three bytes.
abbrev huge : PcapPacketHeader
huge = record { ts_sec = 1; ts_usec = 2; incl_len = 0x4000_0000; orig_len = 60 }

read_next_packet-allocates_example :
    (r' : PcapReader) × (out' : RawPacket) × (read_next_packet
        (reader_at true (written_header 0) (put_header true huge ++ (1 ∷ 2 ∷ 3 ∷ [])))
        empty_raw
      ≡ (r', out', false))
    × (length out'.bytes ≡ 0x4000_0000)
read_next_packet-allocates_example =
    read_next_packet-allocates true (written_header 0) empty_raw huge (1 ∷ 2 ∷ 3 ∷ []) refl
      (omega arith) (omega arith) (omega arith) (omega arith) (omega arith)

-- An open of a reader that is open closes it and fails.
reopened :
    open_file reader (some (put_file true 100 raws)) ≡ (record reader { file = closed }, false)
unfolding open_file
reopened = refl
