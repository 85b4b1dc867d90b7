-- ===== src/Pcap/Allocation.antt =====
-- The room that `readNextPacket` of src/pcap_reader.cpp makes for a packet before it reads its bytes.
use flow_dpi.Prelude.{
  ℕ, ◌≡◌, ◌<◌, ◌^◌, ◌∙◌, ap, List, length, Bool, true, false, none, ◌++◌, ltb, arith,
}
use flow_dpi.Types.{PcapPacketHeader, RawPacket}
use flow_dpi.Pcap.{
  read, opened, PcapGlobalHeader, PcapReader, read_body, read_next_packet, resize, overwrite, [],
}
use flow_dpi.Pcap.RoundTrip.{
  put_header, reader_at, read_exact, packet_header-put, length-put_header, read_next_packet-read,
}
use flow_dpi.Pcap.Bounds.{length-resize, length-overwrite}

read_short :
    (n : ℕ) (bytes : List ℕ)
    → length bytes < n
    → read n (opened bytes true) ≡ (none, opened [] false)
unfolding read
read_short n bytes h = ground arith

read_body-short :
    (swapped : Bool) (h : PcapGlobalHeader) (out : RawPacket) (hdr : PcapPacketHeader)
    (bytes : List ℕ)
    → h.snaplen ≡ 0
    → length bytes < hdr.incl_len
    → (r' : PcapReader) × (out' : RawPacket) × (read_body (reader_at swapped h bytes) out hdr
        ≡ (r', out', false))
      × (length out'.bytes ≡ hdr.incl_len)
unfolding read_body
read_body-short swapped h out hdr bytes unlimited short =
    let something : ltb 0 hdr.incl_len ≡ true = ground arith in
    (
      record (reader_at swapped h bytes) { file = opened [] false },
      record { header = hdr; bytes = overwrite bytes (resize hdr.incl_len out.bytes) },
      simp (unlimited, something, read_short hdr.incl_len bytes short),
      length-overwrite bytes (resize hdr.incl_len out.bytes) ∙ length-resize hdr.incl_len out.bytes,
    )

-- In a file whose limit is 0, a header that says more bytes than follow it: the call returns false,
-- and has made room for as many bytes as the header says, whatever 32-bit number that is.
pub read_next_packet-allocates :
    (swapped : Bool) (h : PcapGlobalHeader) (out : RawPacket) (hdr : PcapPacketHeader)
    (bytes : List ℕ)
    → h.snaplen ≡ 0
    → hdr.ts_sec < 2 ^ 32
    → hdr.ts_usec < 2 ^ 32
    → hdr.incl_len < 2 ^ 32
    → hdr.orig_len < 2 ^ 32
    → length bytes < hdr.incl_len
    → (r' : PcapReader) × (out' : RawPacket) × (read_next_packet
          (reader_at swapped h (put_header swapped hdr ++ bytes))
          out
        ≡ (r', out', false))
      × (length out'.bytes ≡ hdr.incl_len)
read_next_packet-allocates swapped h out hdr bytes unlimited sec usec incl orig short =
    let (r', out', e, room) = read_body-short swapped h out hdr bytes unlimited short in
    (
      r',
      out',
      read_next_packet-read (reader_at swapped h (put_header swapped hdr ++ bytes)) out
            (put_header swapped hdr) (opened bytes true)
            (read_exact (put_header swapped hdr) bytes 16 (length-put_header swapped hdr))
          ∙ ap (read_body (reader_at swapped h bytes) out)
              (packet_header-put swapped hdr sec usec incl orig)
          ∙ e,
      room,
    )
