-- ===== src/Lib.antt =====
-- FlowDPI: a deep packet inspection engine that reports traffic matching block rules.
--
-- The program reads frames from a capture (src/pcap_reader.cpp), parses their headers (src/packet_parser.cpp), keeps a
-- state for each directional flow, reassembles its TCP bytes (src/tcp_reassembler.cpp), looks for the
-- server name of a TLS ClientHello in them (src/tls_parser.cpp) and matches addresses, ports and
-- names against rules (src/block_rules.cpp); src/dpi_engine.cpp composes these and keeps the report.
--
-- Files:
--   Prelude    shared names, tests on numbers, lists and slices, byte texts, a monad over Option
--   Types      include/types.h, with FiveTupleHash as five_tuple_hash
--   Tls        src/tls_parser.cpp: tryExtractSni as try_extract_sni, its stages as functions of
--              their own (record_length, handshake, client_hello, extensions, scan_extensions,
--              server_names, scan_names); Tls/Monad has the early returns and the reads
--   Packet     src/packet_parser.cpp: PacketParser::parse as parse, with parse_ethernet,
--              parse_ipv4, parse_tcp and parse_udp; Packet/Monad has the reads
--   Tcp        src/tcp_reassembler.cpp: addSegment as add_segment (place_cursor, store_segment),
--              pullContiguous as pull_contiguous (pull_loop, consume), seqLessThan as seq_less_than
--   Rules      src/block_rules.cpp, a function for each operation
--   Pcap       src/pcap_reader.cpp: open as open_file, readNextPacket as read_next_packet, and the
--              loop over it as read_packets
--   Engine     src/dpi_engine.cpp: processParsedPacket as process_parsed_packet (inspect,
--              extract, inspect_domain), tryResolveSni as try_resolve_sni; Engine/State has the
--              types of include/dpi_engine.h, Engine/Describe the texts, Engine/File processFile
--   Queue      include/bounded_queue.h: push, pop and close under the mutex, a wait as a missing step;
--              Queue/Traces has the calls of all threads in one order; Queue/Waiting has the threads
--              inside the calls, with their waits, notifications and wake-ups as steps
--   Concurrent src/concurrent_dpi_engine.cpp: processFile as process_file_concurrently (Concurrent/File),
--              with the exception of workers that do not start; its work as process_concurrently, with a
--              list of packets for each worker in the place of its queue and thread;
--              Concurrent/Threads has the threads: System is the load balancer and the workers with their queues, Step a step of one
--              thread, Run any number of them in any order; Concurrent/Segments follows the segments
--              of one flow through a worker's loop
--   Latency    computeLatencyPercentiles of src/dpi_engine.cpp and computeStats of src/benchmark.cpp
--   Report     renderReport of both engines: render_report, render_merged_report
--   Cli        src/main.cpp: parseIpv4, parsePort and the options as read_arguments; Cli/Main has
--              main, with the choice of the engine, the live mode over LiveCapture and what goes
--              to both streams
--   LiveCapture src/live_capture.cpp, over the calls of libpcap
--   Bench      src/benchmark.cpp: the builders of frames and of ClientHello records; Bench/Timing has
--              the timed loops and main as benchmark_main
--
-- How state and operations correspond: a class is a record of its fields, a method a function that
-- returns the new record. Bytes, words and sizes are natural numbers; uint16_t, uint32_t and uint64_t
-- keep their wrap-around as a remainder, and shifts and masks are quotients and remainders. A buffer
-- is the list of its bytes, a pointer into it an offset. A read outside a buffer is a result of its
-- own (fault in Tls, none elsewhere), which the safety theorems exclude. Sums of sizes stay far below
-- 2 ^ 64 and are plain. A std::map or unordered_map is a list of its entries, a std::string the list
-- of its bytes. The time that a packet takes is an argument.
--
-- Fuel: scan_names and scan_extensions take one more than the end of their range, and each round goes
-- at least three bytes forward, so it cannot run out. digits_onto takes one more than the number that
-- it writes. read_packets takes the length of the file, and each packet is sixteen bytes of it at least.
-- The number of steps of the threads is bounded in
-- Concurrent/Threads/Ending, that of the threads inside a queue in Queue/Waiting/Measure.
--
-- Parameters: std::hash, what sscanf stores of a number that does not fit, the rounding of a fraction
-- of an index (IsScale says what is assumed of it), the print of a double, the clock, the files, what
-- the calls of libpcap answer, and how many workers start, with their vectors and threads; for the
-- benchmark the rest of the arithmetic of doubles (Machine in Bench/Timing).
--
-- Not modelled: an allocation of bytes or of entries that fails, the installation of the signal
-- handler, which only calls stop, and the tests.
pub mod Prelude
pub mod Types
pub mod Tls
pub mod Packet
pub mod Tcp
pub mod Rules
pub mod Pcap
pub mod Queue
pub mod Concurrent
pub mod Cli
pub mod Latency
pub mod Report
pub mod LiveCapture
pub mod Engine
pub mod Bench
