-- ===== src/Cli/Tests.antt =====
-- The program on the options of two workers, and a file with the header of a capture.
use flow_dpi.Prelude.{
  ltb, ◌%◌, arith, ◌<◌, ◌&&◌, ◌||◌, ◌==◌, ℕ, ◌≡◌, ◌-◌, ◌^◌, refl, List, [], ◌∷◌, ◌++◌, replicate,
  Option, none, some,
}
use flow_dpi.Prelude.Fallible.{◌>>=◌}
use flow_dpi.Prelude.Text.{to_string, list_eq}
use flow_dpi.Types.{L4Protocol, tcp}
use flow_dpi.Engine.Describe.{codes, ip_to_string}
use flow_dpi.Latency.Tests.{thousandths, thousandths-IsScale}
use flow_dpi.Cli.Addresses.{read_arguments-block_ip}
use flow_dpi.Rules.{is_blocked_ip, no_rules, is_blocked_port}
use flow_dpi.Rules.Sets.{same_protocol}
use flow_dpi.Cli.Ports.{read_arguments-block_port}
use flow_dpi.Cli.{
  Settings, proceeds, stoul, unsigned_long, read_digits, from_chars, parse_port, one_value,
  read_arguments, thrown,
}
use flow_dpi.Cli.Live.{reported, run_live-caught}
use flow_dpi.Cli.Main.{
  aborts, print_attempt, run_concurrent, run_file, LibPcap, captured, run_live, Exit, Platform,
  failed, usage, usage_live, main, default_settings,
}
use flow_dpi.Concurrent.File.{process_shards, process_file_concurrently, new_concurrent_engine}
use flow_dpi.Pcap.{
  read_file, open_file, check_header, accept_header, global_header, swap16, swap32, read,
}
use flow_dpi.Cli.Exits.{options_outcome, IsReported, main-exits}

abbrev arguments : List (List ℕ)
arguments = codes "a.pcap" ∷ codes "--workers" ∷ codes "2" ∷ []

abbrev one_file : List ℕ → Option (List ℕ)
one_file name = some ((0xd4 ∷ 0xc3 ∷ 0xb2 ∷ 0xa1 ∷ []) ++ replicate 20 0)

abbrev machine : Platform
machine = record {
  stored = λ v. v % 2 ^ 32;
  std_hash = record { hash32 = λ v. v; hash16 = λ v. v; hash8 = λ v. v };
  scale = thousandths;
  show_double = to_string;
  starts = λ n. ltb n (2 ^ 60);
  clock = λ i. i;
  files = one_file;
  live = none;
}

main-exits_example :
    (exit : Exit) × (main machine (codes "flowdpi") arguments ≡ some exit)
    × IsReported machine.starts (options_outcome machine arguments) exit
main-exits_example = main-exits machine (codes "flowdpi") arguments thousandths-IsScale

-- More workers than a vector holds.
many_workers :
    main machine (codes "flowdpi") (codes "a.pcap" ∷ codes "--workers" ∷ codes "-1" ∷ [])
    ≡ some (aborts [])
unfolding main run_file run_concurrent print_attempt new_concurrent_engine process_file_concurrently
    process_shards read_arguments one_value stoul unsigned_long read_digits list_eq read_file
    open_file check_header accept_header global_header swap16 swap32 read ◌>>=◌
many_workers = refl

-- Without arguments, and a live capture in a build without libpcap.
no_arguments :
    main machine (codes "dpi") []
    ≡ failed (
        codes "Usage: dpi <pcap-file> [--block-ip <ip>]... [--block-domain <domain>]... "
        ++ codes "[--block-port <tcp|udp> <port>]... [--workers <n>]\n")
unfolding main usage usage_live
no_arguments = refl

-- A number of workers that is no number, one below zero, and a port with a letter behind it.
workers_word :
    read_arguments (λ v. v % 2 ^ 32) (codes "--workers" ∷ codes "x" ∷ []) default_settings
    ≡ thrown []
unfolding read_arguments one_value stoul unsigned_long read_digits list_eq
workers_word = refl

negative_workers : stoul (codes " -1") ≡ some (2 ^ 64 - 1)
unfolding stoul unsigned_long read_digits
negative_workers = refl

port_with_letter : parse_port (λ v. v % 2 ^ 32) (codes "443x") ≡ none
unfolding parse_port from_chars read_digits ◌>>=◌
port_with_letter = refl

port_443 : parse_port (λ v. v % 2 ^ 32) (codes "443") ≡ some 443
unfolding parse_port from_chars read_digits ◌>>=◌
port_443 = refl

read_arguments-block_port_example :
    (s' : Settings) × (read_arguments
        (λ v. v % 2 ^ 32)
        (codes "--block-port" ∷ codes "tcp" ∷ codes "443" ∷ [])
        default_settings
      ≡ proceeds s')
    × (s'.num_workers ≡ 1)
    × (s'.errors ≡ [])
    × ((q : L4Protocol) (other : ℕ)
        → other < 2 ^ 16
        → is_blocked_port s'.rules q other
          ≡ ((same_protocol tcp q && 443 == other) || is_blocked_port no_rules q other))
unfolding to_string
read_arguments-block_port_example =
    read_arguments-block_port (λ v. v % 2 ^ 32) default_settings 443 (omega arith)

-- One frame of four bytes, of which two are captured, on the first handle.
abbrev libpcap : LibPcap
libpcap = record {
  open_error = λ handle name. none;
  datalink = λ handle. 1;
  dlt_en10mb = 1;
  frames = λ handle. ((1 ∷ 2 ∷ 3 ∷ 4 ∷ [], 2)) ∷ [];
}

run_live-caught_example :
    run_live machine libpcap (codes "eth0") (proceeds default_settings)
    ≡ reported machine libpcap (codes "eth0") default_settings (captured (1 ∷ 2 ∷ []) ∷ [])
run_live-caught_example = run_live-caught machine libpcap (codes "eth0") default_settings refl refl

read_arguments-block_ip_example :
    (s' : Settings) × (read_arguments
        (λ v. v % 2 ^ 32)
        (codes "--block-ip" ∷ codes "192.168.1.1 or so" ∷ [])
        default_settings
      ≡ proceeds s')
    × (s'.num_workers ≡ 1)
    × (s'.errors ≡ [])
    × ((other : ℕ)
        → is_blocked_ip s'.rules other ≡ (0xC0A80101 == other || is_blocked_ip no_rules other))
unfolding ip_to_string to_string
read_arguments-block_ip_example =
    read_arguments-block_ip (λ v. v % 2 ^ 32) default_settings 0xC0A80101 (codes " or so")
      (omega arith) refl
