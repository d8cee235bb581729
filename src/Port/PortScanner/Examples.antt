-- ===== src/Port/PortScanner/Examples.antt =====
-- The model of src/port/port_scanner.cpp at concrete inputs, with an insertion sort for `std::sort`.
use slipnet.Prelude.{ℕ, ◌+◌, ◌≡◌, refl, Bool, false, map, leb, ◌==◌, ◌||◌, Bytes, codes, arith}
use slipnet.Prelude.Int.{pos, negsuc}
use slipnet.Prelude.Sorting.{sort_by, sort_by-IsSort}
use slipnet.Port.PortScanner.{Connector, common_ports, worker, scan, scan_range}
use slipnet.Port.PortScanner.Rounds.{Starts}
use slipnet.Prelude.Flags.{StaysSet}
use slipnet.Port.PortScanner.Scans.{
  number, ports_between, scan_range-Starts, scan_range-ports_between, scan-Starts,
}

-- Ports 22 and 80 are open.
abbrev connector : Connector ℕ
connector = record {
  zero_ms = 0;
  is_stopped = λ port. false;
  connects = λ host port timeout. port == 22 || port == 80;
  elapsed = λ port. port + 1;
}

-- The flag is set from the hundredth answer on.
abbrev stop : ℕ → Bool
stop n = leb 100 n

stop-StaysSet : StaysSet stop
stop-StaysSet n e = ground arith

abbrev host : Bytes
host = codes "10.0.0.5"

scan_range-Starts_example :
    Starts
      (scan_range connector stop (sort_by number) host (pos 1) (pos 1024))
      (map (worker connector host) (ports_between (pos 1) (pos 1024)))
scan_range-Starts_example =
    scan_range-Starts connector stop (sort_by number) (sort_by-IsSort number) host (pos 1)
      (pos 1024) stop-StaysSet

scan_range-ports_between_example :
    scan_range connector (λ n. false) (sort_by number) host (negsuc 4) (pos 100)
    ≡ map (worker connector host) (ports_between (negsuc 4) (pos 100))
scan_range-ports_between_example =
    scan_range-ports_between connector (λ n. false) (sort_by number) (sort_by-IsSort number) host
      (negsuc 4) (pos 100) (λ n. refl)

scan-Starts_example :
    Starts (scan connector stop (sort_by number) host) (map (worker connector host) common_ports)
scan-Starts_example =
    scan-Starts connector stop (sort_by number) (sort_by-IsSort number) host stop-StaysSet
