-- ===== src/Port/PortScanner.antt =====
-- include/port/port_scanner.hpp and src/port/port_scanner.cpp. A task started by `std::async` is its
-- result. The interrupt flag is asked over and over by the thread that scans: its answers are a
-- sequence, and the state counts how many were read. `Double` stands for `double`.
pub mod Rounds
pub mod Scans
mod Examples
use slipnet.Prelude.{
  ℕ, zero, suc, ◌+◌, ◌-◌, Bool, true, false, List, [], ◌∷◌, ◌++◌, map, leb, ltb, if◌then◌else◌,
  Bytes, length,
}
use slipnet.Prelude.Int.{ℤ, pos, negsuc}

pub record Port (Double : Type 0) : Type 0 where
  pub number : ℕ
  pub is_open : Bool
  pub latency_ms : Double

-- What a task meets: the flag when it asks, whether `tcpConnect` of a host, a port and a timeout gives
-- a valid connection, and the time between the two readings of the clock.
pub record Connector (Double : Type 0) : Type 0 where
  pub zero_ms : Double
  pub is_stopped : ℕ → Bool
  pub connects : Bytes → ℕ → ℕ → Bool
  pub elapsed : ℕ → Double

abbrev pub common_ports : List ℕ
common_ports =
    21 ∷ 22 ∷ 23 ∷ 25 ∷ 53 ∷ 80 ∷ 110 ∷ 135 ∷ 139 ∷ 143 ∷ 443 ∷ 445 ∷ 3306 ∷ 3389 ∷ 5432 ∷ 5900
    ∷ 6379 ∷ 8080 ∷ 8443 ∷ []

-- `std::max(1, startPort)`, for a port that is compared with ports only.
abbrev pub first_port : ℤ → ℕ
first_port (pos zero) = 1
first_port (pos (suc n)) = suc n
first_port (negsuc n) = 1

-- `std::min(65535, endPort)`; a negative end is below every start.
abbrev pub last_port : ℤ → ℕ
last_port (pos n) = if ltb 65535 n then 65535 else n
last_port (negsuc n) = 0

module _ {Double : Type 0} (connector : Connector Double) (host : Bytes) where
  open connector use {zero_ms, is_stopped, connects, elapsed}

  unfoldable pub check_port : ℕ → Bool × Double
  check_port port =
      if is_stopped port then (false, zero_ms) else (connects host port 2000, elapsed port)

  -- The task of a port.
  pub worker : ℕ → Port Double
  unfolding check_port
  worker port =
      let (is_open, latency) = check_port port in
      record { number = port; is_open = is_open; latency_ms = latency }

-- The local variables of `scan`, with the count of answers read.
pub record Scan (Double : Type 0) : Type 0 where
  pub results : List (Port Double)
  pub futures : List (Port Double)
  pub asked : ℕ

module _ {Double : Type 0} where
  -- The state behind a question.
  abbrev pub ask : Scan Double → Scan Double
  ask s = record s { asked = s.asked + 1 }

  abbrev pub fresh : Scan Double
  fresh = record { results = []; futures = []; asked = 0 }

  -- A loop over the futures that waits for each.
  unfoldable pub collect : (ℕ → Bool) → List (Port Double) → Scan Double → Scan Double
  collect stop [] s = s
  collect stop (future ∷ futures) s =
      let rest = collect stop futures (record (ask s) { results = s.results ++ future ∷ [] }) in
      if stop s.asked then ask s else rest

  -- The wait at the worker limit.
  unfoldable pub wait_full : (ℕ → Bool) → Scan Double → Scan Double
  unfolding collect
  wait_full stop s =
      if leb 64 (length s.futures) then record (collect stop s.futures s) { futures = [] } else s

module _ {Double : Type 0} (stop : ℕ → Bool) (task : ℕ → Port Double) where
  abbrev pub launch : ℕ → Scan Double → Scan Double
  launch port s = record (ask s) { futures = s.futures ++ task port ∷ [] }

  -- The loop over a range, with the rounds that are left.
  unfoldable pub launch_range : ℕ → ℕ → Scan Double → Scan Double
  unfolding wait_full
  launch_range zero port s = s
  launch_range (suc rounds) port s =
      let rest = launch_range rounds (port + 1) (wait_full stop (launch port s)) in
      if stop s.asked then ask s else rest

  -- The loop over the common ports.
  unfoldable pub launch_ports : List ℕ → Scan Double → Scan Double
  launch_ports [] s = s
  launch_ports (port ∷ ports) s =
      let rest = launch_ports ports (launch port s) in if stop s.asked then ask s else rest

  -- The results before they are sorted.
  unfoldable pub range_results : ℕ → ℕ → List (Port Double)
  unfolding launch_range
  range_results start_port end_port =
      let s = launch_range (end_port + 1 - start_port) start_port fresh in
      (collect stop s.futures s).results

module _ {Double : Type 0} (connector : Connector Double) (stop : ℕ → Bool)
    (sort : List (Port Double) → List (Port Double)) where
  unfoldable pub scan : Bytes → List (Port Double)
  unfolding launch_ports
  scan host =
      let s = launch_ports stop (worker connector host) common_ports fresh in
      sort (collect stop s.futures s).results

  unfoldable pub scan_range : Bytes → ℤ → ℤ → List (Port Double)
  unfolding range_results
  scan_range host start_port end_port =
      let low = first_port start_port in
      let high = last_port end_port in
      if ltb high low then [] else sort (range_results stop (worker connector host) low high)
