-- ===== src/Monitoring/NetworkMonitor.antt =====
-- include/monitoring/network_stats.hpp and src/monitoring/network_monitor.cpp, but for what is printed
-- around the numbers. `Double` stands for `double`, with the operations on it that the code uses. The
-- answers of the interrupt flag, the readings of the clock and of the counters are sequences, and the
-- state counts how many of each were used.
pub mod Outcomes
pub mod Sampling
pub mod Stopping
mod Examples
use slipnet.Prelude.{
  ℕ, zero, suc, ◌+◌, ◌-◌, Bool, true, false, not, ◌||◌, Option, none, some, List, [], ◌∷◌, ◌++◌,
  ltb, leb, if◌then◌else◌, Bytes, is_empty,
}
use slipnet.Prelude.Int.{ℤ, pos, lt_int}

-- `platform::NetworkStatus`.
pub record NetworkStatus : Type 0 where
  pub interface_name : Bytes
  pub ipv4_address : Bytes
  pub up : Bool
  pub rx_packets : ℕ
  pub tx_packets : ℕ
  pub rx_bytes : ℕ
  pub tx_bytes : ℕ
  pub rx_errors : ℕ
  pub tx_errors : ℕ
  pub rx_dropped : ℕ
  pub tx_dropped : ℕ

pub record NetworkStats : Type 0 where
  pub interface_name : Bytes
  pub ipv4_address : Bytes
  pub up : Bool
  pub rx_packets : ℕ
  pub tx_packets : ℕ
  pub rx_bytes : ℕ
  pub tx_bytes : ℕ
  pub rx_errors : ℕ
  pub tx_errors : ℕ
  pub rx_dropped : ℕ
  pub tx_dropped : ℕ

pub record NetworkStatsDelta (Double : Type 0) : Type 0 where
  pub rx_packets : ℕ
  pub tx_packets : ℕ
  pub rx_bytes : ℕ
  pub tx_bytes : ℕ
  pub rx_errors : ℕ
  pub tx_errors : ℕ
  pub rx_dropped : ℕ
  pub tx_dropped : ℕ
  pub rx_packets_per_second : Double
  pub tx_packets_per_second : Double
  pub rx_bytes_per_second : Double
  pub tx_bytes_per_second : Double

-- `readStats`, from what the platform answers.
abbrev pub read_stats : NetworkStatus → NetworkStats
read_stats status = record {
  interface_name = status.interface_name;
  ipv4_address = status.ipv4_address;
  up = status.up;
  rx_packets = status.rx_packets;
  tx_packets = status.tx_packets;
  rx_bytes = status.rx_bytes;
  tx_bytes = status.tx_bytes;
  rx_errors = status.rx_errors;
  tx_errors = status.tx_errors;
  rx_dropped = status.rx_dropped;
  tx_dropped = status.tx_dropped;
}

-- A counter that fell was reset.
unfoldable pub counter_delta : ℕ → ℕ → ℕ
counter_delta current previous = if ltb current previous then current else current - previous

-- What the code does with `double`: 0.0, the seconds between two readings of the clock, the test
-- `> 0.0`, and the division of a counter by seconds.
pub record Timing (Double : Type 0) : Type 0 where
  pub zero_seconds : Double
  pub seconds : ℕ → ℕ → Double
  pub is_positive : Double → Bool
  pub per_second : ℕ → Double → Double

module _ {Double : Type 0} (timing : Timing Double) where
  open timing use {zero_seconds, is_positive, per_second}

  abbrev no_delta : NetworkStatsDelta Double
  no_delta = record {
    rx_packets = 0;
    tx_packets = 0;
    rx_bytes = 0;
    tx_bytes = 0;
    rx_errors = 0;
    tx_errors = 0;
    rx_dropped = 0;
    tx_dropped = 0;
    rx_packets_per_second = zero_seconds;
    tx_packets_per_second = zero_seconds;
    rx_bytes_per_second = zero_seconds;
    tx_bytes_per_second = zero_seconds;
  }

  unfoldable pub calculate_delta : NetworkStats → NetworkStats → Double → NetworkStatsDelta Double
  unfolding counter_delta
  calculate_delta previous current elapsed =
      if not (is_positive elapsed) then no_delta else record {
        rx_packets = counter_delta current.rx_packets previous.rx_packets;
        tx_packets = counter_delta current.tx_packets previous.tx_packets;
        rx_bytes = counter_delta current.rx_bytes previous.rx_bytes;
        tx_bytes = counter_delta current.tx_bytes previous.tx_bytes;
        rx_errors = counter_delta current.rx_errors previous.rx_errors;
        tx_errors = counter_delta current.tx_errors previous.tx_errors;
        rx_dropped = counter_delta current.rx_dropped previous.rx_dropped;
        tx_dropped = counter_delta current.tx_dropped previous.tx_dropped;
        rx_packets_per_second =
            per_second (counter_delta current.rx_packets previous.rx_packets) elapsed;
        tx_packets_per_second =
            per_second (counter_delta current.tx_packets previous.tx_packets) elapsed;
        rx_bytes_per_second = per_second (counter_delta current.rx_bytes previous.rx_bytes) elapsed;
        tx_bytes_per_second = per_second (counter_delta current.tx_bytes previous.tx_bytes) elapsed;
      }

-- The local variables of `monitor`, the samples displayed, and how much was asked, read and slept.
pub record Monitor (Double : Type 0) : Type 0 where
  pub previous : NetworkStats
  pub previous_time : ℕ
  pub samples : List (NetworkStatsDelta Double)
  pub asked : ℕ
  pub clock_reads : ℕ
  pub status_reads : ℕ
  pub slept : ℕ

-- `false`; or the loop is not done in the rounds given; or `true`, with the samples and the summary.
pub data Outcome (Double : Type 0) : Type 0 where
  rejected : Outcome Double
  unfinished : Outcome Double
  finished : Monitor Double → NetworkStatsDelta Double → Outcome Double

-- An interval that was checked, as a count of seconds.
abbrev pub seconds_of : ℤ → ℕ
seconds_of (pos n) = n
seconds_of _ = 0

-- What `monitor` meets: the flag, the clock, and the platform.
pub record Surroundings : Type 0 where
  pub stop : ℕ → Bool
  pub clock : ℕ → ℕ
  pub available : Bool
  pub status : ℕ → NetworkStatus

module _ {Double : Type 0} (timing : Timing Double) (around : Surroundings) where
  open timing use {seconds}
  open around use {stop, clock, available, status}

  abbrev pub ask : Monitor Double → Monitor Double
  ask m = record m { asked = m.asked + 1 }

  -- The loop that sleeps a second at a time, with the seconds that are left.
  unfoldable pub sleep : ℕ → Monitor Double → Monitor Double
  sleep zero m = m
  sleep (suc n) m =
      let rest = sleep n (record (ask m) { slept = m.slept + 1 }) in
      if stop m.asked then ask m else rest

  -- `displaySample` and what follows it.
  abbrev pub sample : Monitor Double → Monitor Double
  sample m =
      let sample_time = clock m.clock_reads in
      let current = read_stats (status m.status_reads) in
      let elapsed = seconds m.previous_time sample_time in
      record m {
        samples = m.samples ++ calculate_delta timing m.previous current elapsed ∷ [];
        previous = current;
        previous_time = sample_time;
        clock_reads = m.clock_reads + 1;
        status_reads = m.status_reads + 1;
      }

  -- The loop until the flag is seen, within a number of rounds.
  unfoldable pub rounds : ℕ → ℕ → Monitor Double → Option (Monitor Double)
  unfolding sleep
  rounds zero interval m = none
  rounds (suc n) interval m =
      let slept = sleep interval (ask m) in
      let rest = rounds n interval (sample (ask slept)) in
      if stop m.asked then some (ask m) else if stop slept.asked then some (ask slept) else rest

  -- The final snapshot and the summary.
  abbrev pub summarize : NetworkStats → ℕ → Option (Monitor Double) → Outcome Double
  summarize initial start none = Outcome.unfinished
  summarize initial start (some m) =
      let last = read_stats (status m.status_reads) in
      Outcome.finished m (calculate_delta timing initial last (seconds start (clock m.clock_reads)))

  -- The first snapshot is read by `monitor`, the second by `displayHeader`.
  abbrev pub start : Monitor Double
  start = record {
    previous = read_stats (status 0);
    previous_time = clock 0;
    samples = [];
    asked = 0;
    clock_reads = 1;
    status_reads = 2;
    slept = 0;
  }

  unfoldable pub monitor : ℕ → Bytes → ℤ → Outcome Double
  unfolding rounds
  monitor limit interface_name interval =
      let initial = read_stats (status 0) in
      let loop = summarize initial (clock 0) (rounds limit (seconds_of interval) start) in
      if is_empty interface_name
      then Outcome.rejected
      else if lt_int interval (pos 1) || lt_int (pos 3600) interval
      then Outcome.rejected
      else if not available
      then Outcome.rejected
      else if is_empty initial.interface_name
      then Outcome.rejected
      else loop
