-- ===== src/Monitoring/NetworkMonitor/Examples.antt =====
-- A run of the model of src/monitoring/network_monitor.cpp on an interface whose counters grow by ten
-- between two readings, until the tenth question for the flag.
use slipnet.Prelude.{ℕ, ◌+◌, ◌-◌, ◌*◌, ◌/◌, ◌≤◌, ◌≢◌, refl, true, leb, ltb, codes, arith}
use slipnet.Prelude.Int.{pos}
use slipnet.Prelude.Flags.{StaysSet}
use slipnet.Monitoring.NetworkMonitor.{
  NetworkStatus, Timing, Surroundings, Outcome, read_stats, monitor,
}
use slipnet.Monitoring.NetworkMonitor.Outcomes.{WhenFinished}
use slipnet.Monitoring.NetworkMonitor.Stopping.{Slept, monitor_stop, monitor-Slept}
use slipnet.Monitoring.NetworkMonitor.Sampling.{Counter, reading, Steady, AddsUp, monitor-AddsUp}

-- Seconds are whole numbers here.
abbrev timing : Timing ℕ
timing = record {
  zero_seconds = 0;
  seconds = λ a b. b - a;
  is_positive = λ s. ltb 0 s;
  per_second = λ n s. n / s;
}

abbrev status : ℕ → NetworkStatus
status i = record {
  interface_name = codes "eth0";
  ipv4_address = codes "10.0.0.7";
  up = true;
  rx_packets = 10 * i;
  tx_packets = 10 * i;
  rx_bytes = 10 * i;
  tx_bytes = 10 * i;
  rx_errors = 0;
  tx_errors = 0;
  rx_dropped = 10 * i;
  tx_dropped = 10 * i;
}

abbrev around : Surroundings
around = record { stop = λ n. leb 10 n; clock = λ i. 2 * i; available = true; status = status }

around-StaysSet : StaysSet around.stop
around-StaysSet n e = ground arith

readings_grow :
    (c : Counter) (i : ℕ)
    → reading c (read_stats (status i)) ≤ reading c (read_stats (status (i + 1)))
readings_grow Counter.rx_packets i = omega arith
readings_grow Counter.tx_packets i = omega arith
readings_grow Counter.rx_bytes i = omega arith
readings_grow Counter.tx_bytes i = omega arith
readings_grow Counter.rx_errors i = omega arith
readings_grow Counter.tx_errors i = omega arith
readings_grow Counter.rx_dropped i = omega arith
readings_grow Counter.tx_dropped i = omega arith

around-Steady : Steady timing around
around-Steady = record { grows = readings_grow; passes = λ i j h. ground arith }

monitor_stop_example : monitor timing around 11 (codes "eth0") (pos 2) ≢ Outcome.unfinished
monitor_stop_example = monitor_stop timing around around-StaysSet 10 (codes "eth0") (pos 2) refl

monitor-Slept_example :
    WhenFinished (λ m _. Slept 2 m) (monitor timing around 11 (codes "eth0") (pos 2))
monitor-Slept_example = monitor-Slept timing around around-StaysSet 11 (codes "eth0") 2

monitor-AddsUp_example :
    WhenFinished
      (AddsUp around Counter.rx_packets)
      (monitor timing around 11 (codes "eth0") (pos 2))
monitor-AddsUp_example =
    monitor-AddsUp timing around around-Steady Counter.rx_packets 11 (codes "eth0") (pos 2)
