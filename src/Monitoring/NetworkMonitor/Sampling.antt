-- ===== src/Monitoring/NetworkMonitor/Sampling.antt =====
-- What the samples of src/monitoring/network_monitor.cpp add up to.
use slipnet.Prelude.{
  ℕ, zero, suc, ◌+◌, ◌≤◌, ◌<◌, ◌≡◌, refl, ap, ◌∙◌, inl, inr, true, List, [], ◌∷◌, ◌++◌, Bool-cases,
  Bytes, arith,
}
use slipnet.Prelude.Int.{ℤ}
use slipnet.Monitoring.NetworkMonitor.{
  NetworkStats, NetworkStatsDelta, Timing, Monitor, Surroundings, counter_delta, calculate_delta,
  ask, sleep, sample, rounds, start, monitor, read_stats, seconds_of,
}
use slipnet.Monitoring.NetworkMonitor.Outcomes.{
  WhenSome, WhenFinished, summary_of, WhenFinished-summarize, WhenSome-map, monitor-either,
}

-- The counters, and where they stand.
pub data Counter : Type 0 where
  rx_packets : Counter
  tx_packets : Counter
  rx_bytes : Counter
  tx_bytes : Counter
  rx_errors : Counter
  tx_errors : Counter
  rx_dropped : Counter
  tx_dropped : Counter

abbrev pub reading : Counter → NetworkStats → ℕ
reading Counter.rx_packets s = s.rx_packets
reading Counter.tx_packets s = s.tx_packets
reading Counter.rx_bytes s = s.rx_bytes
reading Counter.tx_bytes s = s.tx_bytes
reading Counter.rx_errors s = s.rx_errors
reading Counter.tx_errors s = s.tx_errors
reading Counter.rx_dropped s = s.rx_dropped
reading Counter.tx_dropped s = s.tx_dropped

module _ {Double : Type 0} where
  abbrev pub counted : Counter → NetworkStatsDelta Double → ℕ
  counted Counter.rx_packets d = d.rx_packets
  counted Counter.tx_packets d = d.tx_packets
  counted Counter.rx_bytes d = d.rx_bytes
  counted Counter.tx_bytes d = d.tx_bytes
  counted Counter.rx_errors d = d.rx_errors
  counted Counter.tx_errors d = d.tx_errors
  counted Counter.rx_dropped d = d.rx_dropped
  counted Counter.tx_dropped d = d.tx_dropped

  abbrev pub total : Counter → List (NetworkStatsDelta Double) → ℕ
  total c [] = 0
  total c (d ∷ deltas) = counted c d + total c deltas

  total-append :
      (c : Counter) (ds es : List (NetworkStatsDelta Double))
      → total c (ds ++ es) ≡ total c ds + total c es
  total-append c [] es = omega arith
  total-append c (d ∷ ds) es = omega (arith, total-append c ds es)

counted-calculate_delta :
    {Double : Type 0} (timing : Timing Double) (c : Counter) (previous current : NetworkStats)
    (elapsed : Double)
    → timing.is_positive elapsed ≡ true
    → counted c (calculate_delta timing previous current elapsed)
      ≡ counter_delta (reading c current) (reading c previous)
unfolding calculate_delta
counted-calculate_delta timing Counter.rx_packets previous current elapsed e = rw e refl
counted-calculate_delta timing Counter.tx_packets previous current elapsed e = rw e refl
counted-calculate_delta timing Counter.rx_bytes previous current elapsed e = rw e refl
counted-calculate_delta timing Counter.tx_bytes previous current elapsed e = rw e refl
counted-calculate_delta timing Counter.rx_errors previous current elapsed e = rw e refl
counted-calculate_delta timing Counter.tx_errors previous current elapsed e = rw e refl
counted-calculate_delta timing Counter.rx_dropped previous current elapsed e = rw e refl
counted-calculate_delta timing Counter.tx_dropped previous current elapsed e = rw e refl

counter_delta_grown : (a b : ℕ) → a ≤ b → counter_delta b a + a ≡ b
unfolding counter_delta
counter_delta_grown a b h = ground arith

-- No counter of the interface falls, and time passes between two readings of the clock.
pub record Steady {Double : Type 0} (timing : Timing Double) (around : Surroundings) : Type 0 where
  pub grows :
      (c : Counter) (i : ℕ)
      → reading c (read_stats (around.status i)) ≤ reading c (read_stats (around.status (i + 1)))
  pub passes :
      (i j : ℕ)
      → i < j
      → timing.is_positive (timing.seconds (around.clock i) (around.clock j)) ≡ true

-- The summary has what the samples add up to, and what the counter grew behind the last of them.
abbrev pub AddsUp :
    {Double : Type 0} → Surroundings → Counter → Monitor Double → NetworkStatsDelta Double → Type 0
AddsUp around c m summary =
    counted c summary
    ≡ total c m.samples
      + counter_delta (reading c (read_stats (around.status m.status_reads))) (reading c m.previous)

module _ {Double : Type 0} (timing : Timing Double) (around : Surroundings)
    (steady : Steady timing around) (c : Counter) where
  abbrev status_at : ℕ → ℕ
  status_at i = reading c (read_stats (around.status i))

  -- The samples so far add up to what the counter has grown; the last reading of it and of the clock
  -- lie behind.
  record Counted (m : Monitor Double) : Type 0 where
    at_clock : ℕ
    before_clock : at_clock < m.clock_reads
    clock_is : m.previous_time ≡ around.clock at_clock
    summed : total c m.samples + status_at 0 ≡ reading c m.previous
    below : reading c m.previous ≤ status_at m.status_reads

  start-Counted : Counted (start timing around)
  start-Counted =
      let first : status_at 0 ≤ status_at 1 = steady.grows c 0 in
      let second : status_at 1 ≤ status_at 2 = steady.grows c 1 in
      record {
        at_clock = 0;
        before_clock = omega arith;
        clock_is = refl;
        summed = omega arith;
        below = omega arith;
      }

  -- A question, and a second slept, do not count.
  same-Counted :
      (m : Monitor Double) (asked slept : ℕ)
      → Counted m
      → Counted (record m { asked = asked; slept = slept })
  same-Counted m asked slept h = record {
    at_clock = h.at_clock;
    before_clock = h.before_clock;
    clock_is = h.clock_is;
    summed = h.summed;
    below = h.below;
  }

  sleep-Counted : (n : ℕ) (m : Monitor Double) → Counted m → Counted (sleep timing around n m)
  unfolding sleep
  sleep-Counted zero m h = h
  sleep-Counted (suc n) m h = elim (Bool-cases (around.stop m.asked)) [
    | inl e ↦ rw e (same-Counted m (m.asked + 1) m.slept h)
    | inr e ↦ rw e (sleep-Counted n _ (same-Counted m (m.asked + 1) (m.slept + 1) h))
  ]

  sample-Counted : (m : Monitor Double) → Counted m → Counted (sample timing around m)
  sample-Counted m h =
      let current = read_stats (around.status m.status_reads) in
      let elapsed = timing.seconds m.previous_time (around.clock m.clock_reads) in
      let delta = calculate_delta timing m.previous current elapsed in
      let moved : timing.is_positive elapsed ≡ true =
        ap (λ t. timing.is_positive (timing.seconds t (around.clock m.clock_reads))) h.clock_is
        ∙ steady.passes h.at_clock m.clock_reads h.before_clock in
      record {
        at_clock = m.clock_reads;
        before_clock = omega arith;
        clock_is = refl;
        summed = omega (
          arith,
          total-append c m.samples (delta ∷ []),
          counted-calculate_delta timing c m.previous current elapsed moved,
          counter_delta_grown (reading c m.previous) (reading c current) h.below,
          h.summed,
        );
        below = steady.grows c m.status_reads;
      }

  rounds-Counted :
      (n interval : ℕ) (m : Monitor Double)
      → Counted m
      → WhenSome Counted (rounds timing around n interval m)
  unfolding rounds
  rounds-Counted zero interval m h = tt
  rounds-Counted (suc n) interval m h =
      let asleep = sleep timing around interval (ask timing around m) in
      let asked = same-Counted m (m.asked + 1) m.slept h in
      let slept = sleep-Counted interval (ask timing around m) asked in
      let again = same-Counted asleep (asleep.asked + 1) asleep.slept slept in
      elim (Bool-cases (around.stop m.asked)) [
        | inl f ↦ rw f asked
        | inr f ↦ elim (Bool-cases (around.stop asleep.asked)) [
          | inl g ↦ rw (f, g) again
          | inr g ↦ rw (f, g) (rounds-Counted n interval _ (sample-Counted _ again))
        ]
      ]

  Counted-AddsUp :
      (m : Monitor Double)
      → Counted m
      → AddsUp around c m
          (summary_of timing around (read_stats (around.status 0)) (around.clock 0) m)
  Counted-AddsUp m h =
      let last = read_stats (around.status m.status_reads) in
      let elapsed = timing.seconds (around.clock 0) (around.clock m.clock_reads) in
      let moved = steady.passes 0 m.clock_reads (omega (arith, h.before_clock)) in
      omega (
        arith,
        counted-calculate_delta timing c (read_stats (around.status 0)) last elapsed moved,
        counter_delta_grown (reading c m.previous) (reading c last) h.below,
        counter_delta_grown (status_at 0) (reading c last) (omega (arith, h.summed, h.below)),
        h.summed,
      )

  -- Where no counter falls and time passes between two readings of the clock, each counter of the
  -- summary of a run that returns is the sum of its samples and of what it grew behind the last.
  pub monitor-AddsUp :
      (limit : ℕ) (interface_name : Bytes) (interval : ℤ)
      → WhenFinished (AddsUp around c) (monitor timing around limit interface_name interval)
  monitor-AddsUp limit interface_name interval =
      monitor-either timing around (WhenFinished (AddsUp around c)) limit interface_name interval tt
        (λ _ _ _.
          let ended = rounds timing around limit (seconds_of interval) (start timing around) in
          WhenFinished-summarize timing around (AddsUp around c) _ _ ended (
            WhenSome-map Counted _ ended Counted-AddsUp
              (rounds-Counted limit (seconds_of interval) (start timing around) start-Counted)))
