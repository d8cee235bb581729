-- ===== src/Monitoring/NetworkMonitor/Outcomes.antt =====
-- How a call of `monitor` of src/monitoring/network_monitor.cpp comes out.
use slipnet.Prelude.{
  ℕ, ◌≡◌, refl, Bool, true, false, ◌||◌, Option, none, some, if◌then◌else◌, Bytes, is_empty,
}
use slipnet.Prelude.Int.{ℤ, pos, lt_int}
use slipnet.Monitoring.NetworkMonitor.{
  NetworkStats, NetworkStatsDelta, Timing, Monitor, Outcome, Surroundings, rounds, summarize, start,
  calculate_delta, monitor, read_stats, seconds_of,
}

either :
    {Double : Type 0} (P : Outcome Double → Type 0) (test : Bool) (o : Outcome Double)
    → P Outcome.rejected
    → (test ≡ false → P o)
    → P (if test then Outcome.rejected else o)
either P true o r f = r
either P false o r f = f refl

-- A call is refused, or the loop runs on an interval in range.
pub monitor-either :
    {Double : Type 0} (timing : Timing Double) (around : Surroundings) (P : Outcome Double → Type 0)
    (limit : ℕ) (interface_name : Bytes) (interval : ℤ)
    → P Outcome.rejected
    → (is_empty interface_name ≡ false
        → (lt_int interval (pos 1) || lt_int (pos 3600) interval) ≡ false
        → is_empty (read_stats (around.status 0)).interface_name ≡ false
        → P (
            summarize timing around
              (read_stats (around.status 0))
              (around.clock 0)
              (rounds timing around limit (seconds_of interval) (start timing around))))
    → P (monitor timing around limit interface_name interval)
unfolding monitor
monitor-either timing around P limit interface_name interval r f =
    either P _ _ r (λ a. either P _ _ r (λ b. either P _ _ r (λ _. either P _ _ r (λ d. f a b d))))

module _ {Double : Type 0} where
  abbrev pub WhenSome : (Monitor Double → Type 0) → Option (Monitor Double) → Type 0
  WhenSome P none = Unit
  WhenSome P (some m) = P m

  pub WhenSome-map :
      (P Q : Monitor Double → Type 0) (o : Option (Monitor Double))
      → ((m : Monitor Double) → P m → Q m)
      → WhenSome P o
      → WhenSome Q o
  WhenSome-map P Q none f h = tt
  WhenSome-map P Q (some m) f h = f m h

  abbrev pub WhenFinished :
      (Monitor Double → NetworkStatsDelta Double → Type 0) → Outcome Double → Type 0
  WhenFinished P Outcome.rejected = Unit
  WhenFinished P Outcome.unfinished = Unit
  WhenFinished P (Outcome.finished m summary) = P m summary

module _ {Double : Type 0} (timing : Timing Double) (around : Surroundings) where
  -- The summary of a run that ended in a state.
  abbrev pub summary_of : NetworkStats → ℕ → Monitor Double → NetworkStatsDelta Double
  summary_of initial begin m =
      calculate_delta timing initial (read_stats (around.status m.status_reads))
        (timing.seconds begin (around.clock m.clock_reads))

  pub WhenFinished-summarize :
      (P : Monitor Double → NetworkStatsDelta Double → Type 0) (initial : NetworkStats) (begin : ℕ)
      (o : Option (Monitor Double))
      → WhenSome (λ m. P m (summary_of initial begin m)) o
      → WhenFinished P (summarize timing around initial begin o)
  WhenFinished-summarize P initial begin none h = tt
  WhenFinished-summarize P initial begin (some m) h = h
