-- ===== src/Monitoring/NetworkMonitor/Stopping.antt =====
-- When the loop of src/monitoring/network_monitor.cpp ends, what is refused, and how long it sleeps.
use native.Mathlib.Nat.{suc-mul}
use slipnet.Prelude.{
  ℕ, zero, suc, ◌+◌, ◌*◌, ◌≤◌, ◌≡◌, ◌≢◌, ◌⊎◌, refl, sym, ap, ◌∙◌, inl, inr, true, false, some, List,
  [], ◌∷◌, ◌++◌, Bool-cases, Bytes, length, length-append, arith,
}
use slipnet.Prelude.Int.{ℤ, pos}
use slipnet.Prelude.Flags.{StaysSet, StaysSet-later}
use slipnet.Monitoring.NetworkMonitor.Outcomes.{
  WhenSome, WhenFinished, WhenFinished-summarize, monitor-either,
}
use slipnet.Monitoring.NetworkMonitor.{
  NetworkStatsDelta, Timing, Monitor, Outcome, Surroundings, ask, sleep, sample, rounds, start,
  seconds_of, monitor,
}

true-ne-false : true ≢ false
true-ne-false e = cc e

rejected-ne-unfinished :
    {Double : Type 0} → ◌≢◌ {A = Outcome Double} Outcome.rejected Outcome.unfinished
rejected-ne-unfinished e = cc e

finished-ne-unfinished :
    {Double : Type 0} {m : Monitor Double} {summary : NetworkStatsDelta Double}
    → Outcome.finished m summary ≢ Outcome.unfinished
finished-ne-unfinished e = cc e

one_more : {A : Type 0} (xs : List A) (y : A) → length (xs ++ y ∷ []) ≡ suc (length xs)
one_more xs y = omega (arith, length-append xs (y ∷ []))

-- After so many samples the loop has slept that many intervals, and at most one more.
abbrev pub Slept : {Double : Type 0} → ℕ → Monitor Double → Type 0
Slept interval m =
    (length m.samples * interval ≤ m.slept) × (m.slept ≤ suc (length m.samples) * interval)

module _ {Double : Type 0} (timing : Timing Double) (around : Surroundings)
    (stays : StaysSet around.stop) where
  sleep-asked : (n : ℕ) (m : Monitor Double) → m.asked ≤ (sleep timing around n m).asked
  unfolding sleep
  sleep-asked zero m = omega arith
  sleep-asked (suc n) m = elim (Bool-cases (around.stop m.asked)) [
    | inl e ↦ rw e (omega arith)
    | inr e ↦
        rw e (omega (arith, sleep-asked n (record m { asked = m.asked + 1; slept = m.slept + 1 })))
  ]

  -- A sleep is as long as it should be, or the flag is set at the question behind it.
  sleep-slept :
      (n : ℕ) (m : Monitor Double)
      → ((sleep timing around n m).slept ≡ m.slept + n)
        ⊎ ((around.stop (sleep timing around n m).asked ≡ true)
            × ((sleep timing around n m).slept ≤ m.slept + n)
            × (m.slept ≤ (sleep timing around n m).slept))
  unfolding sleep
  sleep-slept zero m = inl (omega arith)
  sleep-slept (suc n) m = elim (Bool-cases (around.stop m.asked)) [
    | inl e ↦ rw e (inr (stays m.asked e, omega arith, omega arith))
    | inr e ↦ rw e (elim (sleep-slept n (record m { asked = m.asked + 1; slept = m.slept + 1 })) [
      | inl q ↦ inl (omega arith)
      | inr (q, le, ge) ↦ inr (q, omega arith, omega arith)
    ])
  ]

  sleep-samples : (n : ℕ) (m : Monitor Double) → (sleep timing around n m).samples ≡ m.samples
  unfolding sleep
  sleep-samples zero m = refl
  sleep-samples (suc n) m = elim (Bool-cases (around.stop m.asked)) [
    | inl e ↦ rw e refl
    | inr e ↦ rw e (sleep-samples n (record m { asked = m.asked + 1; slept = m.slept + 1 }))
  ]

  -- The loop ends in its first rounds that ask often enough.
  rounds_stop :
      (k n interval : ℕ) (m : Monitor Double)
      → around.stop k ≡ true
      → k ≤ m.asked + n
      → (q : Monitor Double) × (rounds timing around (suc n) interval m ≡ some q)
  unfolding rounds
  rounds_stop k zero interval m set h =
      let now : around.stop m.asked ≡ true =
        StaysSet-later around.stop stays k m.asked (omega arith) set in
      rw now (ask timing around m, refl)
  rounds_stop k (suc n) interval m set h =
      let slept = sleep timing around interval (ask timing around m) in
      let later = sleep-asked interval (ask timing around m) in
      elim (Bool-cases (around.stop m.asked)) [
        | inl e ↦ rw e (ask timing around m, refl)
        | inr e ↦ elim (Bool-cases (around.stop slept.asked)) [
          | inl f ↦ rw (e, f) (ask timing around slept, refl)
          | inr f ↦
              rw (e, f)
                (rounds_stop k n interval (sample timing around (ask timing around slept)) set
                  (omega arith))
        ]
      ]

  -- Where the flag stays set once it is, and is set at some question, a number of rounds above that
  -- question is enough for `monitor` to return.
  pub monitor_stop :
      (k : ℕ) (interface_name : Bytes) (interval : ℤ)
      → around.stop k ≡ true
      → monitor timing around (suc k) interface_name interval ≢ Outcome.unfinished
  monitor_stop k interface_name interval set =
      let (m, e) = rounds_stop k k (seconds_of interval) (start timing around) set (omega arith) in
      monitor-either timing around (λ o. o ≢ Outcome.unfinished) (suc k) interface_name interval
        rejected-ne-unfinished (λ _ _ _. rw e finished-ne-unfinished)

  rounds-Slept :
      (n interval : ℕ) (m : Monitor Double)
      → m.slept ≡ length m.samples * interval
      → WhenSome (Slept interval) (rounds timing around n interval m)
  unfolding rounds
  rounds-Slept zero interval m at = tt
  rounds-Slept (suc n) interval m at =
      let asleep = sleep timing around interval (ask timing around m) in
      let size : length asleep.samples ≡ length m.samples =
        ap length (sleep-samples interval (ask timing around m)) in
      let next = suc-mul (length m.samples) interval in
      elim (Bool-cases (around.stop m.asked)) [
        | inl f ↦ rw f (omega arith, omega arith)
        | inr f ↦ elim (Bool-cases (around.stop asleep.asked)) [
          | inl g ↦
              rw (f, g, size)
                (elim (sleep-slept interval (ask timing around m)) [
                  | inl w ↦ (omega arith, omega arith)
                  | inr (b, le, ge) ↦ (omega arith, omega arith)
                ])
          | inr g ↦
              rw (f, g)
                (rounds-Slept n interval (sample timing around (ask timing around asleep))
                  (elim (sleep-slept interval (ask timing around m)) [
                    | inl w ↦
                        (let whole : asleep.slept ≡ suc (length m.samples) * interval =
                            omega arith in
                          whole)
                        ∙ ap (λ (k : ℕ). k * interval)
                            (sym (one_more asleep.samples _ ∙ ap suc size))
                    | inr (b, le, ge) ↦ absurd (true-ne-false (sym b ∙ g))
                  ]))
        ]
      ]

  -- Where the flag stays set once it is, a run that returns has slept as many intervals as it displays
  -- samples, and at most one more.
  pub monitor-Slept :
      (limit : ℕ) (interface_name : Bytes) (n : ℕ)
      → WhenFinished (λ m _. Slept n m) (monitor timing around limit interface_name (pos n))
  monitor-Slept limit interface_name n =
      monitor-either timing around (WhenFinished (λ m _. Slept n m)) limit interface_name (pos n) tt
        (λ _ _ _.
          WhenFinished-summarize timing around (λ m _. Slept n m) _ _
            (rounds timing around limit n (start timing around))
            (rounds-Slept limit n (start timing around) (omega arith)))
