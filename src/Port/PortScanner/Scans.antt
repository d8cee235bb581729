-- ===== src/Port/PortScanner/Scans.antt =====
-- What the two scans of src/port/port_scanner.cpp return.
use slipnet.Prelude.{
  ℕ, zero, suc, ◌+◌, ◌-◌, ◌<◌, ◌≡◌, refl, inl, inr, Bool, false, List, [], ◌∷◌, ◌++◌, map, ltb,
  Bool-cases, Bytes, All, arith,
}
use slipnet.Prelude.Int.{ℤ}
use slipnet.Prelude.Sorting.{IsSort, Grows, sort-Grows}
use slipnet.Port.PortScanner.{
  Port, Connector, common_ports, first_port, last_port, worker, fresh, collect, launch_range,
  launch_ports, range_results, scan, scan_range,
}
use slipnet.Port.PortScanner.Rounds.{
  Starts, ports_from, Launched, collect-Starts, collect_whole, never-StaysSet,
  launch_range-Launched, launch_ports-Launched,
}
use slipnet.Prelude.Flags.{StaysSet}

-- The ports of a range, cut to those from 1 to 65535.
abbrev pub ports_between : ℤ → ℤ → List ℕ
ports_between start_port end_port =
    ports_from (last_port end_port + 1 - first_port start_port) (first_port start_port)

abbrev pub number : {Double : Type 0} → Port Double → ℕ
number p = p.number

module _ {Double : Type 0} (connector : Connector Double) (host : Bytes) where
  tasks-above :
      (n a b : ℕ)
      → a < b
      → All (λ (p : Port Double). a < p.number) (map (worker connector host) (ports_from n b))
  unfolding worker
  tasks-above zero a b h = tt
  tasks-above (suc n) a b h = (h, tasks-above n a (b + 1) (omega arith))

  ports_from-Grows :
      (n a : ℕ) → Grows (number {Double = Double}) (map (worker connector host) (ports_from n a))
  unfolding worker
  ports_from-Grows zero a = tt
  ports_from-Grows (suc n) a = (tasks-above n a (a + 1) (omega arith), ports_from-Grows n (a + 1))

  common_ports-Grows : Grows (number {Double = Double}) (map (worker connector host) common_ports)
  unfolding worker
  common_ports-Grows = omega arith

All-front : {A : Type 0} (P : A → Type 0) (xs ys : List A) → All P (xs ++ ys) → All P xs
All-front P [] ys h = tt
All-front P (x ∷ xs) ys h = (h.0, All-front P xs ys h.1)

Grows-front : {A : Type 0} (key : A → ℕ) (xs ys : List A) → Grows key (xs ++ ys) → Grows key xs
Grows-front key [] ys h = tt
Grows-front key (x ∷ xs) ys h =
    (All-front (λ b. key x < key b) xs ys h.0, Grows-front key xs ys h.1)

module _ {Double : Type 0} (connector : Connector Double) (stop : ℕ → Bool)
    (sort : List (Port Double) → List (Port Double)) (sorts : IsSort number sort) where
  sort-Starts : (xs all : List (Port Double)) → Grows number all → Starts xs all → sort xs ≡ xs
  sort-Starts xs all g (rest, e) =
      sort-Grows number sort xs sorts (Grows-front number xs rest (rw (← e) g))

  range-Launched :
      (host : Bytes) (low high : ℕ) (stays : StaysSet stop)
      → Launched stop stays
          (map (worker connector host) (ports_from (high + 1 - low) low))
          (launch_range stop (worker connector host) (high + 1 - low) low fresh)
  range-Launched host low high stays =
      launch_range-Launched stop stays (worker connector host) (high + 1 - low) low
        (map (worker connector host) (ports_from (high + 1 - low) low)) fresh (inl refl)

  range_results-Starts :
      (host : Bytes) (low high : ℕ)
      → StaysSet stop
      → Starts
          (sort (range_results stop (worker connector host) low high))
          (map (worker connector host) (ports_from (high + 1 - low) low))
  unfolding range_results
  range_results-Starts host low high stays =
      let all = map (worker connector host) (ports_from (high + 1 - low) low) in
      let s = launch_range stop (worker connector host) (high + 1 - low) low fresh in
      let starts = collect-Starts stop stays all s (range-Launched host low high stays) in
      rw
        (sort-Starts (collect stop s.futures s).results all
          (ports_from-Grows connector host (high + 1 - low) low) starts)
        starts

  -- While the interrupt flag stays set once it is, a scan of a range returns, in ascending order, the
  -- results of the first ports of the range, cut to 1 to 65535: none is skipped, repeated or invented.
  pub scan_range-Starts :
      (host : Bytes) (start_port end_port : ℤ)
      → StaysSet stop
      → Starts
          (scan_range connector stop sort host start_port end_port)
          (map (worker connector host) (ports_between start_port end_port))
  unfolding scan_range
  scan_range-Starts host start_port end_port stays =
      elim (Bool-cases (ltb (last_port end_port) (first_port start_port))) [
        | inl e ↦ rw e (map (worker connector host) (ports_between start_port end_port), refl)
        | inr e ↦
            rw e (range_results-Starts host (first_port start_port) (last_port end_port) stays)
      ]

  -- If the interrupt flag is never set, a scan of a range returns the results of all ports of the
  -- range, cut to 1 to 65535, in ascending order.
  pub scan_range-ports_between :
      (host : Bytes) (start_port end_port : ℤ)
      → ((n : ℕ) → stop n ≡ false)
      → scan_range connector stop sort host start_port end_port
        ≡ map (worker connector host) (ports_between start_port end_port)
  unfolding scan_range range_results
  scan_range-ports_between host start_port end_port never =
      let low = first_port start_port in
      let high = last_port end_port in
      let task = worker connector host in
      let all = map task (ports_from (high + 1 - low) low) in
      let s = launch_range stop task (high + 1 - low) low fresh in
      elim (Bool-cases (ltb high low)) [
        | inl e ↦ let none_left : high + 1 - low ≡ 0 = ground arith in rw (e, none_left) refl
        | inr e ↦
            let whole =
              collect_whole stop never all s
                (range-Launched host low high (never-StaysSet stop never)) in
            rw (e, whole)
              (sort-Grows number sort all sorts
                (ports_from-Grows connector host (high + 1 - low) low))
      ]

  -- While the interrupt flag stays set once it is, a scan of the common ports returns the results of
  -- the first of them, in ascending order: none is skipped, repeated or invented.
  pub scan-Starts :
      (host : Bytes)
      → StaysSet stop
      → Starts (scan connector stop sort host) (map (worker connector host) common_ports)
  unfolding scan
  scan-Starts host stays =
      let task = worker connector host in
      let all = map task common_ports in
      let s = launch_ports stop task common_ports fresh in
      let starts =
        collect-Starts stop stays all s
          (launch_ports-Launched stop stays task common_ports all fresh (inl refl)) in
      rw
        (sort-Starts (collect stop s.futures s).results all (common_ports-Grows connector host)
          starts)
        starts
