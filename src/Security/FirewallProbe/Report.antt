-- ===== src/Security/FirewallProbe/Report.antt =====
-- What the report of src/security/firewall_probe.cpp says of the ports probed.
use mathlib.Core.List.{append-nil, append_assoc}
use mathlib.Core.Path.{subst}
use slipnet.Prelude.{
  ℕ, ◌+◌, ◌≤◌, ◌≡◌, refl, inl, inr, Bool, true, false, ◌&&◌, ◌||◌, List, [], ◌∷◌, ◌++◌, map, ltb,
  ◌==◌, if◌then◌else◌, Bool-cases, Bytes, codes, is_empty, length, length-append, arith,
}
use slipnet.Prelude.Int.{ℤ}
use slipnet.Platform.Firewall.{Probe}
use slipnet.Security.FirewallProbe.{
  FirewallState, is_open, is_closed, is_filtered, is_unknown, FirewallObservation, FirewallReport,
  count, is_port, conclude, blank, observe, probe_port, probe_ports, analyze,
}

abbrev pub valid_ports : List ℤ → List ℤ
valid_ports [] = []
valid_ports (p ∷ ports) = if is_port p then p ∷ valid_ports ports else valid_ports ports

abbrev pub same_state : FirewallState → FirewallState → Bool
same_state is_open is_open = true
same_state is_closed is_closed = true
same_state is_filtered is_filtered = true
same_state is_unknown is_unknown = true
same_state _ _ = false

abbrev pub count_of : FirewallState → List FirewallObservation → ℕ
count_of s [] = 0
count_of s (o ∷ rest) = (if same_state o.state s then 1 else 0) + count_of s rest

abbrev pub has_state : FirewallState → List FirewallObservation → Bool
has_state s [] = false
has_state s (o ∷ rest) = same_state o.state s || has_state s rest

abbrev pub all_state : FirewallState → List FirewallObservation → Bool
all_state s [] = true
all_state s (o ∷ rest) = same_state o.state s && all_state s rest

-- The conclusion, by what was observed.
abbrev pub verdict : List FirewallObservation → Bytes
verdict os =
    if is_empty os
    then codes "No valid TCP ports were available for probing."
    else if has_state is_filtered os
    then codes
        "Filtering behavior was observed on one or more TCP ports. This indicates packet filtering or silent traffic dropping, but does not identify a specific firewall product."
    else if has_state is_open os && has_state is_closed os
    then codes
        "Both reachable and explicitly refused TCP ports were observed. No filtering behavior was directly identified in the tested ports."
    else if has_state is_open os
    then codes
        "The tested ports responded as reachable. No filtering behavior was directly observed."
    else if all_state is_closed os
    then codes
        "All tested ports explicitly refused the TCP connection. No filtering behavior was directly observed."
    else codes "The available observations were insufficient to determine firewall behavior."

-- The counters of a report are those of the observations.
pub record Counts (os : List FirewallObservation) (r : FirewallReport) : Type 0 where
  pub observations_are : r.observations ≡ os
  pub observed_is : r.observed ≡ length os
  pub open_is : r.open_count ≡ count_of is_open os
  pub closed_is : r.closed ≡ count_of is_closed os
  pub filtered_is : r.filtered ≡ count_of is_filtered os
  pub unknown_is : r.unknown ≡ count_of is_unknown os
  pub evidence_is : r.has_evidence_of_filtering ≡ has_state is_filtered os

count_of-append :
    (s : FirewallState) (os : List FirewallObservation) (o : FirewallObservation)
    → count_of s (os ++ o ∷ []) ≡ count_of s os + (if same_state o.state s then 1 else 0)
count_of-append s [] o = omega arith
count_of-append s (x ∷ os) o = omega (arith, count_of-append s os o)

has_state-append :
    (s : FirewallState) (os : List FirewallObservation) (o : FirewallObservation)
    → has_state s (os ++ o ∷ []) ≡ (has_state s os || same_state o.state s)
has_state-append s [] o = ground arith
has_state-append s (x ∷ os) o = ground (arith, has_state-append s os o)

is_empty_length : {A : Type 0} (xs : List A) → (length xs == 0) ≡ is_empty xs
is_empty_length [] = refl
is_empty_length (x ∷ xs) = ground arith

-- One round of the loop, by the state observed.
round : FirewallState → FirewallObservation → FirewallReport → FirewallReport
round s o r =
    let counted = count s (record r { observed = r.observed + 1 }) in
    record counted { observations = counted.observations ++ o ∷ [] }

module _ (o : FirewallObservation) (os : List FirewallObservation) (r : FirewallReport) where
  round-Counts :
      (s : FirewallState) → o.state ≡ s → Counts os r → Counts (os ++ o ∷ []) (round s o r)
  unfolding round count
  round-Counts is_open e c = ground (
    arith,
    length-append os (o ∷ []),
    count_of-append is_open os o,
    count_of-append is_closed os o,
    count_of-append is_filtered os o,
    count_of-append is_unknown os o,
    has_state-append is_filtered os o,
  )
  round-Counts _ e c = ground (
    arith,
    length-append os (o ∷ []),
    count_of-append is_open os o,
    count_of-append is_closed os o,
    count_of-append is_filtered os o,
    count_of-append is_unknown os o,
    has_state-append is_filtered os o,
  )

blank-Counts : (host : Bytes) → Counts [] (blank host)
blank-Counts host = record {
  observations_are = refl;
  observed_is = refl;
  open_is = refl;
  closed_is = refl;
  filtered_is = refl;
  unknown_is = refl;
  evidence_is = refl;
}

length_sum :
    (os : List FirewallObservation)
    → count_of is_open os + count_of is_closed os + count_of is_filtered os + count_of is_unknown os
      ≡ length os
length_sum [] = refl
length_sum (o ∷ os) = ground (arith, length_sum os)

has_state_count :
    (s : FirewallState) (os : List FirewallObservation) → ltb 0 (count_of s os) ≡ has_state s os
has_state_count s [] = refl
has_state_count s (o ∷ os) = ground (arith, has_state_count s os)

count_of-le : (s : FirewallState) (os : List FirewallObservation) → count_of s os ≤ length os
count_of-le s [] = omega arith
count_of-le s (o ∷ os) = ground (arith, count_of-le s os)

all_state_count :
    (s : FirewallState) (os : List FirewallObservation)
    → (count_of s os == length os) ≡ all_state s os
all_state_count s [] = refl
all_state_count s (o ∷ os) = ground (arith, all_state_count s os, count_of-le s os)

conclude-verdict :
    (os : List FirewallObservation) (r : FirewallReport) → Counts os r → conclude r ≡ verdict os
unfolding conclude
conclude-verdict os r c = rw (
  c.observed_is,
  c.filtered_is,
  c.open_is,
  c.closed_is,
  has_state_count is_filtered os,
  has_state_count is_open os,
  has_state_count is_closed os,
  all_state_count is_closed os,
  is_empty_length os,
)

module _ (probe_tcp : Probe) (host : Bytes) where
  probe_port-Counts :
      (p : ℤ) (os : List FirewallObservation) (r : FirewallReport)
      → Counts os r
      → Counts (os ++ observe probe_tcp host p ∷ []) (probe_port probe_tcp host p r)
  unfolding probe_port
  probe_port-Counts p os r c =
      let o = observe probe_tcp host p in unfold round in round-Counts o os r o.state refl c

  probe_ports-Counts :
      (ports : List ℤ) (os : List FirewallObservation) (r : FirewallReport)
      → Counts os r
      → Counts
          (os ++ map (observe probe_tcp host) (valid_ports ports))
          (probe_ports probe_tcp host ports r)
  unfolding probe_ports
  probe_ports-Counts [] os r c = rw append-nil c
  probe_ports-Counts (p ∷ ports) os r c = elim (Bool-cases (is_port p)) [
    | inl e ↦ rw e (
        subst (λ l. Counts l (probe_ports probe_tcp host ports (probe_port probe_tcp host p r)))
          (append_assoc os (observe probe_tcp host p ∷ [])
            (map (observe probe_tcp host) (valid_ports ports)))
          (probe_ports-Counts ports (os ++ observe probe_tcp host p ∷ [])
            (probe_port probe_tcp host p r) (probe_port-Counts p os r c)))
    | inr e ↦ rw e (probe_ports-Counts ports os r c)
  ]

  -- The report has one observation for each port from 1 to 65535, in order, and its counters and
  -- its evidence flag are those of the observations, which the four counters share out. The
  -- conclusion is the verdict on the states observed.
  pub analyze-Counts :
      (ports : List ℤ)
      → Counts (map (observe probe_tcp host) (valid_ports ports)) (analyze probe_tcp host ports)
        × ((analyze probe_tcp host ports).open_count
              + (analyze probe_tcp host ports).closed
              + (analyze probe_tcp host ports).filtered
              + (analyze probe_tcp host ports).unknown
            ≡ (analyze probe_tcp host ports).observed)
        × ((analyze probe_tcp host ports).conclusion
            ≡ verdict (map (observe probe_tcp host) (valid_ports ports)))
  unfolding analyze
  analyze-Counts ports =
      let os = map (observe probe_tcp host) (valid_ports ports) in
      let c = probe_ports-Counts ports [] (blank host) (blank-Counts host) in
      (
        record {
          observations_are = c.observations_are;
          observed_is = c.observed_is;
          open_is = c.open_is;
          closed_is = c.closed_is;
          filtered_is = c.filtered_is;
          unknown_is = c.unknown_is;
          evidence_is = c.evidence_is;
        },
        omega (
          arith,
          length_sum os,
          c.observed_is,
          c.open_is,
          c.closed_is,
          c.filtered_is,
          c.unknown_is,
        ),
        conclude-verdict os (probe_ports probe_tcp host ports (blank host)) c,
      )
