-- ===== src/Port/PortScanner/Rounds.antt =====
-- What the loops of src/port/port_scanner.cpp have collected when they end: all results, or, where the
-- interrupt flag was seen, the first of them.
use mathlib.Core.List.{append-nil, append_assoc}
use slipnet.Prelude.{
  ℕ, zero, suc, ◌+◌, ◌≡◌, refl, sym, ap, ◌∙◌, ◌⊎◌, inl, inr, Bool, true, false, List, [], ◌∷◌, ◌++◌,
  map, leb, Bool-cases, length,
}
use slipnet.Prelude.Flags.{StaysSet}
use slipnet.Port.PortScanner.{
  Port, Scan, ask, collect, wait_full, launch, launch_range, launch_ports,
}

-- The second list starts with the first.
abbrev pub Starts : {A : Type 0} → List A → List A → Type 0
Starts {A} xs ys = (rest : List A) × (ys ≡ xs ++ rest)

-- So many ports from the first on.
abbrev pub ports_from : ℕ → ℕ → List ℕ
ports_from zero port = []
ports_from (suc n) port = port ∷ ports_from n (port + 1)

module _ {Double : Type 0} (stop : ℕ → Bool) (stays : StaysSet stop) where
  -- The results are all of the list; or the next answer is that the flag is set, and they are the
  -- first of the list.
  abbrev pub Collected : List (Port Double) → Scan Double → Type 0
  Collected all s = (s.results ≡ all) ⊎ ((stop s.asked ≡ true) × Starts s.results all)

  pub collect-Collected :
      (futures : List (Port Double)) (s : Scan Double)
      → Collected (s.results ++ futures) (collect stop futures s)
  unfolding collect
  collect-Collected [] s = inl (sym (append-nil s.results))
  collect-Collected (f ∷ futures) s = elim (Bool-cases (stop s.asked)) [
    | inl e ↦ rw e (inr (stays s.asked e, (f ∷ futures, refl)))
    | inr e ↦
        rw (e, ← append_assoc s.results (f ∷ []) futures)
          (collect-Collected futures (record (ask s) { results = s.results ++ f ∷ [] }))
  ]

  -- What the loops have launched by now.
  abbrev pub Launched : List (Port Double) → Scan Double → Type 0
  Launched all s = (s.results ++ s.futures ≡ all) ⊎ ((stop s.asked ≡ true) × Starts s.results all)

  wait_full-Launched :
      (all : List (Port Double)) (s : Scan Double)
      → s.results ++ s.futures ≡ all
      → Launched all (wait_full stop s)
  unfolding wait_full
  wait_full-Launched all s e = elim (Bool-cases (leb 64 (length s.futures))) [
    | inr f ↦ rw f (inl e)
    | inl f ↦
        rw (f, ← e)
          (elim (collect-Collected s.futures s) [
            | inl whole ↦ inl (append-nil (collect stop s.futures s).results ∙ whole)
            | inr part ↦ inr part
          ])
  ]

  -- A later stage: what is launched, with the tasks of the ports that are left, is all there is.
  abbrev pub Ready : List (Port Double) → List (Port Double) → Scan Double → Type 0
  Ready all left s =
      (s.results ++ (s.futures ++ left) ≡ all) ⊎ ((stop s.asked ≡ true) × Starts s.results all)

  Launched-Ready :
      (all left front : List (Port Double)) (s : Scan Double)
      → front ++ left ≡ all
      → Launched front s
      → Ready all left s
  Launched-Ready all left front s e (inl is) =
      inl (sym (append_assoc s.results s.futures left) ∙ ap (λ l. l ++ left) is ∙ e)
  Launched-Ready all left front s e (inr (seen, (rest, is))) =
      inr (seen, (rest ++ left, sym e ∙ ap (λ l. l ++ left) is ∙ append_assoc s.results rest left))

  Ready-Launched : (all : List (Port Double)) (s : Scan Double) → Ready all [] s → Launched all s
  Ready-Launched all s (inl e) = inl (ap (◌++◌ s.results) (sym (append-nil s.futures)) ∙ e)
  Ready-Launched all s (inr seen) = inr seen

  collect_stopped :
      (futures : List (Port Double)) (s : Scan Double)
      → stop s.asked ≡ true
      → (collect stop futures s).results ≡ s.results
  unfolding collect
  collect_stopped [] s e = refl
  collect_stopped (f ∷ futures) s e = rw e refl

  -- The last wait, behind either loop.
  pub collect-Starts :
      (all : List (Port Double)) (s : Scan Double)
      → Launched all s
      → Starts (collect stop s.futures s).results all
  collect-Starts all s (inl e) = elim (collect-Collected s.futures s) [
    | inl whole ↦ ([], sym e ∙ sym whole ∙ sym (append-nil (collect stop s.futures s).results))
    | inr (seen, (rest, is)) ↦ (rest, sym e ∙ is)
  ]
  collect-Starts all s (inr (seen, starts)) = rw (collect_stopped s.futures s seen) starts

  module _ (task : ℕ → Port Double) where
    Ready-stopped :
        (all left : List (Port Double)) (s : Scan Double)
        → stop s.asked ≡ true
        → Ready all left s
        → Launched all (ask s)
    Ready-stopped all left s seen (inl e) = inr (stays s.asked seen, (s.futures ++ left, sym e))
    Ready-stopped all left s seen (inr (again, starts)) = inr (stays s.asked seen, starts)

    launched_one :
        (all : List (Port Double)) (port : ℕ) (left : List (Port Double)) (s : Scan Double)
        → s.results ++ (s.futures ++ task port ∷ left) ≡ all
        → (s.results ++ (s.futures ++ task port ∷ [])) ++ left ≡ all
    launched_one all port left s e =
        append_assoc s.results (s.futures ++ task port ∷ []) left
        ∙ ap (◌++◌ s.results) (append_assoc s.futures (task port ∷ []) left)
        ∙ e

    pub launch_range-Launched :
        (rounds port : ℕ) (all : List (Port Double)) (s : Scan Double)
        → Ready all (map task (ports_from rounds port)) s
        → Launched all (launch_range stop task rounds port s)
    unfolding launch_range
    launch_range-Launched zero port all s r = Ready-Launched all s r
    launch_range-Launched (suc rounds) port all s r = elim (Bool-cases (stop s.asked)) [
      | inl e ↦ rw e (Ready-stopped all (map task (ports_from (suc rounds) port)) s e r)
      | inr e ↦ rw e (elim r [
        | inr (seen, starts) ↦ absurd (cc)
        | inl is ↦
            let left = map task (ports_from rounds (port + 1)) in
            let front = s.results ++ (s.futures ++ task port ∷ []) in
            let t = launch stop task port s in
            launch_range-Launched rounds (port + 1) all (wait_full stop t) (
              Launched-Ready all left front (wait_full stop t) (launched_one all port left s is)
                (wait_full-Launched front t refl))
      ])
    ]

    pub launch_ports-Launched :
        (ports : List ℕ) (all : List (Port Double)) (s : Scan Double)
        → Ready all (map task ports) s
        → Launched all (launch_ports stop task ports s)
    unfolding launch_ports
    launch_ports-Launched [] all s r = Ready-Launched all s r
    launch_ports-Launched (port ∷ ports) all s r = elim (Bool-cases (stop s.asked)) [
      | inl e ↦ rw e (Ready-stopped all (map task (port ∷ ports)) s e r)
      | inr e ↦ rw e (elim r [
        | inr (seen, starts) ↦ absurd (cc)
        | inl is ↦ launch_ports-Launched ports all (launch stop task port s) (
            Launched-Ready all (map task ports) (s.results ++ (s.futures ++ task port ∷ []))
              (launch stop task port s) (launched_one all port (map task ports) s is) (inl refl))
      ])
    ]

-- Where the flag is never seen, nothing is left out.
pub never-StaysSet : (stop : ℕ → Bool) → ((n : ℕ) → stop n ≡ false) → StaysSet stop
never-StaysSet stop never n e = cc (never n)

module _ {Double : Type 0} (stop : ℕ → Bool) (never : (n : ℕ) → stop n ≡ false) where
  pub collect_whole :
      (all : List (Port Double)) (s : Scan Double)
      → Launched stop (never-StaysSet stop never) all s
      → (collect stop s.futures s).results ≡ all
  collect_whole all s (inr (seen, starts)) = absurd (cc (never s.asked))
  collect_whole all s (inl e) =
      elim (collect-Collected stop (never-StaysSet stop never) s.futures s) [
        | inl whole ↦ whole ∙ e
        | inr (seen, starts) ↦ absurd (cc (never (collect stop s.futures s).asked))
      ]
