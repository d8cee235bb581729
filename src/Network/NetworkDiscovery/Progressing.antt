-- ===== src/Network/NetworkDiscovery/Progressing.antt =====
-- The loop over the addresses in src/network/network_discovery.cpp: the answers it has stored, those of
-- the batch that runs, and the places that are left.
use mathlib.Core.List.{append-nil, append_assoc}
use slipnet.Prelude.{
  ℕ, zero, suc, ◌+◌, ◌<◌, ◌≡◌, refl, sym, ap, ◌∙◌, inl, inr, Bool, true, false, none, some, List,
  [], ◌∷◌, ◌++◌, map, leb, Bool-cases, length, length-append, Bytes, arith,
}
use slipnet.Host.HostDiscovery.{PingResult}
use slipnet.Network.NetworkDiscovery.{
  set_at, store_batch, Progress, flush, offline, start_task, ping_all,
}

set_at-length :
    (done : List Bool) (value old : Bool) (rest : List Bool)
    → set_at (length done) value (done ++ old ∷ rest) ≡ done ++ value ∷ rest
unfolding set_at
set_at-length [] value old rest = refl
set_at-length (x ∷ done) value old rest =
    let next : length (x ∷ done) ≡ suc (length done) = omega arith in
    ap (λ k. set_at k value (x ∷ (done ++ old ∷ rest))) next
    ∙ ap (λ l. x ∷ l) (set_at-length done value old rest)

-- A batch is stored behind what was.
store_batch-append :
    (tasks done : List Bool) (left : ℕ)
    → store_batch (length done) tasks (done ++ offline (length tasks + left))
      ≡ (done ++ tasks) ++ offline left
unfolding store_batch
store_batch-append [] done left =
    let none_left : 0 + left ≡ left = omega arith in rw (none_left, append-nil done) refl
store_batch-append (t ∷ tasks) done left =
    let next : length (t ∷ tasks) + left ≡ suc (length tasks + left) = omega arith in
    let one : length done + 1 ≡ length (done ++ t ∷ []) =
      omega (arith, length-append done (t ∷ [])) in
    rw
      (
        next,
        set_at-length done t false (offline (length tasks + left)),
        one,
        ← append_assoc done (t ∷ []) (offline (length tasks + left)),
        ← append_assoc done (t ∷ []) tasks,
      )
      (store_batch-append tasks (done ++ t ∷ []) left)

-- `seen` are the answers so far; the first of them are stored, the others are those of the tasks.
record Pinged (seen : List Bool) (left : ℕ) (p : Progress) : Type 0 where
  pub done : List Bool
  pub answers : done ++ p.tasks ≡ seen
  pub stored : p.online ≡ done ++ offline (length p.tasks + left)
  pub counted : p.completed ≡ length done

flush-online :
    (seen : List Bool) (left : ℕ) (p : Progress)
    → Pinged seen left p
    → (flush p).online ≡ seen ++ offline left
unfolding flush
flush-online seen left p h =
    rw (h.stored, h.counted, ← h.answers) (store_batch-append p.tasks h.done left)

flush-Pinged :
    (seen : List Bool) (left : ℕ) (p : Progress) → Pinged seen left p → Pinged seen left (flush p)
unfolding flush
flush-Pinged seen left p h = record {
  done = seen;
  answers = append-nil seen;
  stored = flush-online seen left p h ∙ ap (λ (k : ℕ). seen ++ offline k) (omega arith);
  counted = rw (h.counted, ← h.answers) (sym (length-append h.done p.tasks));
}

module _ {Double : Type 0} (ping : Bytes → PingResult Double) where
  abbrev pub answer : Bytes → Bool
  answer address = (ping address).reachable

  start_task-Pinged :
      (seen : List Bool) (left : ℕ) (address : Bytes) (p : Progress)
      → Pinged seen (suc left) p
      → Pinged (seen ++ answer address ∷ []) left (start_task ping address p)
  unfolding start_task
  start_task-Pinged seen left address p h =
      let tasks = p.tasks ++ answer address ∷ [] in
      let started : Pinged (seen ++ answer address ∷ []) left (record p { tasks = tasks }) =
        record {
          done = h.done;
          answers =
              sym (append_assoc h.done p.tasks (answer address ∷ []))
              ∙ ap (λ l. l ++ answer address ∷ []) h.answers;
          stored =
              h.stored
              ∙ ap (λ k. h.done ++ offline k)
                  (omega (arith, length-append p.tasks (answer address ∷ [])));
          counted = h.counted;
        } in
      elim (Bool-cases (leb 32 (length tasks))) [
        | inl e ↦ rw e (flush-Pinged (seen ++ answer address ∷ []) left _ started)
        | inr e ↦ rw e started
      ]

  ping_all-Pinged :
      (stop : ℕ → Bool) (i : ℕ) (addresses : List Bytes) (seen : List Bool) (p : Progress)
      → ((n : ℕ) → stop n ≡ false)
      → Pinged seen (length addresses) p
      → (q : Progress) × (ping_all ping stop i addresses p ≡ some q)
        × Pinged (seen ++ map answer addresses) 0 q
  unfolding ping_all
  ping_all-Pinged stop i [] seen p never h = (p, refl, rw (append-nil seen) h)
  ping_all-Pinged stop i (a ∷ addresses) seen p never h =
      let begun = start_task-Pinged seen (length addresses) a p h in
      let (q, e, last) =
        ping_all-Pinged stop (i + 1) addresses (seen ++ answer a ∷ []) (start_task ping a p) never
          begun in
      (q, rw (never i) e, rw (append_assoc seen (answer a ∷ []) (map answer addresses)) at last)

  -- If the flag is never set, the answers are those of all addresses, in their order.
  pub ping_all-answers :
      (stop : ℕ → Bool) (addresses : List Bytes)
      → ((n : ℕ) → stop n ≡ false)
      → (q : Progress) × (ping_all ping stop 0 addresses
            (record { online = offline (length addresses); tasks = []; completed = 0 })
          ≡ some q)
        × ((flush q).online ≡ map answer addresses)
  ping_all-answers stop addresses never =
      let begin : Progress = record {
        online = offline (length addresses);
        tasks = [];
        completed = 0;
      } in
      let start : Pinged [] (length addresses) begin = record {
        done = [];
        answers = refl;
        stored = ap offline (omega arith);
        counted = refl;
      } in
      let (q, e, last) = ping_all-Pinged stop 0 addresses [] begin never start in
      (q, e, flush-online (map answer addresses) 0 q last ∙ append-nil (map answer addresses))

  -- Where the flag is set when it is asked at one of the addresses, the loop ends there.
  pub ping_all_stopped :
      (stop : ℕ → Bool) (i j : ℕ) (addresses : List Bytes) (p : Progress)
      → stop (i + j) ≡ true
      → j < length addresses
      → ping_all ping stop i addresses p ≡ none
  unfolding ping_all
  ping_all_stopped stop i j [] p e h = absurd (omega arith)
  ping_all_stopped stop i zero (a ∷ addresses) p e h =
      let now : stop i ≡ true = ap stop (omega arith) ∙ e in rw now refl
  ping_all_stopped stop i (suc j) (a ∷ addresses) p e h = elim (Bool-cases (stop i)) [
    | inl f ↦ rw f refl
    | inr f ↦ rw f (
        ping_all_stopped stop (i + 1) j addresses (start_task ping a p) (ap stop (omega arith) ∙ e)
          (omega arith))
  ]
