-- ===== src/Cli/CommandParser/Trim.antt =====
-- What `trim` of src/cli/command_parser.cpp takes away.
use slipnet.Prelude.{
  ℕ, zero, suc, ◌+◌, ◌-◌, ◌≤◌, ◌<◌, ◌≡◌, refl, sym, ap, ◌∙◌, ◌≢◌, inl, inr, Bool, true, false, ◌&&◌,
  [], ◌∷◌, ◌++◌, ltb, Bool-cases, Bytes, is_space, length, length-append, take, drop, get_or, All,
  arith,
}
use slipnet.Prelude.Text.Find.{take-append, drop-append, take-drop}
use slipnet.Cli.CommandParser.{scan_start, scan_end, trim}
use slipnet.Cli.CommandParser.Tokens.{IsSpaceless}

abbrev pub IsBlank : Bytes → Type 0
IsBlank s = All (λ c. is_space c ≡ true) s

get_or-append_left : (s t : Bytes) (i : ℕ) → i < length s → get_or (s ++ t) i 0 ≡ get_or s i 0
get_or-append_left [] t i h = absurd (omega arith)
get_or-append_left (c ∷ s) t zero h = refl
get_or-append_left (c ∷ s) t (suc i) h = get_or-append_left s t i (omega arith)

get_or-append_right :
    (s t : Bytes) (n i : ℕ) → n ≡ length s + i → get_or (s ++ t) n 0 ≡ get_or t i 0
get_or-append_right [] t n i h = ap (λ (k : ℕ). get_or t k 0) (omega arith)
get_or-append_right (c ∷ s) t zero i h = absurd (omega arith)
get_or-append_right (c ∷ s) t (suc n) i h = get_or-append_right s t n i (omega arith)

get_or-All :
    (b : Bool) (s : Bytes) (i : ℕ)
    → All (λ c. is_space c ≡ b) s
    → i < length s
    → is_space (get_or s i 0) ≡ b
get_or-All b [] i h k = absurd (omega arith)
get_or-All b (c ∷ s) zero h k = h.0
get_or-All b (c ∷ s) (suc i) h k = get_or-All b s i h.1 (omega arith)

All-by_get_or : (s : Bytes) → ((i : ℕ) → i < length s → is_space (get_or s i 0) ≡ true) → IsBlank s
All-by_get_or [] h = tt
All-by_get_or (c ∷ s) h = (h 0 (omega arith), All-by_get_or s (λ i k. h (suc i) (omega arith)))

scan_start-append :
    (before : Bytes) (c : ℕ) (rest : Bytes)
    → IsBlank before
    → is_space c ≡ false
    → scan_start (before ++ c ∷ rest) ≡ length before
unfolding scan_start
scan_start-append [] c rest h k = rw k refl
scan_start-append (b ∷ before) c rest h k = rw h.0 (ap suc (scan_start-append before c rest h.1 k))

scan_end_more :
    (value : Bytes) (start end : ℕ)
    → (ltb start (suc end) && is_space (get_or value end 0)) ≡ true
    → scan_end value start (suc end) ≡ scan_end value start end
unfolding scan_end
scan_end_more value start end h = rw (h, scan_end) refl

scan_end_done :
    (value : Bytes) (start end : ℕ)
    → (ltb start (suc end) && is_space (get_or value end 0)) ≡ false
    → scan_end value start (suc end) ≡ suc end
unfolding scan_end
scan_end_done value start end h = rw (h, scan_end) refl

-- The second loop ends behind a byte that is no whitespace, where all bytes behind are.
scan_end_at :
    (value : Bytes) (start last end : ℕ)
    → start ≤ last
    → last < end
    → is_space (get_or value last 0) ≡ false
    → ((i : ℕ) → last < i → i < end → is_space (get_or value i 0) ≡ true)
    → scan_end value start end ≡ suc last
scan_end_at value start last zero le lt stop go = absurd (omega arith)
scan_end_at value start last (suc end) le lt stop go = elim (Bool-cases (ltb last end)) [
  | inl e ↦
      let below : last < end = ground arith in
      let blank = go end below (omega arith) in
      let above : ltb start (suc end) ≡ true = ground arith in
      scan_end_more value start end (rw (above, blank) refl)
      ∙ scan_end_at value start last end le below stop (λ i l k. go i l (omega arith))
  | inr e ↦
      let same : last ≡ end = ground arith in
      let above : ltb start (suc last) ≡ true = ground arith in
      rw (← same) (scan_end_done value start last (rw (above, stop) refl))
]

scan_end-append :
    (before core after : Bytes) (last : ℕ)
    → IsSpaceless core
    → IsBlank after
    → suc last ≡ length core
    → scan_end (before ++ (core ++ after)) (length before) (length (before ++ (core ++ after)))
      ≡ length before + length core
scan_end-append before core after last c a e =
    let value = before ++ (core ++ after) in
    let size = length-append before (core ++ after) in
    let size' = length-append core after in
    let stop : is_space (get_or value (length before + last) 0) ≡ false =
      rw
        (
          get_or-append_right before (core ++ after) (length before + last) last refl,
          get_or-append_left core after last (omega arith),
        )
        (get_or-All false core last c (omega arith)) in
    scan_end_at value (length before) (length before + last) (length value) (omega arith)
      (omega arith) stop
      (λ i l k.
        let j = i - length before in
        let m = i - length before - length core in
        rw
          (
            get_or-append_right before (core ++ after) i j (omega arith),
            get_or-append_right core after j m (omega arith),
          )
          (get_or-All true after m a (omega arith)))
    ∙ omega arith

-- A text without whitespace is what is left of it with whitespace around it.
pub trim-append :
    (before core after : Bytes)
    → IsBlank before
    → IsSpaceless core
    → core ≢ []
    → IsBlank after
    → trim (before ++ (core ++ after)) ≡ core
unfolding trim
trim-append before [] after b c ne a = absurd (ne refl)
trim-append before (x ∷ core) after b c ne a =
    let whole = x ∷ core in
    let size : length before + length whole - length before ≡ length whole = omega arith in
    rw
      (
        scan_start-append before x (core ++ after) b c.0,
        scan_end-append before whole after (length core) c a refl,
        drop-append before (whole ++ after),
        size,
      )
      (take-append whole after)

scan_start-IsBlank : (s : Bytes) → IsBlank (take (scan_start s) s)
unfolding scan_start
scan_start-IsBlank [] = tt
scan_start-IsBlank (c ∷ s) = elim (Bool-cases (is_space c)) [
  | inl e ↦ rw e (e, scan_start-IsBlank s)
  | inr e ↦ rw e tt
]

scan_start-le : (s : Bytes) → scan_start s ≤ length s
unfolding scan_start
scan_start-le [] = omega arith
scan_start-le (c ∷ s) = ground (arith, scan_start-le s)

-- Behind the end that the second loop finds there is only whitespace.
abbrev Ends : Bytes → ℕ → ℕ → ℕ → Type 0
Ends value start end found =
    (start ≤ found)
    × (found ≤ end)
    × ((i : ℕ) → found ≤ i → i < end → is_space (get_or value i 0) ≡ true)

scan_end-Ends :
    (value : Bytes) (start end : ℕ) → start ≤ end → Ends value start end (scan_end value start end)
unfolding scan_end
scan_end-Ends value start zero h = (h, omega arith, λ i l k. absurd (omega arith))
scan_end-Ends value start (suc end) h =
    elim (Bool-cases (ltb start (suc end) && is_space (get_or value end 0))) [
      | inl e ↦
          let blank : is_space (get_or value end 0) ≡ true = ground arith in
          let (low, high, behind) = scan_end-Ends value start end (ground arith) in
          rw (e, scan_end)
            (
              low,
              omega arith,
              λ i l k. elim (Bool-cases (ltb i end)) [
                | inl f ↦ behind i l (ground arith)
                | inr f ↦ let same : end ≡ i = ground arith in rw (← same) blank
              ],
            )
      | inr e ↦ rw (e, scan_end) (h, omega arith, λ i l k. absurd (omega arith))
    ]

length-drop : (n : ℕ) (s : Bytes) → length (drop n s) ≡ length s - n
length-drop zero s = omega arith
length-drop (suc n) [] = omega arith
length-drop (suc n) (c ∷ s) = omega (arith, length-drop n s)

get_or-drop : (n i : ℕ) (s : Bytes) → get_or (drop n s) i 0 ≡ get_or s (n + i) 0
get_or-drop zero i s = ap (λ (k : ℕ). get_or s k 0) (omega arith)
get_or-drop (suc n) i [] = refl
get_or-drop (suc n) i (c ∷ s) =
    let next : suc (n + i) ≡ suc n + i = omega arith in
    get_or-drop n i s ∙ ap (λ (k : ℕ). get_or (c ∷ s) k 0) next

-- Only whitespace is taken away in front and behind.
pub trim_cut :
    (s : Bytes)
    → (before : Bytes) × (after : Bytes) × (s ≡ before ++ (trim s ++ after))
      × IsBlank before
      × IsBlank after
unfolding trim
trim_cut s =
    let n = scan_start s in
    let e = scan_end s n (length s) in
    let (low, high, behind) = scan_end-Ends s n (length s) (scan_start-le s) in
    let rest = drop n s in
    let after = drop (e - n) rest in
    let size = length-drop n s in
    let size' = length-drop (e - n) rest in
    (
      take n s,
      after,
      sym (ap (λ t. take n s ++ t) (take-drop (e - n) rest) ∙ take-drop n s),
      scan_start-IsBlank s,
      All-by_get_or after (λ i h.
          rw (get_or-drop (e - n) i rest, get_or-drop n (e - n + i) s)
            (behind (n + (e - n + i)) (omega arith) (omega arith))),
    )
