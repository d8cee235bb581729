-- ===== src/Host/HostDiscovery/Batches.antt =====
-- The batches of `HostDiscovery::scanSubnet` of src/host/host_discovery.cpp.
use Prim.Native.Nat.{min}
use mathlib.Core.List.{append-nil, append_assoc, map-append}
use slipnet.Prelude.{
  ℕ, zero, suc, ◌+◌, ◌-◌, ◌<◌, ◌≤◌, ◌≡◌, refl, sym, ap, ◌∙◌, inl, inr, some, List, [], ◌∷◌, ◌++◌,
  map, ltb, Bool-cases, Bytes, length, take, drop, arith,
}
use slipnet.Prelude.Text.Find.{take-drop}
use slipnet.Host.HostDiscovery.{PingResult, Host, generate_hosts, check, scan_batches, scan_subnet}

drop-length : {A : Type 0} (n : ℕ) (xs : List A) → length xs ≤ n → drop n xs ≡ []
drop-length zero [] h = refl
drop-length zero (x ∷ xs) h = absurd (omega arith)
drop-length (suc n) [] h = refl
drop-length (suc n) (x ∷ xs) h = drop-length n xs (omega arith)

-- What a slice takes and what is behind its end make up what is behind its start.
take-drop_behind :
    {A : Type 0} (k i n : ℕ) (xs : List A) → n ≡ i + k → take k (drop i xs) ++ drop n xs ≡ drop i xs
take-drop_behind k zero n xs e = let same : n ≡ k = omega arith in rw same (take-drop k xs)
take-drop_behind k (suc i) zero xs e = absurd (omega arith)
take-drop_behind zero (suc i) (suc n) [] e = refl
take-drop_behind (suc k) (suc i) (suc n) [] e = refl
take-drop_behind k (suc i) (suc n) (x ∷ xs) e = take-drop_behind k i n xs (omega arith)

-- The same where the slice is cut at the end of the list.
take-drop_slice :
    {A : Type 0} (i : ℕ) (xs : List A)
    → i < length xs
    → take (min (i + 32) (length xs) - i) (drop i xs) ++ drop (i + 32) xs ≡ drop i xs
take-drop_slice i xs h = elim (Bool-cases (ltb (length xs) (i + 32))) [
  | inr e ↦ take-drop_behind (min (i + 32) (length xs) - i) i (i + 32) xs (ground arith)
  | inl e ↦
      let n = min (i + 32) (length xs) in
      let short : n ≡ length xs = ground arith in
      let gone : drop (i + 32) xs ≡ [] = drop-length (i + 32) xs (ground arith) in
      let end : drop n xs ≡ [] = drop-length n xs (omega arith) in
      ap (◌++◌ (take (n - i) (drop i xs))) (gone ∙ sym end)
      ∙ take-drop_behind (n - i) i n xs (omega arith)
]

module _ {Double : Type 0} (zero_ms : Double) (ping : Bytes → PingResult Double) where
  scan_batches-map :
      (rounds i : ℕ) (hosts : List Bytes) (results : List (Host Double))
      → length hosts ≤ i + rounds
      → scan_batches zero_ms ping rounds i hosts results
        ≡ results ++ map (check zero_ms ping) (drop i hosts)
  unfolding scan_batches
  scan_batches-map zero i hosts results h = rw (drop-length i hosts (omega arith), append-nil) refl
  scan_batches-map (suc rounds) i hosts results h = elim (Bool-cases (ltb i (length hosts))) [
    | inr e ↦ rw (e, drop-length i hosts (ground arith), append-nil) refl
    | inl e ↦
        let part = take (min (i + 32) (length hosts) - i) (drop i hosts) in
        let f = check zero_ms ping in
        rw e (
          scan_batches-map rounds (i + 32) hosts (results ++ map f part) (omega arith)
          ∙ append_assoc results (map f part) (map f (drop (i + 32) hosts))
          ∙ ap (◌++◌ results) (
              sym (map-append f part (drop (i + 32) hosts))
              ∙ ap (map f) (take-drop_slice i hosts (ground arith))))
  ]

  -- Where `generateHosts` has a result, the scan in batches of 32 has the check of each of its hosts,
  -- in their order.
  pub scan_subnet-generate_hosts :
      (cidr : Bytes) (hosts : List Bytes)
      → generate_hosts cidr ≡ some hosts
      → scan_subnet zero_ms ping cidr ≡ some (map (check zero_ms ping) hosts)
  unfolding scan_subnet
  scan_subnet-generate_hosts cidr [] e = rw e refl
  scan_subnet-generate_hosts cidr (host ∷ hosts) e =
      rw e (ap some (scan_batches-map (length (host ∷ hosts)) 0 (host ∷ hosts) [] (omega arith)))
