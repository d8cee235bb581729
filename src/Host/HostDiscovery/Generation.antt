-- ===== src/Host/HostDiscovery/Generation.antt =====
-- Which addresses `generateHosts` of src/host/host_discovery.cpp generates.
use Prim.Native.Nat.{bit_and}
use native.Mathlib.Nat.{pow-le-pow_right}
use slipnet.Prelude.{
  ℕ, zero, suc, ◌+◌, ◌-◌, ◌%◌, ◌^◌, ◌<◌, ◌≤◌, ◌≡◌, refl, sym, ap, ◌∙◌, inl, inr, true, false, some,
  List, [], ◌∷◌, ◌++◌, map, leb, ltb, ◌==◌, Bool-cases, Bytes, length, arith,
}
use slipnet.Prelude.Text.Find.{find_char_here, take-append, drop_behind}
use slipnet.Prelude.Decimal.{to_string}
use slipnet.Prelude.Decimal.Whole.{stoi_whole-to_string}
use slipnet.Network.SubnetCalculator.{prefix_mask, Words, subnet_words}
use slipnet.Network.SubnetCalculator.Ranges.{
  agrees, agrees→eq, block, bit_and-prefix_mask, IsSubnet, subnet_words-IsSubnet,
}
use slipnet.Host.HostDiscovery.{
  shift_left, prefix_to_mask, ipv4_to_string, hosts_loop, hosts_between, generate_range,
  generate_parsed, generate_at, generate_hosts,
}
use slipnet.Host.HostDiscovery.Addresses.{parse_ipv4-ipv4_to_string, ipv4_to_string-Lacks}

-- So many addresses from the first on.
abbrev pub addresses : ℕ → ℕ → List ℕ
addresses zero a = []
addresses (suc n) a = a ∷ addresses n (a + 1)

-- The loop runs through the addresses and stops at the last one, also where that is the highest.
hosts_loop-addresses :
    (n a last_host : ℕ)
    → a + n ≡ last_host
    → last_host < 2 ^ 32
    → hosts_loop (suc n) a last_host ≡ map ipv4_to_string (addresses (suc n) a)
unfolding hosts_loop
hosts_loop-addresses zero a last_host e h = ground arith
hosts_loop-addresses (suc n) a last_host e h =
    let next : (a + 1) % 2 ^ 32 ≡ a + 1 = omega arith in
    let inside : ltb last_host a ≡ false = ground arith in
    let more : (a == last_host) ≡ false = ground arith in
    rw (next, inside, more)
      (ap (λ l. ipv4_to_string a ∷ l) (hosts_loop-addresses n (a + 1) last_host (omega arith) h))

hosts_between-addresses :
    (a n : ℕ) → a + n < 2 ^ 32 → hosts_between a (a + n) ≡ map ipv4_to_string (addresses (suc n) a)
unfolding hosts_between
hosts_between-addresses a n h =
    let rounds : a + n - a ≡ n = omega arith in rw rounds (hosts_loop-addresses n a (a + n) refl h)

-- Checked at each of the 33 prefixes.
prefix_to_mask-prefix_mask : (p : ℕ) → p ≤ 32 → prefix_to_mask p ≡ prefix_mask p
unfolding agrees prefix_to_mask prefix_mask
prefix_to_mask-prefix_mask p h = agrees→eq prefix_to_mask prefix_mask 33 refl p (omega arith)

block_four : (p : ℕ) → p ≤ 30 → 4 ≤ block p
block_four p h = pow-le-pow_right {n = 2} (omega arith) {i = 2} {j = 32 - p} (omega arith)

block_half : (p : ℕ) → 0 < p → block p ≤ 2 ^ 31
block_half p h = pow-le-pow_right (omega arith) {j = 31} (omega arith)

-- The usable addresses of a subnet, as the calculator has them.
abbrev pub usable_addresses : Words → List Bytes
usable_addresses w = map ipv4_to_string (addresses w.usable w.first)

hosts_between-usable :
    (w : Words)
    → w.usable + w.first ≡ w.last + 1
    → w.first ≤ w.last
    → w.last < 2 ^ 32
    → hosts_between w.first w.last ≡ usable_addresses w
hosts_between-usable w e le h =
    let n = w.last - w.first in
    let reach : w.first + n ≡ w.last = omega arith in
    let count : suc n ≡ w.usable = omega arith in
    ap (hosts_between w.first) (sym reach)
    ∙ hosts_between-addresses w.first n (omega arith)
    ∙ ap (λ k. map ipv4_to_string (addresses k w.first)) count

shift_left-block : (p : ℕ) → 0 < p → p ≤ 32 → shift_left 1 (32 - p) ≡ some (block p)
unfolding shift_left
shift_left-block p h k =
    let fits : ltb (32 - p) 32 ≡ true = ground arith in
    rw fits (ap some (omega (arith, block_half p h)))

network_masked :
    (a p : ℕ) (w : Words)
    → a < 2 ^ 32
    → p ≤ 32
    → IsSubnet a p w
    → bit_and a (prefix_to_mask p) ≡ w.network
network_masked a p w ha k s =
    ap (bit_and a) (prefix_to_mask-prefix_mask p k)
    ∙ bit_and-prefix_mask a p ha k
    ∙ sym s.network_is

module _ (a p : ℕ) (w : Words) (ha : a < 2 ^ 32) (hp : 0 < p) (k : p ≤ 32)
    (s : IsSubnet a p w) where
  generate_range_low : leb p 30 ≡ true → generate_range a p ≡ some (usable_addresses w)
  unfolding generate_range
  generate_range_low e =
      let first : w.first ≡ w.network + 1 = rw e at s.first_is in
      let last : w.last ≡ w.broadcast - 1 = rw e at s.last_is in
      let four : 4 ≤ block p = block_four p (ground arith) in
      let low : (w.network + 1) % 2 ^ 32 ≡ w.first = omega (arith, s.broadcast_is, s.word) in
      let high : (w.network + block p + 2 ^ 32 - 2) % 2 ^ 32 ≡ w.last =
        omega (arith, s.broadcast_is, s.word) in
      rw (network_masked a p w ha k s, e, shift_left-block p hp k, low, high)
        (ap some (
          hosts_between-usable w s.usable_is (omega (arith, s.broadcast_is))
            (omega (arith, s.word))))

  generate_range_high : leb p 30 ≡ false → generate_range a p ≡ some (usable_addresses w)
  unfolding generate_range
  generate_range_high e =
      let first : w.first ≡ w.network = rw e at s.first_is in
      let last : w.last ≡ w.broadcast = rw e at s.last_is in
      elim (Bool-cases (p == 31)) [
        | inl f ↦
            let two : block p ≡ 2 = ap block (let q : p ≡ 31 = ground arith in q) in
            let high : (w.network + 1) % 2 ^ 32 ≡ w.last = omega (arith, s.broadcast_is, s.word) in
            rw (network_masked a p w ha k s, e, f, high, ← first)
              (ap some (
                hosts_between-usable w s.usable_is (omega (arith, s.broadcast_is))
                  (omega (arith, s.word))))
        | inr f ↦
            let one : block p ≡ 1 = ap block (let q : p ≡ 32 = ground arith in q) in
            let high : w.network ≡ w.last = omega (arith, s.broadcast_is) in
            rw (network_masked a p w ha k s, e, f)
              (ap some (
                ap (hosts_between w.network) high
                ∙ ap (λ t. hosts_between t w.last) (sym first)
                ∙ hosts_between-usable w s.usable_is (omega (arith, s.broadcast_is))
                    (omega (arith, s.word))))
      ]

pub generate_range-usable :
    (a p : ℕ)
    → a < 2 ^ 32
    → 0 < p
    → p ≤ 32
    → generate_range a p ≡ some (usable_addresses (subnet_words a p))
generate_range-usable a p ha hp k =
    let s = subnet_words-IsSubnet a p ha k in
    elim (Bool-cases (leb p 30)) [
      | inl e ↦ generate_range_low a p (subnet_words a p) ha hp k s e
      | inr e ↦ generate_range_high a p (subnet_words a p) ha hp k s e
    ]

-- For the text of an address and of a prefix from 1 to 32 the hosts generated are the usable
-- addresses of the subnet, as many and from the first to the last as the calculator says, in order.
pub generate_hosts-usable :
    (a p : ℕ)
    → a < 2 ^ 32
    → 0 < p
    → p ≤ 32
    → generate_hosts (ipv4_to_string a ++ b'/' ∷ to_string p)
      ≡ some (usable_addresses (subnet_words a p))
unfolding generate_hosts generate_at
generate_hosts-usable a p ha hp k =
    let ip = ipv4_to_string a in
    let small : ltb 32 p ≡ false = ground arith in
    let behind : length ip + 1 ≡ suc (length ip) = omega arith in
    rw
      (
        find_char_here b'/' ip (to_string p) (ipv4_to_string-Lacks a),
        generate_at,
        take-append ip (b'/' ∷ to_string p),
        behind,
        drop_behind ip b'/' (to_string p),
        parse_ipv4-ipv4_to_string a ha,
        stoi_whole-to_string p (omega arith),
        generate_parsed,
        small,
      )
      (generate_range-usable a p ha hp k)
