-- ===== src/Host/HostDiscovery/Outcomes.antt =====
-- What `generateHosts` of src/host/host_discovery.cpp does with any text.
use mathlib.Core.Option.{none-ne-some, some-injective}
use slipnet.Prelude.{
  ℕ, zero, suc, ◌+◌, ◌^◌, ◌<◌, ◌≤◌, ◌≡◌, refl, sym, ◌∙◌, ◌↔◌, ◌⊎◌, inl, inr, Option, none, some,
  List, [], ltb, Bool-cases, Option-cases, Bytes, take, drop, find_char, arith,
}
use slipnet.Prelude.Int.{ℤ, pos, negsuc}
use slipnet.Prelude.Decimal.Whole.{stoi_whole}
use slipnet.Network.SubnetCalculator.{subnet_words}
use slipnet.Host.HostDiscovery.{
  parse_ipv4, generate_range, generate_parsed, generate_at, generate_hosts,
}
use slipnet.Host.HostDiscovery.Octets.{IsAddress, parse_ipv4-IsAddress}
use slipnet.Host.HostDiscovery.Generation.{usable_addresses, generate_range-usable}

IsAddress-lt : (ip : Bytes) (a : ℕ) → IsAddress ip a → a < 2 ^ 32
IsAddress-lt ip a h =
    let (w, x, y, z) = h.bytes in
    let (_, w_small) = h.first in
    let (_, x_small) = h.second in
    let (_, y_small) = h.third in let (_, z_small) = h.fourth in let value = h.value in omega arith

parse_ipv4-lt : (ip : Bytes) (a : ℕ) → parse_ipv4 ip ≡ some a → a < 2 ^ 32
parse_ipv4-lt ip a h = IsAddress-lt ip a ((parse_ipv4-IsAddress ip a).0 h)

-- The shift of 1 by 32 has no defined result.
generate_range-zero : (a : ℕ) → generate_range a 0 ≡ none
unfolding generate_range
generate_range-zero a = refl

-- In front of the first slash are the four bytes of an address, and behind it is a prefix.
pub record IsBlockText (cidr : Bytes) (a p : ℕ) : Type 0 where
  pub slash : ℕ
  pub at_slash : find_char b'/' cidr ≡ some slash
  pub address : IsAddress (take slash cidr) a
  pub prefix : stoi_whole (drop (slash + 1) cidr) ≡ some (pos p)
  pub prefix_small : p ≤ 32

-- The text is the block of no address and prefix.
abbrev pub NoBlockText : Bytes → Type 0
NoBlockText cidr = (a p : ℕ) → ¬ IsBlockText cidr a p

-- What the text of a block of `a` and `p` generates.
abbrev pub Generated : ℕ → ℕ → Option (List Bytes) → Type 0
Generated a p hosts =
    ((p ≡ 0) × (hosts ≡ none)) ⊎ ((0 < p) × (hosts ≡ some (usable_addresses (subnet_words a p))))

range_cases : (a p : ℕ) → a < 2 ^ 32 → p ≤ 32 → Generated a p (generate_range a p)
range_cases a zero ha hp = inl (refl, generate_range-zero a)
range_cases a (suc p) ha hp = inr (omega arith, generate_range-usable a (suc p) ha (omega arith) hp)

abbrev Outcome : (ℕ → ℕ → Type 0) → Option (List Bytes) → Type 0
Outcome Form hosts =
    (((a p : ℕ) → ¬ Form a p) × (hosts ≡ some []))
    ⊎ ((a : ℕ) × (p : ℕ) × Form a p × Generated a p hosts)

-- What the loop over the parts and the prefix have read.
abbrev ReadsBlock : Option ℕ → Option ℤ → ℕ → ℕ → Type 0
ReadsBlock address prefix a p = (address ≡ some a) × (prefix ≡ some (pos p)) × (p ≤ 32)

pos-inj : (p q : ℕ) → ◌≡◌ {A = Option ℤ} (some (pos p)) (some (pos q)) → p ≡ q
pos-inj p q h = cc

parsed_cases :
    (address : Option ℕ) (prefix : Option ℤ)
    → ((a : ℕ) → address ≡ some a → a < 2 ^ 32)
    → Outcome (ReadsBlock address prefix) (generate_parsed address prefix)
unfolding generate_parsed
parsed_cases none prefix small = inl (λ a p (e, f, le). cc, refl)
parsed_cases (some a) none small = inl (λ a' p (e, f, le). cc, refl)
parsed_cases (some a) (some (negsuc n)) small = inl (λ a' p (e, f, le). cc, refl)
parsed_cases (some a) (some (pos p)) small = elim (Bool-cases (ltb 32 p)) [
  | inl e ↦
      let large : 32 < p = ground arith in
      rw e (inl (λ a' q (_, f, le). absurd (omega (arith, pos-inj p q f)), refl))
  | inr e ↦
      let le : p ≤ 32 = ground arith in
      rw e (inr (a, p, (refl, refl, le), range_cases a p (small a refl) le))
]

-- The text of a block with its slash at a position is what has been read around it.
IsBlockText-ReadsBlock :
    (cidr : Bytes) (i a p : ℕ)
    → find_char b'/' cidr ≡ some i
    → IsBlockText cidr a p
      ↔ ReadsBlock (parse_ipv4 (take i cidr)) (stoi_whole (drop (i + 1) cidr)) a p
IsBlockText-ReadsBlock cidr i a p e = (
  λ h.
      let same : h.slash ≡ i = some-injective _ _ (sym h.at_slash ∙ e) in
      rw (← same)
        ((parse_ipv4-IsAddress (take h.slash cidr) a).1 h.address, h.prefix, h.prefix_small),
  λ (address, prefix, small). record {
    slash = i;
    at_slash = e;
    address = (parse_ipv4-IsAddress (take i cidr) a).0 address;
    prefix = prefix;
    prefix_small = small;
  },
)

-- A text that is the block of an address and a prefix of at most 32 generates the usable addresses of
-- the subnet, or has no defined result where the prefix is 0. A text that is no block generates
-- nothing.
pub generate_hosts_cases :
    (cidr : Bytes)
    → (NoBlockText cidr × (generate_hosts cidr ≡ some []))
      ⊎ ((a : ℕ) × (p : ℕ) × IsBlockText cidr a p × Generated a p (generate_hosts cidr))
unfolding generate_hosts generate_at
generate_hosts_cases cidr = elim (Option-cases (find_char b'/' cidr)) [
  | inl e ↦ inl (λ a p h. none-ne-some _ (sym e ∙ h.at_slash), rw (e, generate_at) refl)
  | inr (i, e) ↦
      rw (e, generate_at)
        (elim (parsed_cases (parse_ipv4 (take i cidr)) (stoi_whole (drop (i + 1) cidr))
          (parse_ipv4-lt (take i cidr))) [
            | inl (not_parsed, nothing) ↦
                inl (λ a p h. not_parsed a p ((IsBlockText-ReadsBlock cidr i a p e).0 h), nothing)
            | inr (a, p, parsed, result) ↦
                inr (a, p, (IsBlockText-ReadsBlock cidr i a p e).1 parsed, result)
          ])
]
