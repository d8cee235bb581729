-- ===== src/Network/SubnetCalculator/Ranges.antt =====
-- The arithmetic of `SubnetCalculator::calculate` in src/network/subnet_calculator.cpp.
use Prim.Native.Nat.{bit_and, bit_or, min}
use native.Mathlib.Nat.{
  one-le-pow, pow-le-pow_right, div-mul-le_self, lt-div-mul-add, div-lt_iff_lt-mul,
}
use slipnet.Prelude.{
  ℕ, zero, suc, ◌+◌, ◌-◌, ◌*◌, ◌/◌, ◌^◌, ◌≤◌, ◌<◌, ◌≡◌, refl, ap, ◌∙◌, Bool, true, ◌&&◌, ◌==◌, leb,
  if◌then◌else◌, arith,
}
use slipnet.Prelude.Bits.{bit_not, bit_and_high, bit_or_low}
use slipnet.Network.SubnetCalculator.{prefix_mask, Words, subnet_words}

-- The number of addresses of a /p subnet.
abbrev pub block : ℕ → ℕ
block p = 2 ^ (32 - p)

-- The lowest address of the subnet of `a`.
abbrev pub base : ℕ → ℕ → ℕ
base a p = a / block p * block p

module _ (f g : ℕ → ℕ) where
  unfoldable pub agrees : ℕ → Bool
  agrees zero = true
  agrees (suc n) = f n == g n && agrees n

  pub agrees→eq : (n : ℕ) → agrees n ≡ true → (i : ℕ) → i < n → f i ≡ g i
  unfolding agrees
  agrees→eq zero e i h = absurd (omega arith)
  agrees→eq (suc n) e i h = ground (arith, agrees→eq n (ground arith) i)

-- Checked at each of the 33 prefixes.
prefix_mask-fields : (p : ℕ) → p ≤ 32 → prefix_mask p ≡ (2 ^ p - 1) * block p
unfolding agrees prefix_mask
prefix_mask-fields p h = agrees→eq prefix_mask (λ p. (2 ^ p - 1) * block p) 33 refl p (omega arith)

block_total : (p : ℕ) → p ≤ 32 → 2 ^ p * block p ≡ 2 ^ 32
unfolding agrees
block_total p h = agrees→eq (λ p. 2 ^ p * block p) (λ _. 2 ^ 32) 33 refl p (omega arith)

pub prefix_mask-block : (p : ℕ) → p ≤ 32 → prefix_mask p ≡ 2 ^ 32 - block p
unfolding agrees prefix_mask
prefix_mask-block p h = agrees→eq prefix_mask (λ p. 2 ^ 32 - block p) 33 refl p (omega arith)

block-le : (p : ℕ) → p ≤ 32 → block p ≤ 2 ^ 32
block-le p h = pow-le-pow_right (omega arith) {j = 32} (omega arith)

pub block_pos : (p : ℕ) → 0 < block p
block_pos p = one-le-pow (32 - p) 2 (omega arith)

-- The address with the bits behind the prefix cleared.
pub bit_and-prefix_mask : (a p : ℕ) → a < 2 ^ 32 → p ≤ 32 → bit_and a (prefix_mask p) ≡ base a p
bit_and-prefix_mask a p ha hp =
    ap (bit_and a) (prefix_mask-fields p hp)
    ∙ bit_and_high p (32 - p) a (omega (arith, block_total p hp))

next_block : (q n b : ℕ) → q < n → q * b + b ≤ n * b
next_block q n b h = grind arith

base_last : (a p : ℕ) → a < 2 ^ 32 → p ≤ 32 → base a p + block p ≤ 2 ^ 32
base_last a p ha hp =
    let fits : a < 2 ^ p * block p = omega (arith, block_total p hp) in
    let below : a / block p < 2 ^ p = (div-lt_iff_lt-mul (block_pos p)).1 fits in
    omega (arith, block_total p hp, next_block (a / block p) (2 ^ p) (block p) below)

bit_or-wildcard :
    (a p : ℕ) → p ≤ 32 → bit_or (base a p) (bit_not (prefix_mask p)) ≡ base a p + (block p - 1)
bit_or-wildcard a p hp =
    ap (bit_or (base a p)) (omega (arith, prefix_mask-block p hp, block-le p hp, block_pos p))
    ∙ bit_or_low (32 - p) (a / block p)

-- The words of the subnet of `a` with prefix `p`: the addresses from `network` to `broadcast` are
-- the block of 2 ^ (32 - p) that holds `a`, and those from `first` to `last` are the usable ones.
pub record IsSubnet (a p : ℕ) (w : Words) : Type 0 where
  pub mask_is : w.mask ≡ 2 ^ 32 - block p
  pub network_is : w.network ≡ base a p
  pub broadcast_is : w.broadcast + 1 ≡ w.network + block p
  pub total_is : w.total ≡ block p
  pub holds_low : w.network ≤ a
  pub holds_high : a ≤ w.broadcast
  pub word : w.broadcast < 2 ^ 32
  pub first_is : w.first ≡ (if leb p 30 then w.network + 1 else w.network)
  pub last_is : w.last ≡ (if leb p 30 then w.broadcast - 1 else w.broadcast)
  pub usable_is : w.usable + w.first ≡ w.last + 1

block_small :
    (p : ℕ) → p ≤ 32 → min (block p) 4 ≡ (if leb p 30 then 4 else if p == 31 then 2 else 1)
unfolding agrees
block_small p h =
    agrees→eq (λ p. min (block p) 4) (λ p. if leb p 30 then 4 else if p == 31 then 2 else 1) 33 refl
      p (omega arith)

-- For a 32-bit address and a prefix of at most 32 the words are those of the subnet: nothing wraps.
pub subnet_words-IsSubnet : (a p : ℕ) → a < 2 ^ 32 → p ≤ 32 → IsSubnet a p (subnet_words a p)
unfolding subnet_words
subnet_words-IsSubnet a p ha hp =
    rw (bit_and-prefix_mask a p ha hp, bit_or-wildcard a p hp)
      (ground (
        arith,
        prefix_mask-block p hp,
        block_small p hp,
        block_pos p,
        base_last a p ha hp,
        div-mul-le_self a (block p),
        lt-div-mul-add {a = a} (block_pos p),
      ))
