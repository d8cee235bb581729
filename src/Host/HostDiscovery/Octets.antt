-- ===== src/Host/HostDiscovery/Octets.antt =====
-- Which texts `parseIPv4` of src/host/host_discovery.cpp takes for an address.
use mathlib.Core.Option.{none-ne-some}
use slipnet.Prelude.{
  ℕ, ◌+◌, ◌*◌, ◌%◌, ◌^◌, ◌<◌, ◌≡◌, refl, sym, ◌∙◌, ◌↔◌, inl, inr, Option, none, some, List, [], ◌∷◌,
  ltb, if◌then◌else◌, Bool-cases, Bytes, is_empty, length, arith,
}
use slipnet.Prelude.Int.{ℤ, pos, negsuc}
use slipnet.Prelude.Options.{bind_inv}
use slipnet.Prelude.Text.Split.{split_on}
use slipnet.Prelude.Decimal.{skip_space, stoi}
use slipnet.Prelude.Decimal.Whole.{stoi_whole}
use slipnet.Host.HostDiscovery.{checked_octet, parse_octets, parse_ipv4}

-- The whole text is read as a number, and it is below 256.
abbrev pub IsByte : Bytes → ℕ → Type 0
IsByte part n = (stoi_whole part ≡ some (pos n)) × (n < 256)

-- The text is cut by points into four numbers of a byte, the highest first.
pub record IsAddress (ip : Bytes) (a : ℕ) : Type 0 where
  pub parts : Bytes × Bytes × Bytes × Bytes
  pub bytes : ℕ × ℕ × ℕ × ℕ
  pub cut : split_on b'.' [] ip ≡ parts.0 ∷ (parts.1 ∷ (parts.2 ∷ (parts.3 ∷ [])))
  pub first : IsByte parts.0 bytes.0
  pub second : IsByte parts.1 bytes.1
  pub third : IsByte parts.2 bytes.2
  pub fourth : IsByte parts.3 bytes.3
  pub value : a ≡ ((bytes.0 * 256 + bytes.1) * 256 + bytes.2) * 256 + bytes.3

checked_octet-inv :
    (o : Option ℤ) (n : ℕ) → checked_octet o ≡ some n → (o ≡ some (pos n)) × (n < 256)
unfolding checked_octet
checked_octet-inv none n h = cc
checked_octet-inv (some (negsuc m)) n h = cc
checked_octet-inv (some (pos m)) n h = elim (Bool-cases (ltb 255 m)) [
  | inl e ↦ absurd (cc (rw e at h))
  | inr e ↦ let same : m ≡ n = ground arith in rw (← same) (refl, ground arith)
]

octet_inv :
    (part : Bytes) (n : ℕ)
    → checked_octet (if is_empty part then none else stoi_whole part) ≡ some n
    → IsByte part n
octet_inv [] n h = absurd (unfold checked_octet in cc h)
octet_inv (c ∷ s) n h = checked_octet-inv (stoi_whole (c ∷ s)) n h

no_text : stoi_whole [] ≡ none
unfolding stoi_whole stoi skip_space
no_text = refl

octet_IsByte :
    (part : Bytes) (n : ℕ)
    → IsByte part n
    → checked_octet (if is_empty part then none else stoi_whole part) ≡ some n
unfolding checked_octet
octet_IsByte [] n (h, small) = absurd (none-ne-some _ (sym no_text ∙ h))
octet_IsByte (c ∷ s) n (h, small) = rw h (ground arith)

-- What the loop needs of the parts that are left, and what it returns.
Reads : ℕ → ℕ → List Bytes → ℕ → Type 0
Reads result count [] a = (count ≡ 4) × (result ≡ a)
Reads result count (part ∷ parts) a =
    (n : ℕ) × IsByte part n × Reads (result * 2 ^ 8 % 2 ^ 32 + n) (count + 1) parts a

parse_octets-Reads :
    (result count : ℕ) (parts : List Bytes) (a : ℕ)
    → parse_octets result count parts ≡ some a
    → Reads result count parts a
unfolding parse_octets Reads
parse_octets-Reads result count [] a h = ground arith
parse_octets-Reads result count (part ∷ parts) a h =
    let (octet, is, rest) =
      bind_inv (checked_octet (if is_empty part then none else stoi_whole part)) _ h in
    (
      octet,
      octet_inv part octet is,
      parse_octets-Reads (result * 2 ^ 8 % 2 ^ 32 + octet) (count + 1) parts a rest,
    )

Reads-parse_octets :
    (result count : ℕ) (parts : List Bytes) (a : ℕ)
    → Reads result count parts a
    → parse_octets result count parts ≡ some a
unfolding parse_octets Reads
Reads-parse_octets result count [] a h = ground arith
Reads-parse_octets result count (part ∷ parts) a (n, byte, rest) =
    rw (octet_IsByte part n byte)
      (Reads-parse_octets (result * 2 ^ 8 % 2 ^ 32 + n) (count + 1) parts a rest)

Reads-length :
    (result count : ℕ) (parts : List Bytes) (a : ℕ)
    → Reads result count parts a
    → count + length parts ≡ 4
unfolding Reads
Reads-length result count [] a h = omega arith
Reads-length result count (part ∷ parts) a (n, byte, rest) =
    omega (arith, Reads-length (result * 2 ^ 8 % 2 ^ 32 + n) (count + 1) parts a rest)

Reads-IsAddress :
    (ip : Bytes) (parts : List Bytes) (a : ℕ)
    → split_on b'.' [] ip ≡ parts
    → length parts ≡ 4
    → Reads 0 0 parts a
    → IsAddress ip a
unfolding Reads
Reads-IsAddress ip [] a is four h = absurd (omega arith)
Reads-IsAddress ip (p ∷ []) a is four h = absurd (omega arith)
Reads-IsAddress ip (p ∷ (q ∷ [])) a is four h = absurd (omega arith)
Reads-IsAddress ip (p ∷ (q ∷ (r ∷ []))) a is four h = absurd (omega arith)
Reads-IsAddress ip (p ∷ (q ∷ (r ∷ (s ∷ (t ∷ more))))) a is four h = absurd (omega arith)
Reads-IsAddress ip (p ∷ (q ∷ (r ∷ (s ∷ [])))) a is four (w, hw, (x, hx, (y, hy, (z, hz, (_, e))))) =
    record {
      parts = (p, q, r, s);
      bytes = (w, x, y, z);
      cut = is;
      first = hw;
      second = hx;
      third = hy;
      fourth = hz;
      value = omega arith;
    }

IsAddress-Reads : (ip : Bytes) (a : ℕ) → IsAddress ip a → Reads 0 0 (split_on b'.' [] ip) a
unfolding Reads
IsAddress-Reads ip a h =
    let (w, x, y, z) = h.bytes in
    let (_, w_small) = h.first in
    let (_, x_small) = h.second in
    let (_, y_small) = h.third in
    let (_, z_small) = h.fourth in
    let value = h.value in
    rw h.cut (w, h.first, (x, h.second, (y, h.third, (z, h.fourth, (refl, omega arith)))))

-- `parseIPv4` reads exactly the texts of four bytes between points.
pub parse_ipv4-IsAddress : (ip : Bytes) (a : ℕ) → (parse_ipv4 ip ≡ some a) ↔ IsAddress ip a
unfolding parse_ipv4
parse_ipv4-IsAddress ip a =
    let parts = split_on b'.' [] ip in
    (
      λ h.
          let reads = parse_octets-Reads 0 0 parts a h in
          Reads-IsAddress ip parts a refl (omega (arith, Reads-length 0 0 parts a reads)) reads,
      λ h. Reads-parse_octets 0 0 parts a (IsAddress-Reads ip a h),
    )
