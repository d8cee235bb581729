-- ===== src/Network/SubnetCalculator/Parsing.antt =====
-- Which texts `SubnetCalculator::parseCIDR` in src/network/subnet_calculator.cpp takes.
use mathlib.Core.Path.{subst}
use native.Mathlib.Numerals.{add-one}
use slipnet.Prelude.{
  ℕ, ◌+◌, ◌≤◌, ◌<◌, ◌≡◌, refl, sym, ap, ◌∙◌, ◌≢◌, inl, inr, true, some, [], ◌∷◌, ◌++◌, Option-cases,
  Bytes, length, length-append, drop, find_char, All, arith,
}
use slipnet.Prelude.Decimal.{stoull}
use slipnet.Prelude.Decimal.RoundTrip.{IsDigit}
use slipnet.Prelude.Text.Find.{
  Lacks, find_char-Lacks, find_char_here, take-append, drop_behind, IsCut, find_char-IsCut,
}
use slipnet.Network.SubnetCalculator.{parse_prefix, all_digits, parse_parts, parse_at, parse_cidr}

-- The text is an address part, one slash and a prefix part: both are there, the address part has
-- no slash, and the prefix part is a decimal number of at most 32.
pub record IsCidr (cidr ip : Bytes) (prefix : ℕ) : Type 0 where
  pub prefix_text : Bytes
  pub splits : cidr ≡ ip ++ b'/' ∷ prefix_text
  pub ip_ne_nil : ip ≢ []
  pub ip_no_slash : Lacks b'/' ip
  pub prefix_ne_nil : prefix_text ≢ []
  pub prefix_digits : All IsDigit prefix_text
  pub prefix_value : stoull prefix_text ≡ some prefix
  pub prefix_small : prefix ≤ 32

all_digits_of : (s : Bytes) → All IsDigit s → all_digits s ≡ true
unfolding all_digits
all_digits_of [] h = refl
all_digits_of (c ∷ s) h = ground (arith, all_digits_of s h.1)

All-digits→All : (s : Bytes) → all_digits s ≡ true → All IsDigit s
unfolding all_digits
All-digits→All [] h = tt
All-digits→All (c ∷ s) h = (ground arith, All-digits→All s (ground arith))

digits-Lacks : (s : Bytes) → All IsDigit s → Lacks b'/' s
digits-Lacks [] h = tt
digits-Lacks (c ∷ s) h = (ground arith, digits-Lacks s h.1)

length_pos : (s : Bytes) → s ≢ [] → 0 < length s
length_pos [] h = absurd (h refl)
length_pos (c ∷ s) h = omega arith

ne_nil_of_length : (s : Bytes) → 0 < length s → s ≢ []
ne_nil_of_length s h e = omega (arith, ap length e)

parse_prefix_ok :
    (t : Bytes) (p : ℕ) → t ≢ [] → stoull t ≡ some p → p ≤ 32 → parse_prefix t ≡ some p
unfolding parse_prefix
parse_prefix_ok [] p ne v h = absurd (ne refl)
parse_prefix_ok (c ∷ t) p ne v h = rw v (ground arith)

drop_prefix : (ip t : Bytes) → drop (length ip + 1) (ip ++ b'/' ∷ t) ≡ t
drop_prefix ip t = rw add-one (drop_behind ip b'/' t)

parse_parts_ok :
    (ip t : Bytes) (p : ℕ)
    → t ≢ []
    → All IsDigit t
    → stoull t ≡ some p
    → p ≤ 32
    → parse_parts ip t ≡ some (ip, p)
unfolding parse_parts
parse_parts_ok ip t p ht d v h =
    rw (find_char-Lacks b'/' t (digits-Lacks t d), all_digits_of t d, parse_prefix_ok t p ht v h)

parse_at_form :
    (ip t : Bytes) (p : ℕ)
    → ip ≢ []
    → t ≢ []
    → parse_parts ip t ≡ some (ip, p)
    → parse_at (ip ++ b'/' ∷ t) (some (length ip)) ≡ some (ip, p)
unfolding parse_at
parse_at_form ip t p hi ht h =
    rw (drop_prefix ip t, take-append ip (b'/' ∷ t), length-append ip (b'/' ∷ t))
      (ground (arith, length_pos ip hi, length_pos t ht))

-- Every text of the form is taken, with its two parts.
pub parse_cidr-IsCidr :
    (cidr ip : Bytes) (prefix : ℕ) → IsCidr cidr ip prefix → parse_cidr cidr ≡ some (ip, prefix)
unfolding parse_cidr
parse_cidr-IsCidr cidr ip prefix c =
    rw (c.splits, find_char_here b'/' ip c.prefix_text c.ip_no_slash)
      (parse_at_form ip c.prefix_text prefix c.ip_ne_nil c.prefix_ne_nil (
        parse_parts_ok ip c.prefix_text prefix c.prefix_ne_nil c.prefix_digits c.prefix_value
          c.prefix_small))

record Parts (ip t front : Bytes) (prefix : ℕ) : Type 0 where
  same_ip : ip ≡ front
  ne_nil : t ≢ []
  all_digit : All IsDigit t
  value : stoull t ≡ some prefix
  small : prefix ≤ 32

parse_prefix_inv :
    (t : Bytes) (p : ℕ) → parse_prefix t ≡ some p → (t ≢ []) × (stoull t ≡ some p) × (p ≤ 32)
unfolding parse_prefix
parse_prefix_inv [] p h = absurd (cc h)
parse_prefix_inv (c ∷ t) p h = elim (Option-cases (stoull (c ∷ t))) [
  | inl e ↦ absurd (cc (rw e at h))
  | inr (v, e) ↦ (ground arith, ground arith, ground arith)
]

parse_parts_inv :
    (ip t front : Bytes) (prefix : ℕ)
    → parse_parts front t ≡ some (ip, prefix)
    → Parts ip t front prefix
unfolding parse_parts
parse_parts_inv ip t front prefix h = elim (Option-cases (parse_prefix t)) [
  | inl e ↦ absurd (ground arith)
  | inr (p, e) ↦
      let (ne, v, small) = parse_prefix_inv t p e in
      let same : p ≡ prefix = ground arith in
      record {
        same_ip = ground arith;
        ne_nil = ne;
        all_digit = All-digits→All t (ground arith);
        value = v ∙ ap some same;
        small = omega arith;
      }
]

parse_at_inv :
    (front back : Bytes) {r : Bytes × ℕ}
    → parse_at (front ++ b'/' ∷ back) (some (length front)) ≡ some r
    → (0 < length front) × (parse_parts front back ≡ some r)
unfolding parse_at
parse_at_inv front back h =
    let h' = rw (drop_prefix front back, take-append front (b'/' ∷ back)) at h in
    (ground arith, ground arith)

parse_at-IsCidr :
    (cidr ip : Bytes) (prefix slash : ℕ)
    → IsCut b'/' cidr slash
    → parse_at cidr (some slash) ≡ some (ip, prefix)
    → IsCidr cidr ip prefix
parse_at-IsCidr cidr ip prefix slash cut h =
    let h' = rw (cut.splits, cut.at) at h in
    let (long, parts) = parse_at_inv cut.front cut.back h' in
    let q = parse_parts_inv ip cut.back cut.front prefix parts in
    record {
      prefix_text = cut.back;
      splits = cut.splits ∙ ap (λ t. t ++ b'/' ∷ cut.back) (sym q.same_ip);
      ip_ne_nil = λ e. ne_nil_of_length cut.front long (sym q.same_ip ∙ e);
      ip_no_slash = subst (Lacks b'/') (sym q.same_ip) cut.lacks;
      prefix_ne_nil = q.ne_nil;
      prefix_digits = q.all_digit;
      prefix_value = q.value;
      prefix_small = q.small;
    }

-- Nothing else is taken.
pub IsCidr-parse_cidr :
    (cidr ip : Bytes) (prefix : ℕ) → parse_cidr cidr ≡ some (ip, prefix) → IsCidr cidr ip prefix
unfolding parse_cidr
IsCidr-parse_cidr cidr ip prefix h = elim (Option-cases (find_char b'/' cidr)) [
  | inl n ↦ absurd (unfold parse_at in cc (rw n at h))
  | inr (slash, f) ↦
      parse_at-IsCidr cidr ip prefix slash (find_char-IsCut b'/' cidr slash f) (rw f at h)
]
