-- ===== src/Network/SubnetCalculator/Answers.antt =====
-- `SubnetCalculator::calculate` of src/network/subnet_calculator.cpp as a whole.
use slipnet.Prelude.{
  ℕ, ◌^◌, ◌<◌, ◌≡◌, ap, ◌∙◌, ◌≢◌, ◌⊎◌, inl, inr, true, none, some, Bool-cases, Option-cases, Bytes,
  codes, eq_bytes, eq_bytes_iff, arith,
}
use slipnet.Prelude.Bits.{bit_not}
use slipnet.Network.Inet.{Inet, IsInet}
use slipnet.Network.SubnetCalculator.{
  SubnetInfo, Words, parse_cidr, subnet_words, parse_ipv4, describe, calculate_parsed, calculate,
}
use slipnet.Network.SubnetCalculator.Parsing.{IsCidr, parse_cidr-IsCidr, IsCidr-parse_cidr}
use slipnet.Network.SubnetCalculator.Ranges.{IsSubnet, subnet_words-IsSubnet}
use slipnet.Network.SubnetCalculator.Classes.{class_of, classify_address-class_of}

abbrev pub zero_text : Bytes
zero_text = codes "0.0.0.0"

module _ (inet : Inet) where
  open inet use {pton, ntop}

  -- The text is a CIDR block of the address `a`. The code takes address zero in the spelling
  -- 0.0.0.0 alone.
  pub record IsBlock (cidr ip : Bytes) (prefix a : ℕ) : Type 0 where
    pub form : IsCidr cidr ip prefix
    pub address : pton ip ≡ some a
    pub spelling : (a ≢ 0) ⊎ (ip ≡ zero_text)

  -- The answer for address `a`, prefix `p` and the words `w` of their subnet.
  abbrev pub answer : Bytes → ℕ → ℕ → Words → SubnetInfo
  answer cidr a p w = record {
    valid = true;
    input = cidr;
    network = ntop w.network;
    broadcast = ntop w.broadcast;
    first_host = ntop w.first;
    last_host = ntop w.last;
    netmask = ntop w.mask;
    wildcard = ntop (bit_not w.mask);
    address_type = class_of a;
    prefix = p;
    total_addresses = w.total;
    usable_hosts = w.usable;
  }

  describe-answer :
      (cidr : Bytes) (a p : ℕ)
      → a < 2 ^ 32
      → describe inet cidr a p ≡ answer cidr a p (subnet_words a p)
  unfolding describe
  describe-answer cidr a p h = rw (classify_address-class_of a h)

  parse_ipv4-some : (ip : Bytes) (a : ℕ) → pton ip ≡ some a → parse_ipv4 inet ip ≡ a
  unfolding parse_ipv4
  parse_ipv4-some ip a e = rw (e, parse_ipv4)

  parse_ipv4-none : (ip : Bytes) → pton ip ≡ none → parse_ipv4 inet ip ≡ 0
  unfolding parse_ipv4
  parse_ipv4-none ip e = rw (e, parse_ipv4)

  calculate_taken :
      (cidr ip : Bytes) (p a : ℕ)
      → pton ip ≡ some a
      → (a ≢ 0) ⊎ (ip ≡ zero_text)
      → calculate_parsed inet cidr (some (ip, p)) ≡ describe inet cidr a p
  unfolding calculate_parsed
  calculate_taken cidr ip p a e (inl nz) = rw (parse_ipv4-some ip a e) (ground arith)
  calculate_taken cidr ip p a e (inr z) =
      rw (parse_ipv4-some ip a e) (ground (arith, eq_bytes_iff ip zero_text))

  -- With system functions that do what POSIX says, for a CIDR block of an address the answer is
  -- valid and describes the subnet of the address: the numbers in it are those of the block of
  -- 2 ^ (32 - prefix) addresses that holds the address, the texts are their dotted forms, and the
  -- class is that of the table of ranges.
  pub calculate-IsBlock :
      IsInet inet
      → (cidr ip : Bytes) (p a : ℕ) → IsBlock cidr ip p a
      → (w : Words) × IsSubnet a p w × (calculate inet cidr ≡ answer cidr a p w)
  unfolding calculate
  calculate-IsBlock laws cidr ip p a b =
      let word = laws.pton_word ip a b.address in
      (
        subnet_words a p,
        subnet_words-IsSubnet a p word b.form.prefix_small,
        ap (calculate_parsed inet cidr) (parse_cidr-IsCidr cidr ip p b.form)
            ∙ calculate_taken cidr ip p a b.address b.spelling
            ∙ describe-answer cidr a p word,
      )

  parsed_valid :
      IsInet inet
      → (cidr ip : Bytes) (p : ℕ) → (calculate_parsed inet cidr (some (ip, p))).valid ≡ true
      → (a : ℕ) × (pton ip ≡ some a) × ((a ≢ 0) ⊎ (ip ≡ zero_text))
  unfolding calculate_parsed
  parsed_valid laws cidr ip p h = elim (Bool-cases (eq_bytes ip zero_text)) [
    | inl z ↦
        let same = (eq_bytes_iff ip zero_text).0 z in (0, ap pton same ∙ laws.pton_zero, inr same)
    | inr z ↦ elim (Option-cases (pton ip)) [
      | inl e ↦ absurd (ground (arith, parse_ipv4-none ip e))
      | inr (a, e) ↦ (a, e, inl (ground (arith, parse_ipv4-some ip a e)))
    ]
  ]

  -- A valid answer is given to a CIDR block of an address only: a text with one slash, an address in
  -- front of it that `inet_pton` takes (address zero as 0.0.0.0 alone), and digits for a number up to
  -- 32 behind it. The pair of system functions does what POSIX says.
  pub calculate_valid :
      IsInet inet
      → (cidr : Bytes) → (calculate inet cidr).valid ≡ true
      → (ip : Bytes) × (p : ℕ) × (a : ℕ) × IsBlock cidr ip p a
  unfolding calculate
  calculate_valid laws cidr h = elim (Option-cases (parse_cidr cidr)) [
    | inl e ↦ absurd (unfold calculate_parsed in cc (rw e at h))
    | inr ((ip, p), e) ↦
        let (a, address, spelling) = parsed_valid laws cidr ip p (rw e at h) in
        let form = IsCidr-parse_cidr cidr ip p e in
        (ip, p, a, record { form = form; address = address; spelling = spelling })
  ]
