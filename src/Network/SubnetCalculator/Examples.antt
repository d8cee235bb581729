-- ===== src/Network/SubnetCalculator/Examples.antt =====
-- Tests of the model of src/network/subnet_calculator.cpp, and its theorems at concrete inputs.
use slipnet.Prelude.{ℕ, ◌≡◌, refl, ap, inl, some, none, Bytes, codes, eq_bytes, arith}
use slipnet.Prelude.Decimal.{stoull}
use slipnet.Network.Inet.Dotted.{dotted, dotted-IsInet, read_address}
use slipnet.Network.SubnetCalculator.{
  Words, subnet_words, prefix_mask, parse_cidr, parse_at, calculate, classify_address,
}
use slipnet.Network.SubnetCalculator.Answers.{IsBlock, answer, calculate-IsBlock, calculate_valid}
use slipnet.Network.SubnetCalculator.Parsing.{IsCidr-parse_cidr}
use slipnet.Network.SubnetCalculator.Classes.{class_of, classify_address-class_of}
use slipnet.Network.SubnetCalculator.Ranges.{IsSubnet}

abbrev pub cidr : Bytes
cidr = codes "192.168.10.77/26"

abbrev pub ip : Bytes
ip = codes "192.168.10.77"

words : subnet_words 0xc0a8_0a4d 26 ≡ record {
  mask = 0xffff_ffc0;
  network = 0xc0a8_0a40;
  broadcast = 0xc0a8_0a7f;
  total = 64;
  first = 0xc0a8_0a41;
  last = 0xc0a8_0a7e;
  usable = 62;
}
unfolding subnet_words prefix_mask
words = refl

parse_form : parse_cidr cidr ≡ some (ip, 26)
unfolding parse_cidr parse_at stoull eq_bytes
parse_form = refl

rejected :
    (parse_cidr (codes "10.0.0.0") ≡ none)
    × (parse_cidr (codes "/8") ≡ none)
    × (parse_cidr (codes "10.0.0.0/") ≡ none)
    × (parse_cidr (codes "10.0.0.0/8/8") ≡ none)
    × (parse_cidr (codes "10.0.0.0/+8") ≡ none)
    × (parse_cidr (codes "10.0.0.0/33") ≡ none)
unfolding parse_cidr parse_at stoull eq_bytes
rejected = (refl, refl, refl, refl, refl, refl)

pub cidr-IsBlock : IsBlock dotted cidr ip 26 0xc0a8_0a4d
cidr-IsBlock = record {
  form = IsCidr-parse_cidr cidr ip 26 parse_form;
  address = read_address;
  spelling = inl (omega arith);
}

calculate-IsBlock_example :
    (w : Words) × IsSubnet 0xc0a8_0a4d 26 w
    × (calculate dotted cidr ≡ answer dotted cidr 0xc0a8_0a4d 26 w)
calculate-IsBlock_example =
    calculate-IsBlock dotted dotted-IsInet cidr ip 26 0xc0a8_0a4d cidr-IsBlock

calculate_valid_example : (i : Bytes) × (p : ℕ) × (a : ℕ) × IsBlock dotted cidr i p a
calculate_valid_example =
    calculate_valid dotted dotted-IsInet cidr
      (let (w, s, e) = calculate-IsBlock_example in ap (λ r. r.valid) e)

classify_address-class_of_example : classify_address 0xac1f_0001 ≡ class_of 0xac1f_0001
classify_address-class_of_example = classify_address-class_of 0xac1f_0001 (omega arith)
