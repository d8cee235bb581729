-- ===== src/Host/HostDiscovery/Addresses.antt =====
-- Dotted addresses in src/host/host_discovery.cpp: what `ipv4ToString` prints, `parseIPv4` reads.
use slipnet.Prelude.{
  ℕ, ◌+◌, ◌*◌, ◌/◌, ◌%◌, ◌^◌, ◌<◌, ◌≡◌, refl, ap, ◌∙◌, ◌≢◌, false, some, List, [], ◌∷◌, ◌++◌, ltb,
  ◌==◌, Bytes, is_empty, All-append, arith,
}
use slipnet.Prelude.Text.Find.{Lacks}
use slipnet.Prelude.Text.Split.{split_on, split_on_part, split_on_last}
use slipnet.Prelude.Decimal.{to_string}
use slipnet.Prelude.Decimal.RoundTrip.{to_string-IsDigit}
use slipnet.Prelude.Decimal.Whole.{stoi_whole-to_string, Lacks-IsDigit, to_string-ne-nil}
use slipnet.Host.HostDiscovery.{checked_octet, parse_octets, parse_ipv4, ipv4_to_string}

to_string-Lacks_dot : (n : ℕ) → Lacks b'.' (to_string n)
to_string-Lacks_dot n = Lacks-IsDigit b'.' (to_string n) refl (to_string-IsDigit n)

split_number :
    (n : ℕ) (rest : Bytes)
    → split_on b'.' [] (to_string n ++ b'.' ∷ rest) ≡ to_string n ∷ split_on b'.' [] rest
split_number n rest = split_on_part b'.' [] (to_string n) rest (to_string-Lacks_dot n)

split_last_number : (n : ℕ) → split_on b'.' [] (to_string n) ≡ to_string n ∷ []
split_last_number n =
    split_on_last b'.' [] (to_string n) (to_string n) (to_string-Lacks_dot n) refl
      (to_string-ne-nil n)

is_empty_ne : (s : Bytes) → s ≢ [] → is_empty s ≡ false
is_empty_ne [] h = absurd (h refl)
is_empty_ne (c ∷ s) h = refl

-- One round of the loop, at a number of a byte.
parse_octets-number :
    (result count n : ℕ) (parts : List Bytes)
    → n < 2 ^ 8
    → parse_octets result count (to_string n ∷ parts)
      ≡ parse_octets (result * 2 ^ 8 % 2 ^ 32 + n) (count + 1) parts
unfolding parse_octets
parse_octets-number result count n parts h =
    let small : ltb 255 n ≡ false = ground arith in
    rw
      (
        is_empty_ne (to_string n) (to_string-ne-nil n),
        stoi_whole-to_string n (omega arith),
        checked_octet,
        small,
      )
      refl

parse_octets-four :
    (x y z w : ℕ)
    → x < 2 ^ 8
    → y < 2 ^ 8
    → z < 2 ^ 8
    → w < 2 ^ 8
    → parse_octets 0 0 (to_string x ∷ (to_string y ∷ (to_string z ∷ (to_string w ∷ []))))
      ≡ some (x * 2 ^ 24 + y * 2 ^ 16 + z * 2 ^ 8 + w)
parse_octets-four x y z w hx hy hz hw =
    parse_octets-number _ _ x _ hx
    ∙ parse_octets-number _ _ y _ hy
    ∙ parse_octets-number _ _ z _ hz
    ∙ parse_octets-number _ _ w _ hw
    ∙ (unfold parse_octets in ap some (omega arith))

pub parse_ipv4-ipv4_to_string : (a : ℕ) → a < 2 ^ 32 → parse_ipv4 (ipv4_to_string a) ≡ some a
unfolding parse_ipv4 ipv4_to_string
parse_ipv4-ipv4_to_string a h =
    let x = a / 2 ^ 24 % 2 ^ 8 in
    let y = a / 2 ^ 16 % 2 ^ 8 in
    let z = a / 2 ^ 8 % 2 ^ 8 in
    let w = a % 2 ^ 8 in
    rw (split_number, split_number, split_number, split_last_number)
      (parse_octets-four x y z w (omega arith) (omega arith) (omega arith) (omega arith)
        ∙ ap some (omega arith))

Lacks-append : (c : ℕ) (s t : Bytes) → Lacks c s → Lacks c t → Lacks c (s ++ t)
Lacks-append c s t h k = All-append (λ x. (x == c) ≡ false) s t h k

-- There is no slash in the text of an address.
pub ipv4_to_string-Lacks : (a : ℕ) → Lacks b'/' (ipv4_to_string a)
unfolding ipv4_to_string
ipv4_to_string-Lacks a =
    let digits = λ (n : ℕ). Lacks-IsDigit b'/' (to_string n) refl (to_string-IsDigit n) in
    let group = λ (n : ℕ) (rest : Bytes) (h : Lacks b'/' rest).
      Lacks-append b'/' (to_string n) (b'.' ∷ rest) (digits n) (refl, h) in
    group _ _ (group _ _ (group _ _ (digits _)))
