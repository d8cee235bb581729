-- ===== src/Network/Inet/Dotted.antt =====
-- A pair of functions that meets what is assumed of the system's: dotted quads, with each octet in
-- canonical decimal.
use slipnet.Prelude.{
  ℕ, suc, ◌+◌, ◌*◌, ◌/◌, ◌%◌, ◌^◌, ◌<◌, ◌≡◌, refl, ap, ◌&&◌, Option, none, some, [], ◌∷◌, ◌++◌, leb,
  if◌then◌else◌, Bytes, codes, eq_bytes, eq_bytes_refl, All, find_char, take, drop, arith,
}
use slipnet.Prelude.Options.{◌>>=◌, bind_inv}
use slipnet.Prelude.Decimal.{to_string, stoull}
use slipnet.Prelude.Decimal.RoundTrip.{IsDigit, to_string-IsDigit, stoull-to_string}
use slipnet.Prelude.Text.Find.{Lacks, find_char_here, take-append, drop_behind}
use slipnet.Network.Inet.{Inet, IsInet}

canonical : Bytes → Option ℕ → Option ℕ
canonical s none = none
canonical s (some v) = if leb v 255 && eq_bytes (to_string v) s then some v else none

octet : Bytes → Option ℕ
unfolding canonical
octet s = canonical s (stoull s)

cut_at : Bytes → Option ℕ → Option (Bytes × Bytes)
cut_at s none = none
cut_at s (some i) = some (take i s, drop (suc i) s)

-- The text in front of the first dot, and the text behind it.
cut_dot : Bytes → Option (Bytes × Bytes)
unfolding cut_at
cut_dot s = cut_at s (find_char b'.' s)

pton_dotted : Bytes → Option ℕ
unfolding octet cut_dot
pton_dotted s = do
  p ← cut_dot s
  q ← cut_dot p.1
  r ← cut_dot q.1
  x ← octet p.0
  y ← octet q.0
  z ← octet r.0
  w ← octet r.1
  some (x * 2 ^ 24 + y * 2 ^ 16 + z * 2 ^ 8 + w)

ntop_dotted : ℕ → Bytes
ntop_dotted v =
    to_string (v / 2 ^ 24)
    ++ (b'.'
        ∷ (to_string (v / 2 ^ 16 % 256)
            ++ (b'.' ∷ (to_string (v / 2 ^ 8 % 256) ++ (b'.' ∷ to_string (v % 256))))))

abbrev pub dotted : Inet
unfolding pton_dotted ntop_dotted
dotted = record { pton = pton_dotted; ntop = ntop_dotted }

octet-to_string : (v : ℕ) → v < 256 → octet (to_string v) ≡ some v
unfolding octet
octet-to_string v h =
    rw (stoull-to_string v (omega arith)) (ground (arith, eq_bytes_refl (to_string v)))

digits_lack_dot : (s : Bytes) → All IsDigit s → Lacks b'.' s
digits_lack_dot [] h = tt
digits_lack_dot (c ∷ s) h = (ground arith, digits_lack_dot s h.1)

cut_dot_digits : (s rest : Bytes) → All IsDigit s → cut_dot (s ++ b'.' ∷ rest) ≡ some (s, rest)
unfolding cut_dot
cut_dot_digits s rest h = rw (
  find_char_here b'.' s rest (digits_lack_dot s h),
  cut_at,
  take-append s (b'.' ∷ rest),
  drop_behind s b'.' rest,
)

cut_dot_number :
    (n : ℕ) (rest : Bytes) → cut_dot (to_string n ++ b'.' ∷ rest) ≡ some (to_string n, rest)
cut_dot_number n rest = cut_dot_digits (to_string n) rest (to_string-IsDigit n)

canonical_bound : (s : Bytes) (o : Option ℕ) (v : ℕ) → canonical s o ≡ some v → v < 256
unfolding canonical
canonical_bound s none v h = cc
canonical_bound s (some u) v h = ground arith

octet_bound : (s : Bytes) (v : ℕ) → octet s ≡ some v → v < 256
unfolding octet
octet_bound s v h = canonical_bound s (stoull s) v h

pton_dotted_word : (s : Bytes) (a : ℕ) → pton_dotted s ≡ some a → a < 2 ^ 32
unfolding pton_dotted
pton_dotted_word s a h =
    let (p, hp, h1) = bind_inv (cut_dot s) _ h in
    let (q, hq, h2) = bind_inv (cut_dot p.1) _ h1 in
    let (r, hr, h3) = bind_inv (cut_dot q.1) _ h2 in
    let (x, hx, h4) = bind_inv (octet p.0) _ h3 in
    let (y, hy, h5) = bind_inv (octet q.0) _ h4 in
    let (z, hz, h6) = bind_inv (octet r.0) _ h5 in
    let (w, hw, h7) = bind_inv (octet r.1) _ h6 in
    let value : x * 2 ^ 24 + y * 2 ^ 16 + z * 2 ^ 8 + w ≡ a = ground arith in
    omega (
      arith,
      octet_bound p.0 x hx,
      octet_bound q.0 y hy,
      octet_bound r.0 z hz,
      octet_bound r.1 w hw,
    )

pton_dotted-ntop_dotted : (a : ℕ) → a < 2 ^ 32 → pton_dotted (ntop_dotted a) ≡ some a
unfolding ntop_dotted pton_dotted
pton_dotted-ntop_dotted a h =
    rw
      (
        cut_dot_number,
        cut_dot_number,
        cut_dot_number,
        octet-to_string (a / 2 ^ 24) (omega arith),
        octet-to_string (a / 2 ^ 16 % 256) (omega arith),
        octet-to_string (a / 2 ^ 8 % 256) (omega arith),
        octet-to_string (a % 256) (omega arith),
      )
      (ap some (omega arith))

pub dotted-IsInet : IsInet dotted
unfolding pton_dotted ntop_dotted
dotted-IsInet = record {
  pton_word = pton_dotted_word;
  pton-ntop = pton_dotted-ntop_dotted;
  pton_zero = unfold stoull to_string eq_bytes in refl;
}

pub read_address : dotted.pton (codes "192.168.10.77") ≡ some 0xc0a8_0a4d
unfolding pton_dotted dotted
read_address = unfold stoull to_string eq_bytes in refl
