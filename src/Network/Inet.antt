-- ===== src/Network/Inet.antt =====
-- The system's `inet_pton` and `inet_ntop` for AF_INET, which the code calls and does not define.
-- Addresses are 32-bit words in host order, so `ntohl` and `htonl` are part of the two functions.
pub mod Dotted
use slipnet.Prelude.{ℕ, ◌<◌, ◌^◌, ◌≡◌, Option, some, Bytes, codes}

pub record Inet : Type 0 where
  -- `none` where `inet_pton` does not return 1.
  pub pton : Bytes → Option ℕ
  -- `inet_ntop` into a buffer of INET_ADDRSTRLEN bytes, which is never too small.
  pub ntop : ℕ → Bytes

-- What POSIX says of the pair: an address has 32 bits, its text is read back, and the
-- text of zeros is the address zero.
pub record IsInet (inet : Inet) : Type 0 where
  pub pton_word : (s : Bytes) (a : ℕ) → inet.pton s ≡ some a → a < 2 ^ 32
  pub pton-ntop : (a : ℕ) → a < 2 ^ 32 → inet.pton (inet.ntop a) ≡ some a
  pub pton_zero : inet.pton (codes "0.0.0.0") ≡ some 0
