-- ===== src/Cli/CommandParser/Tokens.antt =====
-- What `CommandParser::tokenize` of src/cli/command_parser.cpp returns.
use mathlib.Core.List.{append_assoc}
use slipnet.Prelude.{
  ℕ, ◌≡◌, refl, ◌≢◌, inl, inr, true, false, List, [], ◌∷◌, ◌++◌, Bool, not, ◌&&◌, arith,
  if◌then◌else◌, Bool-cases, Bytes, is_space, All, All-append,
}
use slipnet.Cli.CommandParser.{push_token, extract, tokenize}

abbrev pub IsSpaceless : Bytes → Type 0
IsSpaceless s = All (λ c. is_space c ≡ false) s

abbrev pub IsToken : Bytes → Type 0
IsToken t = (t ≢ []) × IsSpaceless t

abbrev pub has_no_space : Bytes → Bool
has_no_space [] = true
has_no_space (c ∷ s) = not (is_space c) && has_no_space s

pub IsSpaceless-by_test : (s : Bytes) → has_no_space s ≡ true → IsSpaceless s
IsSpaceless-by_test [] h = tt
IsSpaceless-by_test (c ∷ s) h = (ground arith, IsSpaceless-by_test s (ground arith))

abbrev pub remove_space : Bytes → Bytes
remove_space [] = []
remove_space (c ∷ s) = if is_space c then remove_space s else c ∷ remove_space s

abbrev pub concat : List Bytes → Bytes
concat [] = []
concat (t ∷ ts) = t ++ concat ts

push_token-All :
    (t : Bytes) (ts : List Bytes) → IsSpaceless t → All IsToken ts → All IsToken (push_token t ts)
push_token-All [] ts h k = k
push_token-All (c ∷ s) ts h k = ((λ e. cc, h), k)

push_token-concat : (t : Bytes) (ts : List Bytes) → concat (push_token t ts) ≡ t ++ concat ts
push_token-concat [] ts = refl
push_token-concat (c ∷ s) ts = refl

pub extract_space :
    (token : Bytes) (c : ℕ) (s : Bytes)
    → is_space c ≡ true
    → extract token (c ∷ s) ≡ push_token token (extract [] s)
unfolding extract
extract_space token c s e = rw (e, extract)

pub extract_other :
    (token : Bytes) (c : ℕ) (s : Bytes)
    → is_space c ≡ false
    → extract token (c ∷ s) ≡ extract (token ++ c ∷ []) s
unfolding extract
extract_other token c s e = rw (e, extract)

extract-All : (token s : Bytes) → IsSpaceless token → All IsToken (extract token s)
extract-All token [] h = unfold extract in push_token-All token [] h tt
extract-All token (c ∷ s) h = elim (Bool-cases (is_space c)) [
  | inl e ↦
      rw (extract_space token c s e) (push_token-All token (extract [] s) h (extract-All [] s tt))
  | inr e ↦
      rw (extract_other token c s e)
        (extract-All (token ++ c ∷ []) s (All-append (λ c. is_space c ≡ false) token _ h (e, tt)))
]

extract-concat : (token s : Bytes) → concat (extract token s) ≡ token ++ remove_space s
extract-concat token [] = unfold extract in push_token-concat token []
extract-concat token (c ∷ s) = elim (Bool-cases (is_space c)) [
  | inl e ↦
      rw (extract_space token c s e, e, push_token-concat token (extract [] s), extract-concat [] s)
  | inr e ↦
      rw (extract_other token c s e, e, extract-concat (token ++ c ∷ []) s, append_assoc token)
]

-- Tokens are not empty and have no whitespace, and together they are the input without its
-- whitespace: nothing is lost, added or reordered.
pub tokenize_tokens :
    (input : Bytes) → All IsToken (tokenize input) × (concat (tokenize input) ≡ remove_space input)
unfolding tokenize
tokenize_tokens input = (extract-All [] input tt, extract-concat [] input)
