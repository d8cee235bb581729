-- ===== src/Cli/CommandParser/Names.antt =====
-- Which spellings `CommandParser::identifyCommand` of src/cli/command_parser.cpp knows.
use mathlib.Core.Path.{subst}
use slipnet.Prelude.{
  ℕ, ◌++◌, map, to_lower, ◌≡◌, refl, sym, ◌∙◌, ap, ◌≢◌, inl, inr, ◌↔◌, Bool, true, false, ◌&&◌,
  arith, List, [], ◌∷◌, Bytes, eq_bytes, All, Has, is_space,
}
use slipnet.Cli.CommandParser.{
  CommandType, ip_seek, unknown, trim, to_lower_text, normalize, identify_command, command_name,
}
use slipnet.Cli.CommandParser.Spellings.{
  spellings, identify-first_match, first_match-Has, Has-first_match, own_match,
}
use slipnet.Cli.CommandParser.Tokens.{IsToken, IsSpaceless, has_no_space, IsSpaceless-by_test}
use slipnet.Cli.CommandParser.Trim.{IsBlank, trim-append, trim_cut}

abbrev are_tokens : List (Bytes × CommandType) → Bool
are_tokens [] = true
are_tokens (([], t) ∷ l) = false
are_tokens ((c ∷ s, t) ∷ l) = has_no_space (c ∷ s) && are_tokens l

IsToken-by_test : (l : List (Bytes × CommandType)) → are_tokens l ≡ true → All (λ e. IsToken e.0) l
IsToken-by_test [] h = tt
IsToken-by_test (([], t) ∷ l) h = cc
IsToken-by_test ((c ∷ s, t) ∷ l) h =
    let spaceless : has_no_space (c ∷ s) ≡ true = ground arith in
    let later : are_tokens l ≡ true = ground arith in
    ((λ e. cc, IsSpaceless-by_test (c ∷ s) spaceless), IsToken-by_test l later)

spellings-IsToken : All (λ e. IsToken e.0) spellings
unfolding is_space
spellings-IsToken = IsToken-by_test spellings refl

-- A command spells a text with letters of either case, and with whitespace around it.
abbrev pub Spells : Bytes → Bytes → Type 0
Spells command s =
    (before : Bytes) × (core : Bytes) × (after : Bytes) × (command ≡ before ++ (core ++ after))
    × IsBlank before
    × IsBlank after
    × (map to_lower core ≡ s)

is_space-to_lower : (c : ℕ) → is_space (to_lower c) ≡ is_space c
unfolding is_space to_lower
is_space-to_lower c = ground arith

IsSpaceless-of_lower : (s : Bytes) → IsSpaceless (map to_lower s) → IsSpaceless s
IsSpaceless-of_lower [] h = tt
IsSpaceless-of_lower (c ∷ s) h = (sym (is_space-to_lower c) ∙ h.0, IsSpaceless-of_lower s h.1)

normalize-Spells : (command : Bytes) → Spells command (normalize command)
unfolding normalize to_lower_text
normalize-Spells command =
    let (before, after, is, b, a) = trim_cut command in
    (before, trim command, after, is, b, a, refl)

Spells-normalize : (command s : Bytes) → IsToken s → Spells command s → normalize command ≡ s
unfolding normalize to_lower_text
Spells-normalize command s h (before, core, after, is, b, a, low) =
    let spaceless : IsSpaceless core = IsSpaceless-of_lower core (rw low h.1) in
    let ne : core ≢ [] = λ e. h.0 (sym low ∙ ap (map to_lower) e) in
    rw (is, trim-append before core after b spaceless ne a) low

Has-map :
    (P Q : Bytes × CommandType → Type 0) (l : List (Bytes × CommandType))
    → All (λ e. P e → Q e) l
    → Has P l
    → Has Q l
Has-map P Q [] f h = h
Has-map P Q (e ∷ l) f (inl h) = inl (f.0 h)
Has-map P Q (e ∷ l) f (inr h) = inr (Has-map P Q l f.1 h)

All-map :
    (P Q : Bytes × CommandType → Type 0) (l : List (Bytes × CommandType))
    → ((e : Bytes × CommandType) → P e → Q e)
    → All P l
    → All Q l
All-map P Q [] f h = tt
All-map P Q (e ∷ l) f h = (f e h.0, All-map P Q l f h.1)

-- A text is identified as a command, other than the unknown one, exactly if it is one of the command's
-- spellings with letters of either case, and with whitespace around it.
pub identify_command-spellings :
    (command : Bytes) (t : CommandType)
    → t ≢ unknown
    → (identify_command command ≡ t) ↔ Has (λ e. Spells command e.0 × (t ≡ e.1)) spellings
unfolding identify_command
identify_command-spellings command t ne = (
  λ h.
      Has-map (λ e. (n ≡ e.0) × (t ≡ e.1)) (λ e. Spells command e.0 × (t ≡ e.1)) spellings
        (All-map (λ e. IsToken e.0) (λ e. (n ≡ e.0) × (t ≡ e.1) → Spells command e.0 × (t ≡ e.1))
          spellings (λ e token k. (subst (Spells command) k.0 (normalize-Spells command), k.1))
          spellings-IsToken)
        (first_match-Has n spellings t ne (sym (identify-first_match n) ∙ h)),
  λ h.
      identify-first_match n
      ∙ Has-first_match n spellings t own_match (
          Has-map (λ e. Spells command e.0 × (t ≡ e.1)) (λ e. (n ≡ e.0) × (t ≡ e.1)) spellings
            (All-map (λ e. IsToken e.0)
              (λ e. Spells command e.0 × (t ≡ e.1) → (n ≡ e.0) × (t ≡ e.1)) spellings
              (λ e token k. (Spells-normalize command e.0 token k.0, k.1)) spellings-IsToken)
            h),
)
  where
    n : Bytes
    n = normalize command

-- The name printed for a command is one of its spellings.
pub identify_command-name : (t : CommandType) → identify_command (command_name t) ≡ t
unfolding identify_command command_name normalize is_space eq_bytes
identify_command-name ip_seek = refl
identify_command-name _ = refl
