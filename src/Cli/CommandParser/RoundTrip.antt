-- ===== src/Cli/CommandParser/RoundTrip.antt =====
-- A command line printed from its parts is parsed back by `CommandParser::parse` of
-- src/cli/command_parser.cpp.
use mathlib.Core.List.{append-nil, append_assoc}
use slipnet.Prelude.{◌≡◌, refl, ap, ◌∙◌, ◌≢◌, true, List, [], ◌∷◌, ◌++◌, Bytes, is_space, All}
use slipnet.Cli.CommandParser.{CommandType, push_token, extract, parse, command_name, ip_seek}
use slipnet.Cli.CommandParser.Names.{identify_command-name}
use slipnet.Cli.CommandParser.Tokens.{
  IsToken, IsSpaceless, has_no_space, IsSpaceless-by_test, extract_space, extract_other,
}

-- Each token behind one space.
abbrev pub spaced : List Bytes → Bytes
spaced [] = []
spaced (t ∷ ts) = b' ' ∷ (t ++ spaced ts)

-- The command line for a command with its arguments.
abbrev pub command_line : CommandType → List Bytes → Bytes
command_line t arguments = command_name t ++ spaced arguments

extract-IsSpaceless :
    (token t rest : Bytes) → IsSpaceless t → extract token (t ++ rest) ≡ extract (token ++ t) rest
extract-IsSpaceless token [] rest h = rw append-nil
extract-IsSpaceless token (c ∷ t) rest h =
    extract_other token c (t ++ rest) h.0
    ∙ extract-IsSpaceless (token ++ c ∷ []) t rest h.1
    ∙ rw (append_assoc token)

push_token-IsToken : (t : Bytes) (ts : List Bytes) → t ≢ [] → push_token t ts ≡ t ∷ ts
push_token-IsToken [] ts h = absurd (h refl)
push_token-IsToken (c ∷ s) ts h = refl

extract-spaced :
    (token : Bytes) (ts : List Bytes)
    → token ≢ []
    → All IsToken ts
    → extract token (spaced ts) ≡ token ∷ ts
extract-spaced token [] h k = unfold extract in push_token-IsToken token [] h
extract-spaced token (t ∷ ts) h k =
    extract_space token b' ' (t ++ spaced ts) (unfold is_space in refl)
    ∙ ap (push_token token)
        (extract-IsSpaceless [] t (spaced ts) k.0.1 ∙ extract-spaced t ts k.0.0 k.1)
    ∙ push_token-IsToken token (t ∷ ts) h

command_name-has_no_space : (t : CommandType) → has_no_space (command_name t) ≡ true
unfolding command_name is_space
command_name-has_no_space ip_seek = refl
command_name-has_no_space _ = refl

command_name-ne-nil : (t : CommandType) → command_name t ≢ []
unfolding command_name
command_name-ne-nil ip_seek e = cc
command_name-ne-nil _ e = cc

command_name-IsToken : (t : CommandType) → IsToken (command_name t)
command_name-IsToken t =
    (command_name-ne-nil t, IsSpaceless-by_test (command_name t) (command_name-has_no_space t))

-- The line of any command's name and arguments, each behind one space, is parsed as that command
-- with those arguments, where each argument is a token: not empty, and without whitespace.
pub parse-command_line :
    (t : CommandType) (arguments : List Bytes)
    → All IsToken arguments
    → parse (command_line t arguments)
      ≡ record { type = t; raw = command_line t arguments; arguments = arguments }
unfolding parse
parse-command_line t arguments h =
    let name = command_name-IsToken t in
    rw (
      extract-IsSpaceless [] (command_name t) (spaced arguments) name.1,
      extract-spaced (command_name t) arguments name.0 h,
      identify_command-name t,
    )
