-- ===== src/Cli/CommandParser/Examples.antt =====
-- Tests of the model of src/cli/command_parser.cpp, and its theorems at concrete inputs.
use slipnet.Prelude.{
  ◌≡◌, refl, ◌↔◌, true, [], ◌∷◌, List, Bytes, codes, eq_bytes, is_space, All, Has,
}
use slipnet.Cli.CommandParser.{
  port_scan, unknown, help, tokenize, parse, normalize, identify_command, requires_argument,
}
use slipnet.Cli.CommandParser.Spellings.{spellings}
use slipnet.Cli.CommandParser.Names.{Spells, identify_command-spellings}
use slipnet.Cli.CommandParser.RoundTrip.{command_line, parse-command_line}
use slipnet.Cli.CommandParser.Tokens.{
  IsSpaceless-by_test, IsToken, remove_space, concat, tokenize_tokens,
}

abbrev target : List Bytes
target = codes "192.168.1.1" ∷ codes "1-1024" ∷ []

parse_typed : parse (codes "  Port|:SCAN\t192.168.1.1 1-1024 ") ≡ record {
  type = port_scan;
  raw = codes "  Port|:SCAN\t192.168.1.1 1-1024 ";
  arguments = target;
}
unfolding parse normalize identify_command is_space eq_bytes
parse_typed = refl

parse_nothing : (parse (codes " ")).type ≡ unknown
unfolding parse is_space
parse_nothing = refl

question_mark : identify_command (codes "?") ≡ help
unfolding identify_command is_space eq_bytes
question_mark = refl

needs_target : requires_argument port_scan ≡ true
unfolding requires_argument
needs_target = refl

target-IsToken : All IsToken target
unfolding is_space
target-IsToken =
    let address = IsSpaceless-by_test (codes "192.168.1.1") refl in
    let ports = IsSpaceless-by_test (codes "1-1024") refl in
    (((λ e. cc), address), (((λ e. cc), ports), tt))

parse-command_line_example :
    parse (command_line port_scan target)
    ≡ record { type = port_scan; raw = command_line port_scan target; arguments = target }
parse-command_line_example = parse-command_line port_scan target target-IsToken

tokenize_tokens_example :
    All IsToken (tokenize (codes " a  bc"))
    × (concat (tokenize (codes " a  bc")) ≡ remove_space (codes " a  bc"))
tokenize_tokens_example = tokenize_tokens (codes " a  bc")

identify_command-spellings_example :
    (identify_command (codes " HELP") ≡ help)
    ↔ Has (λ e. Spells (codes " HELP") e.0 × (help ≡ e.1)) spellings
identify_command-spellings_example = identify_command-spellings (codes " HELP") help (λ e. cc)
