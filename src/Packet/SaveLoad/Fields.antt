-- ===== src/Packet/SaveLoad/Fields.antt =====
-- One line of a capture file: how the reader of src/packet/packet_inspector.cpp takes what the
-- writer of src/packet/packet_capture.cpp puts there.
use mathlib.Core.List.{append-nil, append_assoc}
use slipnet.Prelude.{
  ℕ, suc, ◌≡◌, refl, sym, ap, ◌∙◌, inl, inr, Bool, true, false, ◌==◌, none, some, [], ◌∷◌, ◌++◌,
  if◌then◌else◌, Bool-cases, Bytes, codes, eq_bytes, eq_bytes_iff, is_empty, length, find_char, All,
  All-append, arith,
}
use slipnet.Prelude.Int.{ℤ, pos, negsuc}
use slipnet.Prelude.Decimal.{to_string, int_to_string}
use slipnet.Prelude.Decimal.RoundTrip.{IsDigit, to_string-IsDigit}
use slipnet.Prelude.Text.Find.{Lacks, Lacks-of_none, find_char_here, take-append, drop_behind}
use slipnet.Packet.Capture.{sanitize, field}
use slipnet.Packet.Inspector.{
  Loader, get_lines, step_line, step_lines, split_field, set_field, parse_bool,
}
use native.Mathlib.Numerals.{add-one}

-- The loader after the lines of the text.
unfoldable pub load_from : Loader → Bytes → Loader
load_from l text = step_lines l (get_lines [] text)

get_lines_line :
    (front line rest : Bytes)
    → Lacks b'\n' line
    → get_lines front (line ++ b'\n' ∷ rest) ≡ (front ++ line) ∷ get_lines [] rest
unfolding get_lines
get_lines_line front [] rest h = rw append-nil
get_lines_line front (c ∷ line) rest h =
    rw (h.0, get_lines) (get_lines_line (front ++ c ∷ []) line rest h.1 ∙ rw (append_assoc front))

pub load_line :
    (l : Loader) (line rest : Bytes)
    → Lacks b'\n' line
    → load_from l (line ++ b'\n' ∷ rest) ≡ load_from (step_line l line) rest
unfolding load_from step_lines
load_line l line rest h = rw (get_lines_line [] line rest h)

-- A line with `=` in it is not one of the two that have none.
field_ne_header :
    (key value header : Bytes)
    → Lacks b'=' key
    → find_char b'=' header ≡ none
    → eq_bytes (key ++ b'=' ∷ value) header ≡ false
field_ne_header key value header h k = elim (Bool-cases (eq_bytes (key ++ b'=' ∷ value) header)) [
  | inl e ↦
      let same = (eq_bytes_iff (key ++ b'=' ∷ value) header).0 e in
      absurd (cc (find_char_here b'=' key value h, ap (find_char b'=') same, k))
  | inr e ↦ e
]

is_empty-field : (key value : Bytes) → is_empty (key ++ b'=' ∷ value) ≡ false
is_empty-field [] value = refl
is_empty-field (c ∷ key) value = refl

split_field_here :
    (l : Loader) (key value : Bytes)
    → split_field l (key ++ b'=' ∷ value) (some (length key)) ≡ set_field l key value
unfolding split_field
split_field_here l key value =
    rw (take-append key (b'=' ∷ value), add-one, drop_behind key b'=' value)

step_line-field :
    (l : Loader) (key value : Bytes)
    → Lacks b'=' key
    → step_line l (key ++ b'=' ∷ value) ≡ set_field l key value
unfolding step_line
step_line-field l key value h =
    rw
      (
        is_empty-field key value,
        field_ne_header key value (codes "SLIPNET_CAPTURE_V2") h refl,
        field_ne_header key value (codes "[PACKET]") h refl,
        find_char_here b'=' key value h,
      )
      (split_field_here l key value)

-- A field is stored under its key, if the key has no `=` and neither part has a newline.
pub load_field :
    (l : Loader) (key value rest : Bytes)
    → find_char b'\n' key ≡ none
    → find_char b'=' key ≡ none
    → Lacks b'\n' value
    → load_from l (field key value rest) ≡ load_from (set_field l key value) rest
load_field l key value rest no_line no_sign h =
    let whole =
      All-append (λ x. (x == b'\n') ≡ false) key (b'=' ∷ value) (Lacks-of_none b'\n' key no_line)
        (refl, h) in
    ap (load_from l) (sym (append_assoc key (b'=' ∷ value) (b'\n' ∷ rest)))
    ∙ load_line l (key ++ b'=' ∷ value) rest whole
    ∙ ap (λ m. load_from m rest) (step_line-field l key value (Lacks-of_none b'=' key no_sign))

pub sanitize-Lacks : (s : Bytes) → Lacks b'\n' (sanitize s)
unfolding sanitize
sanitize-Lacks [] = tt
sanitize-Lacks (c ∷ s) = (ground arith, sanitize-Lacks s)

digits-Lacks : (s : Bytes) → All IsDigit s → Lacks b'\n' s
digits-Lacks [] h = tt
digits-Lacks (c ∷ s) h = (ground arith, digits-Lacks s h.1)

pub to_string-Lacks : (n : ℕ) → Lacks b'\n' (to_string n)
to_string-Lacks n = digits-Lacks (to_string n) (to_string-IsDigit n)

pub int_to_string-Lacks : (z : ℤ) → Lacks b'\n' (int_to_string z)
unfolding int_to_string
int_to_string-Lacks (pos n) = to_string-Lacks n
int_to_string-Lacks (negsuc n) = (refl, to_string-Lacks (suc n))

abbrev pub bool_text : Bool → Bytes
bool_text b = if b then codes "true" else codes "false"

pub bool_text-Lacks : (b : Bool) → Lacks b'\n' (bool_text b)
bool_text-Lacks true = Lacks-of_none b'\n' (codes "true") refl
bool_text-Lacks false = Lacks-of_none b'\n' (codes "false") refl

pub parse_bool-bool_text : (b : Bool) → parse_bool (bool_text b) ≡ b
unfolding parse_bool eq_bytes
parse_bool-bool_text true = refl
parse_bool-bool_text false = refl
