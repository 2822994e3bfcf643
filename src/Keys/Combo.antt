-- ===== src/Keys/Combo.antt =====
-- crates/openlogi-core/src/binding/key_combo.rs: keyboard shortcuts and their text.
pub mod Canonical
mod Runs
use logi_battery.Base.{
  ℕ, zero, suc, ◌+◌, ◌-◌, ◌/◌, ◌%◌, List, [], ◌∷◌, ◌++◌, Option, none, some, Bool, true, false, not,
  ◌&&◌, ◌||◌, ltb, leb, ◌==◌, if◌then◌else◌, bit_and, bit_or, is_some,
}
use logi_battery.Keys.Text.{
  codes, same_text, trim, to_ascii_lowercase, split, join, parse_u8, decimal,
}

abbrev pub mod_command : ℕ
mod_command = 1

abbrev pub mod_shift : ℕ
mod_shift = 2

abbrev pub mod_control : ℕ
mod_control = 4

abbrev pub mod_option : ℕ
mod_option = 8

abbrev between : ℕ → ℕ → ℕ → Bool
between lo hi c = leb lo c && leb c hi

-- `validate_keyboard_usage`
pub is_usage : ℕ → Bool
is_usage v =
    between 0x04 0x31 v
    || between 0x33 0x38 v
    || between 0x3a 0x45 v
    || between 0x4a 0x52 v
    || between 0x68 0x6f v

-- A name that stands for one code.
abbrev Names : Type 0
Names = List (ℕ × List ℕ)

name_of : Names → List ℕ → ℕ → List ℕ
name_of [] other code' = other
name_of ((c, n) ∷ ns) other code' = if c == code' then n else name_of ns other code'

abbrev symbol_names : Names
symbol_names =
    (0x27, codes "0")
    ∷ (0x28, codes "Enter")
    ∷ (0x29, codes "Escape")
    ∷ (0x2a, codes "Backspace")
    ∷ (0x2b, codes "Tab")
    ∷ (0x2c, codes "Space")
    ∷ (0x2d, codes "-")
    ∷ (0x2e, codes "=")
    ∷ (0x2f, codes "[")
    ∷ (0x30, codes "]")
    ∷ (0x31, 92 ∷ [])
    ∷ (0x33, codes ";")
    ∷ (0x34, codes "'")
    ∷ (0x35, codes "`")
    ∷ (0x36, codes ",")
    ∷ (0x37, codes ".")
    ∷ (0x38, codes "/")
    ∷ []

abbrev place_names : Names
place_names =
    (0x4a, codes "Home")
    ∷ (0x4b, codes "PageUp")
    ∷ (0x4c, codes "Delete")
    ∷ (0x4d, codes "End")
    ∷ (0x4e, codes "PageDown")
    ∷ (0x4f, codes "Right")
    ∷ (0x50, codes "Left")
    ∷ (0x51, codes "Down")
    ∷ (0x52, codes "Up")
    ∷ []

abbrev hex_digit : ℕ → ℕ
hex_digit n = if ltb n 10 then b'0' + n else b'A' + (n - 10)

-- `KeyboardUsage::label`
pub label : ℕ → List ℕ
unfolding name_of decimal
label v =
    if between 0x04 0x1d v
    then (b'A' + (v - 0x04)) ∷ []
    else if between 0x1e 0x26 v
    then (b'1' + (v - 0x1e)) ∷ []
    else if between 0x3a 0x45 v
    then b'F' ∷ decimal (v - 0x3a + 1)
    else if between 0x68 0x6f v
    then b'F' ∷ decimal (v - 0x68 + 13)
    else name_of (symbol_names ++ place_names)
        (codes "Usage 0x" ++ (hex_digit (v / 16) ∷ hex_digit (v % 16) ∷ [])) v

pub record KeyCombo : Type 0 where
  pub modifiers : ℕ
  pub key : ℕ

pub data KeyComboParseError : Type 0 where
  empty missing_key multiple_keys : KeyComboParseError
  unknown_token : List ℕ → KeyComboParseError
  invalid_modifiers : ℕ → KeyComboParseError

pub data Parsed {ℓ} (A : Type ℓ) : Type ℓ where
  ok : A → Parsed A
  err : KeyComboParseError → Parsed A

abbrev has : ℕ → ℕ → Bool
has modifier modifiers = not (bit_and modifiers modifier == 0)

pub has_command : KeyCombo → Bool
has_command self = has mod_command self.modifiers

pub has_shift : KeyCombo → Bool
has_shift self = has mod_shift self.modifiers

pub has_control : KeyCombo → Bool
has_control self = has mod_control self.modifiers

pub has_option : KeyCombo → Bool
has_option self = has mod_option self.modifiers

abbrev part : Bool → List ℕ → List (List ℕ) → List (List ℕ)
part true text parts = text ∷ parts
part false text parts = parts

pub rendered_label : KeyCombo → List ℕ
unfolding has_command has_shift has_control has_option label join
rendered_label self = join (codes "+") (
    part (has_command self) (codes "Cmd") (
      part (has_control self) (codes "Ctrl") (
        part (has_option self) (codes "Alt")
          (part (has_shift self) (codes "Shift") (label self.key ∷ [])))))

-- `TryFrom<KeyComboWire>`
pub try_from_wire : ℕ → ℕ → Parsed KeyCombo
try_from_wire modifiers key =
    if not (modifiers / 16 == 0)
    then err (invalid_modifiers modifiers)
    else ok (record { modifiers = modifiers; key = key })

-- One of the texts.
any_of : List (List ℕ) → List ℕ → Bool
unfolding same_text
any_of [] text = false
any_of (t ∷ ts) text = same_text t text || any_of ts text

pub parse_modifier : List ℕ → Option ℕ
parse_modifier token =
    let lower = to_ascii_lowercase token in
    if any_of (codes "cmd" ∷ codes "command" ∷ codes "meta" ∷ codes "win" ∷ []) lower
    then some mod_command
    else if any_of (codes "shift" ∷ []) lower
    then some mod_shift
    else if any_of (codes "ctrl" ∷ codes "control" ∷ []) lower
    then some mod_control
    else if any_of (codes "alt" ∷ codes "option" ∷ []) lower
    then some mod_option
    else none

-- The code of a text that a table has.
code_of : Names → List ℕ → Option ℕ
unfolding same_text
code_of [] text = none
code_of ((c, n) ∷ ns) text = if same_text n text then some c else code_of ns text

abbrev key_names : Names
key_names =
    (0x28, codes "enter")
    ∷ (0x28, codes "return")
    ∷ (0x29, codes "escape")
    ∷ (0x29, codes "esc")
    ∷ (0x2a, codes "backspace")
    ∷ (0x2b, codes "tab")
    ∷ (0x2c, codes "space")
    ∷ (0x4a, codes "home")
    ∷ (0x4b, codes "pageup")
    ∷ (0x4b, codes "page-up")
    ∷ (0x4c, codes "delete")
    ∷ (0x4d, codes "end")
    ∷ (0x4e, codes "pagedown")
    ∷ (0x4e, codes "page-down")
    ∷ (0x4f, codes "right")
    ∷ (0x50, codes "left")
    ∷ (0x51, codes "down")
    ∷ (0x52, codes "up")
    ∷ []

abbrev key_symbols : Names
key_symbols =
    (0x27, codes "0")
    ∷ (0x2d, codes "-")
    ∷ (0x2e, codes "=")
    ∷ (0x2f, codes "[")
    ∷ (0x30, codes "]")
    ∷ (0x31, 92 ∷ [])
    ∷ (0x33, codes ";")
    ∷ (0x34, codes "'")
    ∷ (0x35, codes "`")
    ∷ (0x36, codes ",")
    ∷ (0x37, codes ".")
    ∷ (0x38, codes "/")
    ∷ []

-- The usage of a text of one byte.
of_character : ℕ → Option ℕ
unfolding code_of
of_character c =
    if between b'a' b'z' c
    then some (0x04 + (c - b'a'))
    else if between b'1' b'9' c
    then some (0x1e + (c - b'1'))
    else code_of key_symbols (c ∷ [])

-- The usage of a function key.
of_function : ℕ → Option ℕ
of_function number =
    if between 1 12 number
    then some (0x3a + number - 1)
    else if between 13 20 number
    then some (0x68 + number - 13)
    else none

-- `strip_prefix('f')`, and the number behind it.
function_number : List ℕ → Option ℕ
unfolding parse_u8
function_number [] = none
function_number (c ∷ cs) = if c == b'f' then parse_u8 cs else none

abbrev of_longer : Option ℕ → List ℕ → Option ℕ
of_longer (some number) lowercase = of_function number
of_longer none lowercase = code_of key_names lowercase

pub usage_of : List ℕ → Option ℕ
unfolding of_character of_function function_number code_of
usage_of (c ∷ []) =
    if ltb c 128 then of_character c else of_longer (function_number (c ∷ [])) (c ∷ [])
usage_of [] = of_longer (function_number []) []
usage_of (c ∷ d ∷ cs) = of_longer (function_number (c ∷ d ∷ cs)) (c ∷ d ∷ cs)

-- `KeyboardUsage::try_from`, on what the text gave.
pub checked : List ℕ → Option ℕ → Parsed ℕ
unfolding is_usage
checked token none = err (unknown_token token)
checked token (some usage) = if is_usage usage then ok usage else err (unknown_token token)

pub parse_key : List ℕ → Parsed ℕ
unfolding usage_of checked to_ascii_lowercase
parse_key token = checked token (usage_of (to_ascii_lowercase token))

abbrev pub is_nil : List ℕ → Bool
is_nil [] = true
is_nil (c ∷ cs) = false

abbrev pub with_key : Parsed ℕ → (ℕ → Parsed KeyCombo) → Parsed KeyCombo
with_key (err e) rest = err e
with_key (ok k) rest = rest k

-- The end of the loop.
abbrev pub finished : ℕ → Option ℕ → Parsed KeyCombo
finished modifiers none = err missing_key
finished modifiers (some k) = ok (record { modifiers = modifiers; key = k })

-- What a token does, by its modifier, to the rest of the loop.
abbrev pub with_token :
    Option ℕ → List ℕ → ℕ → Option ℕ → (ℕ → Option ℕ → Parsed KeyCombo) → Parsed KeyCombo
with_token (some modifier) token modifiers key rest = rest (bit_or modifiers modifier) key
with_token none token modifiers (some k) rest = err multiple_keys
with_token none token modifiers none rest =
    with_key (parse_key token) (λ k. rest modifiers (some k))

-- The loop over the tokens.
pub tokens : ℕ → Option ℕ → List (List ℕ) → Parsed KeyCombo
unfolding parse_modifier any_of to_ascii_lowercase parse_key trim
tokens modifiers key [] = finished modifiers key
tokens modifiers key (raw ∷ rest) =
    let token = trim raw in
    if is_nil token
    then err (unknown_token raw)
    else with_token (parse_modifier token) token modifiers key (λ m k. tokens m k rest)

pub from_str : List ℕ → Parsed KeyCombo
unfolding tokens trim split
from_str input =
    let text = trim input in if is_nil text then err empty else tokens 0 none (split b'+' text)
