-- ===== src/Keys/Text.antt =====
-- Texts as lists of code points, with what the code uses of `str`.
use logi_battery.Base.{
  zero, suc, ℕ, ◌+◌, ◌-◌, ◌*◌, ◌/◌, ◌%◌, List, [], ◌∷◌, ◌++◌, Option, none, some, Bool, true, false,
  ◌&&◌, ◌||◌, ltb, leb, ◌==◌, if◌then◌else◌,
}
use Prim.Native.String.{String}
use Prim.Native.Char.{code}

-- The code points of a literal.
abbrev pub codes : String → List ℕ
codes String.[] = []
codes (String.◌∷◌ c s) = code c ∷ codes s

unfoldable pub same_text : List ℕ → List ℕ → Bool
same_text [] [] = true
same_text [] (b ∷ bs) = false
same_text (a ∷ as') [] = false
same_text (a ∷ as') (b ∷ bs) = a == b && same_text as' bs

abbrev within : ℕ → ℕ → ℕ → Bool
within lo hi c = leb lo c && leb c hi

-- `char::is_whitespace`
unfoldable pub is_whitespace : ℕ → Bool
is_whitespace c =
    within 9 13 c
    || c == 32
    || c == 0x85
    || c == 0xa0
    || c == 0x1680
    || within 0x2000 0x200a c
    || c == 0x2028
    || c == 0x2029
    || c == 0x202f
    || c == 0x205f
    || c == 0x3000

unfoldable pub trim_start : List ℕ → List ℕ
unfolding is_whitespace
trim_start [] = []
trim_start (c ∷ cs) = let rest = trim_start cs in if is_whitespace c then rest else c ∷ cs

abbrev keep : ℕ → List ℕ → List ℕ
keep c [] = if is_whitespace c then [] else c ∷ []
keep c (d ∷ ds) = c ∷ d ∷ ds

unfoldable pub trim_end : List ℕ → List ℕ
unfolding is_whitespace
trim_end [] = []
trim_end (c ∷ cs) = keep c (trim_end cs)

unfoldable pub trim : List ℕ → List ℕ
unfolding trim_start trim_end
trim s = trim_start (trim_end s)

unfoldable pub lower : ℕ → ℕ
lower c = if within b'A' b'Z' c then c + 32 else c

unfoldable pub to_ascii_lowercase : List ℕ → List ℕ
unfolding lower
to_ascii_lowercase [] = []
to_ascii_lowercase (c ∷ cs) = lower c ∷ to_ascii_lowercase cs

abbrev first_with : ℕ → List (List ℕ) → List (List ℕ)
first_with c [] = (c ∷ []) ∷ []
first_with c (p ∷ ps) = (c ∷ p) ∷ ps

-- `str::split` at a character.
unfoldable pub split : ℕ → List ℕ → List (List ℕ)
split at [] = [] ∷ []
split at (c ∷ cs) = let rest = split at cs in if c == at then [] ∷ rest else first_with c rest

-- `[T]::join`
unfoldable pub join : List ℕ → List (List ℕ) → List ℕ
join by [] = []
join by (p ∷ []) = p
join by (p ∷ q ∷ ps) = p ++ (by ++ join by (q ∷ ps))

-- The digits of `u8::from_str`, after the number `acc`; `none` is an overflow or another character.
unfoldable pub u8_digits : ℕ → List ℕ → Option ℕ
u8_digits acc [] = some acc
u8_digits acc (c ∷ cs) =
    let next = acc * 10 + (c - b'0') in
    let rest = u8_digits next cs in if within b'0' b'9' c && leb next 255 then rest else none

-- `u8::from_str`
unfoldable pub parse_u8 : List ℕ → Option ℕ
unfolding u8_digits
parse_u8 [] = none
parse_u8 (c ∷ []) = if c == b'+' || c == b'-' then none else u8_digits 0 (c ∷ [])
parse_u8 (c ∷ d ∷ cs) = if c == b'+' then u8_digits 0 (d ∷ cs) else u8_digits 0 (c ∷ d ∷ cs)

-- The decimal digits of a number below 100.
unfoldable pub decimal : ℕ → List ℕ
decimal n = if ltb n 10 then (b'0' + n) ∷ [] else (b'0' + n / 10) ∷ (b'0' + n % 10) ∷ []

-- `str::strip_prefix`
unfoldable pub strip_prefix : List ℕ → List ℕ → Option (List ℕ)
strip_prefix [] s = some s
strip_prefix (p ∷ ps) [] = none
strip_prefix (p ∷ ps) (c ∷ cs) = let rest = strip_prefix ps cs in if p == c then rest else none

abbrev pub push_front : ℕ → Option (List ℕ × List ℕ) → Option (List ℕ × List ℕ)
push_front c none = none
push_front c (some (a, b)) = some (c ∷ a, b)

-- `str::split_once` at a character.
unfoldable pub split_once : ℕ → List ℕ → Option (List ℕ × List ℕ)
split_once at [] = none
split_once at (c ∷ cs) =
    let rest = split_once at cs in if c == at then some ([], cs) else push_front c rest

abbrev pub split_here : Option (List ℕ) → Option (List ℕ × List ℕ)
split_here none = none
split_here (some rest) = some ([], rest)

abbrev pub or_here : ℕ → Option (List ℕ × List ℕ) → Option (List ℕ) → Option (List ℕ × List ℕ)
or_here c (some (a, b)) here = some (c ∷ a, b)
or_here c none here = split_here here

-- `str::rsplit_once` at a text that is not empty.
unfoldable pub rsplit_once : List ℕ → List ℕ → Option (List ℕ × List ℕ)
unfolding strip_prefix
rsplit_once p [] = none
rsplit_once p (c ∷ cs) = or_here c (rsplit_once p cs) (strip_prefix p (c ∷ cs))

abbrev pub parts_of : List ℕ → (List ℕ → List (List ℕ)) → Option (List ℕ × List ℕ) → List (List ℕ)
parts_of s rest none = s ∷ []
parts_of s rest (some (a, b)) = a ∷ rest b

-- `str::splitn` at a character, into at most so many parts.
unfoldable pub splitn : ℕ → ℕ → List ℕ → List (List ℕ)
unfolding split_once
splitn zero at s = []
splitn (suc zero) at s = s ∷ []
splitn (suc (suc n)) at s = parts_of s (splitn (suc n) at) (split_once at s)

-- `u8::is_ascii_hexdigit`
unfoldable pub is_hexdigit : ℕ → Bool
is_hexdigit c = within b'0' b'9' c || within b'A' b'F' c || within b'a' b'f' c

unfoldable pub all_hexdigits : List ℕ → Bool
unfolding is_hexdigit
all_hexdigits [] = true
all_hexdigits (c ∷ cs) = is_hexdigit c && all_hexdigits cs

-- A digit of `{:x}`.
unfoldable pub hex_digit : ℕ → ℕ
hex_digit n = if ltb n 10 then b'0' + n else b'a' + (n - 10)

-- `{:02x}` of a `u8` and `{:04x}` of a `u16`.
unfoldable pub hex2 : ℕ → List ℕ
unfolding hex_digit
hex2 n = hex_digit (n / 16) ∷ hex_digit (n % 16) ∷ []

unfoldable pub hex4 : ℕ → List ℕ
unfolding hex_digit
hex4 n =
    hex_digit (n / 4096)
    ∷ hex_digit (n / 256 % 16)
    ∷ hex_digit (n / 16 % 16)
    ∷ hex_digit (n % 16)
    ∷ []

-- `{}` of a `u8`.
unfoldable pub decimal_u8 : ℕ → List ℕ
unfolding decimal
decimal_u8 n =
    if ltb n 100 then decimal n else (b'0' + n / 100) ∷ (b'0' + n / 10 % 10) ∷ (b'0' + n % 10) ∷ []
