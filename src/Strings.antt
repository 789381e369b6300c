-- ===== src/Strings.antt =====
-- The functions of Go's package strings, and the length of a text, that the pages use.
pub mod Order
use Prim.Native.Char.{Char, code}
use Prim.Native.String
use oplet.Prelude.{
  Option, none, some, ℕ, ◌+◌, String, Bool, true, false, ◌&&◌, ◌||◌, ◌==◌, leb, ltb, nat_eq,
  if◌then◌else◌,
}

-- unicode.IsSpace
abbrev is_space : ℕ → Bool
is_space c =
    leb 9 c && leb c 13
    || nat_eq c 32
    || nat_eq c 133
    || nat_eq c 160
    || nat_eq c 5760
    || leb 8192 c && leb c 8202
    || nat_eq c 8232
    || nat_eq c 8233
    || nat_eq c 8239
    || nat_eq c 8287
    || nat_eq c 12288

unfoldable pub trim_left : String → String
trim_left String.[] = ""
trim_left (String.◌∷◌ c s) =
    let rest = trim_left s in if is_space (code c) then rest else String.◌∷◌ c s

abbrev keep : Char → String → String
keep c rest = if is_space (code c) && rest == "" then "" else String.◌∷◌ c rest

unfoldable pub trim_right : String → String
trim_right String.[] = ""
trim_right (String.◌∷◌ c s) = keep c (trim_right s)

-- strings.TrimSpace
unfoldable pub trim_space : String → String
unfolding trim_left trim_right
trim_space s = trim_right (trim_left s)

-- the bytes of a character in UTF-8
abbrev width : ℕ → ℕ
width c = if ltb c 128 then 1 else if ltb c 2048 then 2 else if ltb c 65536 then 3 else 4

-- len(s)
unfoldable pub len : String → ℕ
len String.[] = 0
len (String.◌∷◌ c s) = width (code c) + len s

-- strings.Compare, as the test that the result is not positive. UTF-8 keeps the order of the
-- characters.
unfoldable pub text_le : String → String → Bool
text_le String.[] t = true
text_le (String.◌∷◌ c s) String.[] = false
text_le (String.◌∷◌ c s) (String.◌∷◌ d t) =
    let rest = text_le s t in ltb (code c) (code d) || nat_eq (code c) (code d) && rest

abbrev or_text : String → Option String → String
or_text s none = s
or_text s (some t) = t

-- what follows the last such character, as after strings.LastIndex; `none` if there is none
unfoldable pub after_last : ℕ → String → Option String
after_last mark String.[] = none
after_last mark (String.◌∷◌ c s) =
    let rest = after_last mark s in if nat_eq (code c) mark then some (or_text s rest) else rest

abbrev prefixed : Char → Option String → Option String
prefixed c none = none
prefixed c (some s) = some (String.◌∷◌ c s)

abbrev or_start : Bool → Option String → Option String
or_start here (some s) = some s
or_start true none = some ""
or_start false none = none

-- what precedes the last such character, `none` if there is none
unfoldable pub before_last : ℕ → String → Option String
before_last mark String.[] = none
before_last mark (String.◌∷◌ c s) =
    or_start (nat_eq (code c) mark) (prefixed c (before_last mark s))
