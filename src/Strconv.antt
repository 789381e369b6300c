-- ===== src/Strconv.antt =====
-- The number syntax of strconv that the handlers use.
use Prim.Native.Char.{code}
use Prim.Native.String
use oplet.Prelude.{
  ℕ, zero, suc, nat_eq, true, false, ◌/◌, ◌%◌, ◌+◌, ◌-◌, ◌*◌, ◌^◌, String, ◌&&◌, ◌==◌, Option, none,
  some, leb, ltb, if◌then◌else◌,
}
use oplet.Prelude.Int.{ℤ, pos, negsuc}

unfoldable pub digits : ℕ → String → Option ℕ
digits n String.[] = some n
digits n (String.◌∷◌ c rest) =
    let next = digits (n * 10 + (code c - 48)) rest in
    if leb b'0' (code c) && leb (code c) b'9' then next else none

abbrev in_range : ℕ → Option ℕ → Option ℕ
in_range bits none = none
in_range bits (some n) = if ltb n (2 ^ bits) then some n else none

-- strconv.ParseUint(s, 10, bits)
unfoldable pub parse_uint : ℕ → String → Option ℕ
unfolding digits
parse_uint bits s = if s == "" then none else in_range bits (digits 0 s)

abbrev digit : ℕ → String
digit n =
    if nat_eq n 0
    then "0"
    else if nat_eq n 1
    then "1"
    else if nat_eq n 2
    then "2"
    else if nat_eq n 3
    then "3"
    else if nat_eq n 4
    then "4"
    else if nat_eq n 5
    then "5"
    else if nat_eq n 6
    then "6"
    else if nat_eq n 7
    then "7"
    else if nat_eq n 8
    then "8"
    else "9"

-- The fuel bounds the digits: a number has no more digits than its successor counts.
abbrev pub format_digits : ℕ → ℕ → String
format_digits zero n = ""
format_digits (suc fuel) n = elim (ltb n 10) [
  | true ↦ digit n
  | false ↦ String.◌++◌ (format_digits fuel (n / 10)) (digit (n % 10))
]

-- fmt.Sprintf("%d", n) of a uint
unfoldable pub format_uint : ℕ → String
format_uint n = format_digits (suc n) n

-- fmt.Sprintf("%d", i) of an int
abbrev pub format_int : ℤ → String
format_int (pos n) = format_uint n
format_int (negsuc n) = String.◌++◌ "-" (format_uint (suc n))

abbrev negated : ℕ → ℤ
negated zero = pos 0
negated (suc n) = negsuc n

abbrev signed : String → Option ℕ → Option ℤ
signed s none = none
signed s (some n) = if s == "" then none else if ltb n (2 ^ 63) then some (pos n) else none

abbrev minus : String → Option ℕ → Option ℤ
minus s none = none
minus s (some n) = if s == "" then none else if leb n (2 ^ 63) then some (negated n) else none

-- after the first character
abbrev atoi_from : ℕ → String → String → Option ℤ
atoi_from first rest s =
    if nat_eq first b'-'
    then minus rest (digits 0 rest)
    else if nat_eq first b'+'
    then signed rest (digits 0 rest)
    else signed s (digits 0 s)

-- strconv.Atoi, `none` for an error
unfoldable pub atoi : String → Option ℤ
unfolding digits
atoi String.[] = none
atoi (String.◌∷◌ c rest) = atoi_from (code c) rest (String.◌∷◌ c rest)
