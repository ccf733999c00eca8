-- ===== src/Go/Strconv.antt =====
-- `strconv`: ParseBool, FormatBool, ParseInt(s, 10, 64) and FormatInt(i, 10).
pub mod RoundTrip
use Prim.Native.Char.{Char, code}
use text.Mathlib.Text.{◌==◌ as str_eq}
use investor_cache.Base.{
  ℕ, zero, suc, ◌+◌, ◌-◌, ◌*◌, ◌/◌, ◌%◌, ◌^◌, ◌≡◌, refl, Bool, true, false, ◌||◌, Option, none,
  some, String, ltb, leb, ◌==◌, if◌then◌else◌, ℤ, pos, negsuc, arith,
}
use investor_cache.Go.Errors.{Result, ok, err, num_error}

unfoldable pub format_bool : Bool → String
format_bool true = "true"
format_bool false = "false"

unfoldable pub parse_bool : String → Result Bool
parse_bool s =
    if str_eq s "1"
      || str_eq s "t"
      || str_eq s "T"
      || str_eq s "TRUE"
      || str_eq s "true"
      || str_eq s "True"
    then ok true
    else if str_eq s "0"
        || str_eq s "f"
        || str_eq s "F"
        || str_eq s "FALSE"
        || str_eq s "false"
        || str_eq s "False"
    then ok false
    else err (num_error s)

-- The character of a digit below ten.
pub digit : ℕ → Char
digit d =
    if d == 0
    then "0"
    else if d == 1
    then "1"
    else if d == 2
    then "2"
    else if d == 3
    then "3"
    else if d == 4
    then "4"
    else if d == 5
    then "5"
    else if d == 6
    then "6"
    else if d == 7
    then "7"
    else if d == 8
    then "8"
    else "9"

-- The digits of `n` before `out`. A value of 64 bits has at most twenty, so twenty rounds are
-- enough for every value that the code formats (`RoundTrip` proves it).
pub digits : ℕ → ℕ → String → String
digits zero n out = out
digits (suc f) n out =
    let rest = digits f (n / 10) (String.◌∷◌ (digit (n % 10)) out) in if n == 0 then out else rest

pub format_nat : ℕ → String
format_nat n = if n == 0 then "0" else digits 20 n String.[]

unfoldable pub format_int : ℤ → String
unfolding format_nat digits digit
format_int (pos n) = format_nat n
format_int (negsuc n) = String.◌∷◌ "-" (format_nat (suc n))

-- The number that decimal digits spell behind `n`; `none` at any other character.
pub scan : String → ℕ → Option ℕ
scan String.[] n = some n
scan (String.◌∷◌ c s) n =
    if leb b'0' (code c)
    then (if leb (code c) b'9' then scan s (n * 10 + (code c - b'0')) else none)
    else none

abbrev pub scan_all : String → Option ℕ
scan_all String.[] = none
scan_all (String.◌∷◌ c s) = scan (String.◌∷◌ c s) 0

-- The value with its sign, refused out of the range of an int64.
abbrev pub signed : String → Bool → Option ℕ → Result ℤ
signed s negative none = err (num_error s)
signed s false (some n) = if ltb n (2 ^ 63) then ok (pos n) else err (num_error s)
signed s true (some zero) = ok (pos 0)
signed s true (some (suc n)) = if ltb n (2 ^ 63) then ok (negsuc n) else err (num_error s)

unfoldable pub parse_int : String → Result ℤ
unfolding scan
parse_int String.[] = err (num_error String.[])
parse_int (String.◌∷◌ c s) =
    if code c == b'-'
    then signed (String.◌∷◌ c s) true (scan_all s)
    else if code c == b'+'
    then signed (String.◌∷◌ c s) false (scan_all s)
    else signed (String.◌∷◌ c s) false (scan_all (String.◌∷◌ c s))

format_tests : (format_int (pos 1234) ≡ "1234") × (format_int (negsuc 6) ≡ "-7")
unfolding format_int digits digit
format_tests = (refl, refl)

parse_tests :
    (parse_int "1234" ≡ ok (pos 1234))
    × (parse_int "-7" ≡ ok (negsuc 6))
    × (parse_int "" ≡ err (num_error ""))
    × (parse_int "1x" ≡ err (num_error "1x"))
    × (parse_int "9223372036854775808" ≡ err (num_error "9223372036854775808"))
unfolding parse_int
parse_tests = (refl, refl, refl, refl, refl)

pub parse_bool-format_bool : (b : Bool) → parse_bool (format_bool b) ≡ ok b
unfolding parse_bool format_bool
parse_bool-format_bool true = refl
parse_bool-format_bool false = refl
