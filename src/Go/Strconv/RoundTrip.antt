-- ===== src/Go/Strconv/RoundTrip.antt =====
-- An int64 is read back from its decimal print.
use Prim.Native.Char.{code}
use native.Mathlib.Nat.{pow-suc}
use investor_cache.Base.{
  ℕ, zero, suc, ◌+◌, ◌*◌, ◌/◌, ◌%◌, ◌^◌, ◌<◌, ◌≤◌, ◌≡◌, refl, Bool, true, false, some, String, ◌==◌,
  ◌&&◌, Bool-cases, inl, inr, ℤ, pos, negsuc, IsInt64, arith,
}
use investor_cache.Go.Errors.{ok}
use investor_cache.Go.Strconv.{
  digit, digits, format_nat, format_int, scan, scan_all, signed, parse_int,
}

-- The characters of the first `n` digits are the codes from `0` on.
spells_below : ℕ → Bool
spells_below zero = true
spells_below (suc d) = spells_below d && code (digit d) == d + b'0'

code-digit_below : (n : ℕ) {d : ℕ} → d < n → spells_below n ≡ true → code (digit d) ≡ d + b'0'
unfolding spells_below
code-digit_below zero below spelled = absurd (omega (arith, below))
code-digit_below (suc n) {d} below spelled = ground (arith, code-digit_below n {d = d})

code-digit : (d : ℕ) → d < 10 → code (digit d) ≡ d + b'0'
unfolding spells_below digit
code-digit d below = code-digit_below 10 below refl

scan-digit : (d n : ℕ) (s : String) → d < 10 → scan (String.◌∷◌ (digit d) s) n ≡ scan s (n * 10 + d)
unfolding scan
scan-digit d n s h = ground (arith, code-digit d)

tenth : (f n : ℕ) → n < 10 ^ suc f → n / 10 < 10 ^ f
tenth f n h = omega (arith, pow-suc 10 f)

-- Reading the digits of `n` before a text is reading the text behind `n`.
scan-digits : (f n : ℕ) (out : String) → n < 10 ^ f → scan (digits f n out) 0 ≡ scan out n
unfolding digits
scan-digits zero n out h = let e : n ≡ 0 = omega arith in rw e
scan-digits (suc f) n out h = ground (
  arith,
  scan-digits f (n / 10) (String.◌∷◌ (digit (n % 10)) out) (tenth f n h),
  scan-digit (n % 10) (n / 10) out,
)

-- A first character that is a digit: neither a sign nor the end of the text.
abbrev StartsWithDigit : String → Type 0
StartsWithDigit String.[] = ⊥
StartsWithDigit (String.◌∷◌ c s) = (b'0' ≤ code c) × (code c ≤ b'9')

StartsWithDigit-digits :
    (f n : ℕ) (out : String)
    → (n ≡ 0 → StartsWithDigit out)
    → n < 10 ^ f
    → StartsWithDigit (digits f n out)
unfolding digits
StartsWithDigit-digits zero n out start h = start (omega arith)
StartsWithDigit-digits (suc f) n out start h = elim (Bool-cases (n == 0)) [
  | inl done ↦ rw done (start (ground arith))
  | inr more ↦ rw more (
      StartsWithDigit-digits f (n / 10) (String.◌∷◌ (digit (n % 10)) out)
        (λ _. omega (arith, code-digit (n % 10))) (tenth f n h))
]

StartsWithDigit-format_nat : (n : ℕ) → n < 10 ^ 20 → StartsWithDigit (format_nat n)
unfolding format_nat
StartsWithDigit-format_nat n h = elim (Bool-cases (n == 0)) [
  | inl z ↦ rw z (omega arith)
  | inr p ↦ rw p (StartsWithDigit-digits 20 n String.[] (λ e. absurd (ground arith)) h)
]

scan_all-scan : (s : String) → StartsWithDigit s → scan_all s ≡ scan s 0
scan_all-scan String.[] h = absurd h
scan_all-scan (String.◌∷◌ c s) h = refl

scan-format_nat : (n : ℕ) → n < 10 ^ 20 → scan (format_nat n) 0 ≡ some n
unfolding format_nat scan
scan-format_nat n h = elim (Bool-cases (n == 0)) [
  | inl z ↦ rw z (ground arith)
  | inr p ↦ rw p (scan-digits 20 n String.[] h)
]

parse_int_unsigned : (s : String) → StartsWithDigit s → parse_int s ≡ signed s false (scan s 0)
unfolding parse_int
parse_int_unsigned String.[] h = absurd h
parse_int_unsigned (String.◌∷◌ c s) h = ground arith

-- The widest magnitude of an int64 has at most twenty digits.
pub parse_int-format_int : (i : ℤ) → IsInt64 i → parse_int (format_int i) ≡ ok i
unfolding format_int parse_int
parse_int-format_int (pos n) h =
    rw
      (
        parse_int_unsigned _ (StartsWithDigit-format_nat n (omega arith)),
        scan-format_nat n (omega arith),
      )
      (ground arith)
parse_int-format_int (negsuc n) h =
    rw
      (
        scan_all-scan _ (StartsWithDigit-format_nat (suc n) (omega arith)),
        scan-format_nat (suc n) (omega arith),
      )
      (ground arith)
