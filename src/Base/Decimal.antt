-- ===== src/Base/Decimal.antt =====
-- std::to_string of an unsigned number, and the reading of decimal digits.
use Prim.Native.Nat.{ℕ, zero, suc, ◌+◌, ◌-◌, ◌*◌, ◌/◌, ◌%◌, ◌<◌}
use Prim.Native.Char.{Char, code}
use Prim.Native.String.{String, ◌∷◌, ◌++◌}
use Prim.Native.String.append
use mathlib.Core.Path.{◌≡◌, refl, ap, ◌∙◌}
use mathlib.Core.Bool.{Bool, true, false, ◌&&◌}
use mathlib.Core.Logic.{inl, inr}
use native.Mathlib.Omega.{arith}
use native.Mathlib.Numerals.{add-one}
use lan_send.Base.Tests.{ltb, leb, ◌==◌, ==_iff, if◌then◌else◌, Bool-cases}
use lan_send.Base.Tables.{passes_below, passes_of_table}

digit_char : ℕ → Char
digit_char d =
    if d == 0
    then "0"
    else if d == 1
    then "1"
    else if d == 2
    then "2"
    else if d == 3
    then "3"
    else if d == 4
    then "4"
    else if d == 5
    then "5"
    else if d == 6
    then "6"
    else if d == 7
    then "7"
    else if d == 8
    then "8"
    else "9"

-- The digits of `n` in front of `out`; one round of fuel for each digit.
digits : ℕ → ℕ → String → String
unfolding digit_char
digits zero n out = out
digits (suc fuel) n out =
    let rest = digits fuel (n / 10) (digit_char (n % 10) ∷ out) in
    if ltb n 10 then digit_char n ∷ out else rest

unfoldable pub to_string : ℕ → String
unfolding digits
to_string n = digits (n + 1) n ""

-- \d
abbrev pub is_digit : Char → Bool
is_digit c = leb b'0' (code c) && leb (code c) b'9'

-- Reads the digits at the front: their value after `acc`, and the text behind them.
unfoldable pub scan : String → ℕ → ℕ × String
scan String.[] acc = (acc, "")
scan (c ∷ s) acc = if is_digit c then scan s (acc * 10 + (code c - b'0')) else (acc, c ∷ s)

to_string_test : to_string 1234567890 ≡ "1234567890"
unfolding to_string
to_string_test = refl

code_table : passes_below (λ d. code (digit_char d) == b'0' + d) 10 ≡ true
unfolding passes_below digit_char
code_table = refl

code-digit_char : (d : ℕ) → d < 10 → code (digit_char d) ≡ b'0' + d
code-digit_char d h = (==_iff _ (b'0' + d)).0 (passes_of_table _ 10 d h code_table)

scan_digit :
    (d : ℕ) (out : String) (acc : ℕ)
    → d < 10
    → scan (digit_char d ∷ out) acc ≡ scan out (acc * 10 + d)
unfolding scan
scan_digit d out acc h = ground (arith, code-digit_char d h)

scan-digits : (fuel n : ℕ) (out : String) → n < fuel → scan (digits fuel n out) 0 ≡ scan out n
unfolding digits
scan-digits zero n out h = absurd (omega arith)
scan-digits (suc fuel) n out h = elim (Bool-cases (ltb n 10)) [
  | inl e ↦ rw e (scan_digit n out 0 (ground arith) ∙ ap (scan out) (omega arith))
  | inr e ↦ rw e (
      scan-digits fuel (n / 10) (digit_char (n % 10) ∷ out) (ground arith)
      ∙ scan_digit (n % 10) out (n / 10) (omega arith)
      ∙ ap (scan out) (omega arith))
]

digits-append :
    (fuel n : ℕ) (out rest : String) → digits fuel n out ++ rest ≡ digits fuel n (out ++ rest)
unfolding digits
digits-append zero n out rest = refl
digits-append (suc fuel) n out rest = elim (Bool-cases (ltb n 10)) [
  | inl e ↦ rw e (append.cons (digit_char n) out rest)
  | inr e ↦ rw e (
      digits-append fuel (n / 10) (digit_char (n % 10) ∷ out) rest
      ∙ ap (digits fuel (n / 10)) (append.cons (digit_char (n % 10)) out rest))
]

abbrev pub starts_with_digit : String → Bool
starts_with_digit String.[] = false
starts_with_digit (c ∷ s) = is_digit c

scan_stop : (s : String) (n : ℕ) → starts_with_digit s ≡ false → scan s n ≡ (n, s)
unfolding scan
scan_stop String.[] n h = refl
scan_stop (c ∷ s) n h = rw h

-- The digits that `to_string` writes are read back, up to a text that does not go on with a digit.
pub scan-to_string :
    (n : ℕ) (rest : String)
    → starts_with_digit rest ≡ false
    → scan (to_string n ++ rest) 0 ≡ (n, rest)
unfolding to_string
scan-to_string n rest h =
    rw (digits-append (n + 1) n "" rest, append.nil rest)
      (scan-digits (n + 1) n rest (omega arith) ∙ scan_stop rest n h)

is_digit-digit_char : (d : ℕ) → d < 10 → is_digit (digit_char d) ≡ true
is_digit-digit_char d h = ground (arith, code-digit_char d h)

digits_start :
    (fuel n : ℕ) (out : String)
    → starts_with_digit out ≡ true
    → starts_with_digit (digits fuel n out) ≡ true
unfolding digits
digits_start zero n out h = h
digits_start (suc fuel) n out h = elim (Bool-cases (ltb n 10)) [
  | inl e ↦ rw e (is_digit-digit_char n (ground arith))
  | inr e ↦ rw e (
      digits_start fuel (n / 10) (digit_char (n % 10) ∷ out)
        (is_digit-digit_char (n % 10) (omega arith)))
]

digits-suc_start : (fuel n : ℕ) (out : String) → starts_with_digit (digits (suc fuel) n out) ≡ true
unfolding digits
digits-suc_start fuel n out = elim (Bool-cases (ltb n 10)) [
  | inl e ↦ rw e (is_digit-digit_char n (ground arith))
  | inr e ↦ rw e (
      digits_start fuel (n / 10) (digit_char (n % 10) ∷ out)
        (is_digit-digit_char (n % 10) (omega arith)))
]

pub starts_with_digit-to_string :
    (n : ℕ) (rest : String) → starts_with_digit (to_string n ++ rest) ≡ true
unfolding to_string
starts_with_digit-to_string n rest =
    rw (digits-append (n + 1) n "" rest, append.nil rest, add-one n) (digits-suc_start n n rest)
