-- ===== src/Hasher/Hex.antt =====
-- FileHasher: the hexadecimal text of a digest.
use Prim.Native.String.{count}
use text.Mathlib.TextLemmas.{append_inj}
use text.Mathlib.TextLemmas.{length-append as count-append}
use lan_send.Base.{
  ℕ, ◌*◌, ◌/◌, ◌%◌, ◌<◌, String, ◌≡◌, refl, sym, ap, ◌∙◌, [], ◌∷◌, arith, ◌==◌, if◌then◌else◌, true,
  str_eq, passes_below, passes_of_table, ==_iff, length,
}
use lan_send.Message.{Bytes}
use lan_send.Hasher.{hex_digit, hex_byte, to_hex}

-- The value of a hexadecimal digit.
value : String → ℕ
value s =
    if str_eq s "0"
    then 0
    else if str_eq s "1"
    then 1
    else if str_eq s "2"
    then 2
    else if str_eq s "3"
    then 3
    else if str_eq s "4"
    then 4
    else if str_eq s "5"
    then 5
    else if str_eq s "6"
    then 6
    else if str_eq s "7"
    then 7
    else if str_eq s "8"
    then 8
    else if str_eq s "9"
    then 9
    else if str_eq s "a"
    then 10
    else if str_eq s "b"
    then 11
    else if str_eq s "c"
    then 12
    else if str_eq s "d"
    then 13
    else if str_eq s "e"
    then 14
    else 15

value_table : passes_below (λ n. value (hex_digit n) == n) 16 ≡ true
unfolding passes_below hex_digit value
value_table = refl

count_table : passes_below (λ n. count (hex_digit n) == 1) 16 ≡ true
unfolding passes_below hex_digit
count_table = refl

value-hex_digit : (n : ℕ) → n < 16 → value (hex_digit n) ≡ n
value-hex_digit n h = (==_iff _ n).0 (passes_of_table _ 16 n h value_table)

count-hex_digit : (n : ℕ) → n < 16 → count (hex_digit n) ≡ 1
count-hex_digit n h = (==_iff _ 1).0 (passes_of_table _ 16 n h count_table)

hex_digit_inj : (a b : ℕ) → a < 16 → b < 16 → hex_digit a ≡ hex_digit b → a ≡ b
hex_digit_inj a b ha hb e = sym (value-hex_digit a ha) ∙ ap value e ∙ value-hex_digit b hb

count-hex_byte : (b : ℕ) → b < 256 → count (hex_byte b) ≡ 2
unfolding hex_byte
count-hex_byte b h = omega (
  arith,
  count-append (hex_digit (b / 16)) (hex_digit (b % 16)),
  count-hex_digit (b / 16) (omega arith),
  count-hex_digit (b % 16) (omega arith),
)

hex_byte_inj : (a b : ℕ) → a < 256 → b < 256 → hex_byte a ≡ hex_byte b → a ≡ b
unfolding hex_byte
hex_byte_inj a b ha hb e =
    let same =
      append_inj e
        (count-hex_digit (a / 16) (omega arith) ∙ sym (count-hex_digit (b / 16) (omega arith))) in
    let hi : a / 16 ≡ b / 16 = hex_digit_inj (a / 16) (b / 16) (omega arith) (omega arith) same.0 in
    let lo : a % 16 ≡ b % 16 = hex_digit_inj (a % 16) (b % 16) (omega arith) (omega arith) same.1 in
    omega arith

abbrev pub AreBytes : Bytes → Type 0
AreBytes [] = Unit {0}
AreBytes (b ∷ bs) = (b < 256) × AreBytes bs

-- A digest's text has two characters for each byte.
pub count-to_hex : (bs : Bytes) → AreBytes bs → count (to_hex bs) ≡ 2 * length bs
unfolding to_hex
count-to_hex [] h = refl
count-to_hex (b ∷ bs) h =
    omega (arith, count-append (hex_byte b) (to_hex bs), count-hex_byte b h.0, count-to_hex bs h.1)

cons_longer : (b : ℕ) (bs : Bytes) → AreBytes (b ∷ bs) → "" ≡ to_hex (b ∷ bs) → ⊥
cons_longer b bs h e = absurd (omega (arith, ap count e, count-to_hex (b ∷ bs) h))

-- Two digests, lists of bytes, with the same hexadecimal text are the same.
pub to_hex_inj : (xs ys : Bytes) → AreBytes xs → AreBytes ys → to_hex xs ≡ to_hex ys → xs ≡ ys
unfolding to_hex
to_hex_inj [] [] ha hb e = refl
to_hex_inj [] (b ∷ ys) ha hb e = absurd (cons_longer b ys hb e)
to_hex_inj (a ∷ xs) [] ha hb e = absurd (cons_longer a xs ha (sym e))
to_hex_inj (a ∷ xs) (b ∷ ys) ha hb e =
    let same = append_inj e (count-hex_byte a ha.0 ∙ sym (count-hex_byte b hb.0)) in
    cc (hex_byte_inj a b ha.0 hb.0 same.0, to_hex_inj xs ys ha.1 hb.1 same.1)
