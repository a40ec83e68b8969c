-- ===== src/Naming/Suffix.antt =====
-- ReceiveController::onVerifyIntegrity: names that were numbered before.
use Prim.Native.Char.{Char, code}
use Prim.Native.String.append
use lan_send.Base.{
  ℕ, ◌+◌, String, ◌<>◌, none, some, false, ◌==◌, leb, if◌then◌else◌, ◌≡◌, refl, to_string, scan,
  is_digit, scan-to_string, starts_with_digit-to_string, arith, Bool-cases, inl, inr, subst, ◌*◌,
  ◌-◌,
}
use lan_send.Naming.{closing_number, match_numbered, first_suffix, is_line_end, int_max}

closing_number-to_string : (n : ℕ) → closing_number ("(" <> (to_string n <> ")")) ≡ some n
unfolding closing_number
closing_number-to_string n =
    rw (append.cons, append.nil, starts_with_digit-to_string n ")", scan-to_string n ")" refl)

-- No part of a text without spaces is numbered.
abbrev NoSpace : String → Type 0
NoSpace String.[] = Unit {0}
NoSpace (String.◌∷◌ c s) = ((code c == b' ') ≡ false) × NoSpace s

match_numbered-NoSpace : (s : String) → NoSpace s → match_numbered s ≡ none
unfolding match_numbered
match_numbered-NoSpace String.[] h = refl
match_numbered-NoSpace (String.◌∷◌ c s) h = rw (match_numbered-NoSpace s h.1) (rw h.0)

abbrev pub OneLine : String → Type 0
OneLine String.[] = Unit {0}
OneLine (String.◌∷◌ c s) = (is_line_end c ≡ false) × OneLine s

scan-NoSpace :
    (s : String) (acc n : ℕ) (rest : String) → scan s acc ≡ (n, rest) → NoSpace rest → NoSpace s
unfolding scan
scan-NoSpace String.[] acc n rest e h = tt
scan-NoSpace (String.◌∷◌ c s) acc n rest e h = elim (Bool-cases (is_digit c)) [
  | inl d ↦ (ground arith, scan-NoSpace s (acc * 10 + (code c - b'0')) n rest (ground arith) h)
  | inr d ↦ subst NoSpace {y = String.◌∷◌ c s} (ground arith) h
]

number-NoSpace : (n : ℕ) → NoSpace ("(" <> (to_string n <> ")"))
number-NoSpace n =
    rw (append.cons, append.nil)
      (refl, scan-NoSpace (to_string n <> ")") 0 n ")" (scan-to_string n ")" refl) (refl, tt))

match_numbered-cons :
    (c : Char) (s base : String) (n : ℕ)
    → match_numbered s ≡ some (base, n)
    → is_line_end c ≡ false
    → match_numbered (String.◌∷◌ c s) ≡ some (String.◌∷◌ c base, n)
unfolding match_numbered
match_numbered-cons c s base n e h = rw (e, h)

-- A numbered name is taken apart into its base and its number.
pub match_numbered-candidate :
    (base : String) (n : ℕ)
    → OneLine base
    → match_numbered (base <> (" (" <> (to_string n <> ")"))) ≡ some (base, n)
match_numbered-candidate String.[] n h =
    rw (append.nil, append.cons)
      (unfold match_numbered in
        rw (
          match_numbered-NoSpace ("(" <> (to_string n <> ")")) (number-NoSpace n),
          closing_number-to_string n,
          match_numbered,
        ))
match_numbered-candidate (String.◌∷◌ c s) n h =
    rw append.cons (match_numbered-cons c _ s n (match_numbered-candidate s n h.1) h.0)

-- A name that the receiver numbered with n is numbered with n + 1 next, as long as n + 1 fits an int;
-- for any larger n there is no next number, as adding 1 overflows or std::stoi throws. The base has no
-- line end.
pub first_suffix-candidate :
    (base : String) (n : ℕ)
    → OneLine base
    → first_suffix (base <> (" (" <> (to_string n <> ")")))
      ≡ (if leb int_max n then none else some (base, n + 1))
unfolding first_suffix
first_suffix-candidate base n h = rw (match_numbered-candidate base n h, first_suffix)
