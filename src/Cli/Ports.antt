-- ===== src/Cli/Ports.antt =====
-- ArgumentParser (src/cli/argument_parser.cc): ports on a command line.
use text.Mathlib.TextLemmas.{append-nil as <>_nil}
use lan_send.Base.{
  ℕ, ◌≤◌, ◌<◌, ◌%◌, ◌^◌, String, some, true, false, ◌≡◌, refl, sym, ap, ◌∙◌, arith, ltb,
  if◌then◌else◌, starts_with_digit, starts_with_digit-to_string, scan, scan-to_string, to_string,
  List, [], ◌∷◌,
}
use lan_send.Naming.{int_max}
use lan_send.Cli.{
  CliOptions, Parsed, no_options, port_of_text, port_of_digits, validate_options, finish,
  parse_option, parse_args,
}

digits_first : (s : String) → starts_with_digit s ≡ true → port_of_text s ≡ port_of_digits false s
unfolding port_of_text
digits_first String.[] h = cc
digits_first (String.◌∷◌ c s) h = ground arith

to_string-digit : (n : ℕ) → starts_with_digit (to_string n) ≡ true
to_string-digit n =
    ap starts_with_digit (sym (<>_nil (to_string n))) ∙ starts_with_digit-to_string n ""

scan_number : (n : ℕ) → (scan (to_string n) 0).0 ≡ n
scan_number n =
    ap (λ (s : String). (scan s 0).0) (sym (<>_nil (to_string n)))
    ∙ ap (λ (p : ℕ × String). p.0) (scan-to_string n "" refl)

port_of_number : (n : ℕ) → n ≤ int_max → port_of_text (to_string n) ≡ some (n % 2 ^ 16)
unfolding port_of_digits
port_of_number n small =
    let fits : ltb int_max n ≡ false = ground arith in
    digits_first (to_string n) (to_string-digit n)
    ∙ rw (port_of_digits, to_string-digit n, scan_number n, fits) refl

-- A port beyond 65535 is taken for what is left of it in sixteen bits, and it is this rest that is
-- checked: the program goes on with it unless it is below 1024.
pub parse_port :
    (n : ℕ)
    → n ≤ int_max
    → parse_args ("--port" ∷ to_string n ∷ []) no_options ≡ (
        if ltb (n % 2 ^ 16) 1024
        then Parsed.exited 1
        else Parsed.options (record no_options { port = some (n % 2 ^ 16) }))
unfolding parse_args parse_option finish validate_options
parse_port n small = rw (port_of_number n small) (ground arith)

pub port_step :
    (n : ℕ) (rest : List String) (o : CliOptions)
    → n < 2 ^ 16
    → parse_args ("--port" ∷ to_string n ∷ rest) o ≡ parse_args rest (record o { port = some n })
unfolding parse_args parse_option
port_step n rest o small =
    let same : port_of_text (to_string n) ≡ some n =
      port_of_number n (omega (arith, small)) ∙ ap some (omega (arith, small)) in
    rw same refl
