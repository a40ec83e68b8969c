-- ===== src/Cli.antt =====
-- src/cli/argument_parser.cc: the options of the command line.
pub mod Ports
pub mod Render
use Prim.Native.Char.{code}
use lan_send.FileType.{is_one_of, lower_codes}
use lan_send.Base.{
  ℕ, ◌+◌, ◌-◌, ◌%◌, ◌^◌, String, ◌<>◌, Option, none, some, Bool, true, false, ◌&&◌, ◌||◌, ◌==◌, not,
  ltb, str_eq, if◌then◌else◌, starts_with_digit, scan, List, [], ◌∷◌,
}
use lan_send.Naming.{int_max}

pub record CliOptions : Type 0 where
  -- a std::uint16_t
  pub port : Option ℕ
  pub config_path : Option String
  pub daemon_mode : Bool
  pub log_level : Option String
  pub command : Option String
  pub command_args : List String

abbrev pub no_options : CliOptions
no_options = record {
  port = none;
  config_path = none;
  daemon_mode = false;
  log_level = none;
  command = none;
  command_args = [];
}

-- Parse returns, calls std::exit, or throws.
pub data Parsed : Type 0 where
  options : CliOptions → Parsed
  exited : ℕ → Parsed
  threw : String → Parsed

-- std::isspace
abbrev is_space : ℕ → Bool
is_space n = n == 32 || (ltb 8 n && ltb n 14)

-- The sign and the digits of std::stoi, and the conversion to std::uint16_t; `none` where it throws.
unfoldable pub port_of_digits : Bool → String → Option ℕ
port_of_digits negative s =
    let n = (scan s 0).0 in
    if not (starts_with_digit s)
    then none
    else if negative
    then (if ltb (int_max + 1) n then none else some ((2 ^ 16 - n % 2 ^ 16) % 2 ^ 16))
    else if ltb int_max n
    then none
    else some (n % 2 ^ 16)

unfoldable pub port_of_text : String → Option ℕ
unfolding port_of_digits
port_of_text String.[] = none
port_of_text (String.◌∷◌ c s) =
    let rest = port_of_text s in
    if is_space (code c)
    then rest
    else if code c == 45
    then port_of_digits true s
    else if code c == 43
    then port_of_digits false s
    else port_of_digits false (String.◌∷◌ c s)

-- arg[0] == '-'
abbrev pub is_option : String → Bool
is_option String.[] = false
is_option (String.◌∷◌ c s) = code c == 45

unfoldable pub valid_level : String → Bool
valid_level level = is_one_of (lower_codes level) ("debug" ∷ "info" ∷ "warning" ∷ "error" ∷ [])

unfoldable pub validate_options : CliOptions → Bool
unfolding valid_level
validate_options o =
    not (elim o.port [ none ↦ false | some p ↦ ltb p 1024 || ltb 65535 p ])
    && elim o.log_level [ none ↦ true | some level ↦ valid_level level ]

unfoldable pub finish : CliOptions → Parsed
unfolding validate_options
finish o = if validate_options o then options o else exited 1

abbrev is_named : String → String → String → Bool
is_named arg short long = str_eq arg short || str_eq arg long

-- parseOptions: `value` is the next argument with how parsing goes on behind it, where there is one.
unfoldable pub parse_option :
    String → CliOptions → Option (String × (CliOptions → Parsed)) → (CliOptions → Parsed) → Parsed
unfolding port_of_text
parse_option arg o value next =
    if is_named arg "-p" "--port"
    then elim value [
      | none ↦ threw "Missing port number"
      | some (v, after) ↦ elim (port_of_text v) [
        | none ↦ threw "stoi"
        | some p ↦ after (record o { port = some p })
      ]
    ]
    else if is_named arg "-c" "--config"
    then elim value [
      | none ↦ threw "Missing config path"
      | some (v, after) ↦ after (record o { config_path = some v })
    ]
    else if is_named arg "-d" "--daemon"
    then next (record o { daemon_mode = true })
    else if is_named arg "-l" "--log-level"
    then elim value [
      | none ↦ threw "Missing log level"
      | some (v, after) ↦ after (record o { log_level = some v })
    ]
    else if is_named arg "-h" "--help"
    then exited 0
    else threw ("Unknown option: " <> arg)

-- Parse, from the next argument on, with the options so far.
unfoldable pub parse_args : List String → CliOptions → Parsed
unfolding finish parse_option
parse_args [] o = finish o
parse_args (arg ∷ []) o =
    if is_option arg
    then parse_option arg o none finish
    else finish (record o { command = some arg })
parse_args (arg ∷ v ∷ rest) o =
    let after = parse_args rest in
    let next = parse_args (v ∷ rest) in
    if is_option arg
    then parse_option arg o (some (v, after)) next
    else finish (record o { command = some arg; command_args = v ∷ rest })
