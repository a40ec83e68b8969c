-- ===== src/Cli/Render.antt =====
-- ArgumentParser (src/cli/argument_parser.cc): options written out as arguments.
use lan_send.Base.{
  ℕ, ◌<◌, ◌^◌, String, Option, none, some, Bool, true, false, ◌≡◌, refl, sym, ap, ◌∙◌, arith,
  if_true, if_false, to_string, List, [], ◌∷◌,
}
use lan_send.Cli.{
  CliOptions, Parsed, no_options, is_option, validate_options, finish, parse_option, parse_args,
}
use lan_send.Cli.Ports.{port_step}

unfoldable pub render_command : Option String → List String → List String
render_command none args = []
render_command (some command) args = command ∷ args

unfoldable pub render_value : String → Option String → List String → List String
render_value name none rest = rest
render_value name (some v) rest = name ∷ v ∷ rest

unfoldable pub render_port : Option ℕ → List String → List String
render_port none rest = rest
render_port (some p) rest = "--port" ∷ to_string p ∷ rest

unfoldable pub render_daemon : Bool → List String → List String
render_daemon false rest = rest
render_daemon true rest = "--daemon" ∷ rest

-- The arguments for these options.
unfoldable pub render : CliOptions → List String
unfolding render_command render_value render_port render_daemon
render o = render_port o.port (
    render_value "--config" o.config_path (
      render_daemon o.daemon_mode
        (render_value "--log-level" o.log_level (render_command o.command o.command_args))))

-- A command does not look like an option, and only a command has arguments.
abbrev pub IsCommand : Option String → List String → Type 0
IsCommand none args = args ≡ []
IsCommand (some command) args = is_option command ≡ false

fits_port : (o : CliOptions) (p : ℕ) → o.port ≡ some p → validate_options o ≡ true → p < 2 ^ 16
unfolding validate_options
fits_port o p e h = ground (arith, e)

port_part :
    (port : Option ℕ) (rest : List String)
    → ((p : ℕ) → port ≡ some p → p < 2 ^ 16)
    → parse_args (render_port port rest) no_options
      ≡ parse_args rest (record no_options { port = port })
unfolding render_port
port_part none rest small = refl
port_part (some p) rest small = port_step p rest no_options (small p refl)

config_part :
    (port : Option ℕ) (config : Option String) (rest : List String)
    → parse_args (render_value "--config" config rest) (record no_options { port = port })
      ≡ parse_args rest (record no_options { port = port; config_path = config })
unfolding render_value parse_args parse_option
config_part port none rest = refl
config_part port (some v) rest = refl

daemon_part :
    (port : Option ℕ) (config : Option String) (daemon : Bool) (rest : List String)
    → parse_args
        (render_daemon daemon rest)
        (record no_options { port = port; config_path = config })
      ≡ parse_args rest
          (record no_options { port = port; config_path = config; daemon_mode = daemon })
unfolding render_daemon parse_args parse_option
daemon_part port config false rest = refl
daemon_part port config true [] = refl
daemon_part port config true (v ∷ rest) = refl

level_part :
    (port : Option ℕ) (config : Option String) (daemon : Bool) (level : Option String)
    (rest : List String)
    → parse_args
        (render_value "--log-level" level rest)
        (record no_options { port = port; config_path = config; daemon_mode = daemon })
      ≡ parse_args rest (record no_options {
        port = port;
        config_path = config;
        daemon_mode = daemon;
        log_level = level;
      })
unfolding render_value parse_args parse_option
level_part port config daemon none rest = refl
level_part port config daemon (some v) rest = refl

command_part :
    (port : Option ℕ) (config : Option String) (daemon : Bool) (level command : Option String)
    (args : List String)
    → IsCommand command args
    → parse_args (render_command command args) (record no_options {
      port = port;
      config_path = config;
      daemon_mode = daemon;
      log_level = level;
    })
      ≡ finish (record {
        port = port;
        config_path = config;
        daemon_mode = daemon;
        log_level = level;
        command = command;
        command_args = args;
      })
unfolding render_command parse_args
command_part port config daemon level none args h =
    ap
      (λ (a : List String). finish (record no_options {
        port = port;
        config_path = config;
        daemon_mode = daemon;
        log_level = level;
        command_args = a;
      }))
      (sym h)
command_part port config daemon level (some command) [] h = if_false (is_option command) _ _ h
command_part port config daemon level (some command) (v ∷ args) h =
    if_false (is_option command) _ _ h

-- The arguments that say the options are parsed into these options, if they are valid, the command does
-- not start with a dash, and there are no arguments without a command.
pub parse_args-render :
    (o : CliOptions)
    → validate_options o ≡ true
    → IsCommand o.command o.command_args
    → parse_args (render o) no_options ≡ Parsed.options o
unfolding render finish
parse_args-render o valid command =
    port_part o.port _ (λ p e. fits_port o p e valid)
    ∙ config_part o.port o.config_path _
    ∙ daemon_part o.port o.config_path o.daemon_mode _
    ∙ level_part o.port o.config_path o.daemon_mode o.log_level _
    ∙ command_part o.port o.config_path o.daemon_mode o.log_level o.command o.command_args command
    ∙ if_true (validate_options o) _ _ valid
