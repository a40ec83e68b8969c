-- ===== src/Tests/Arguments.antt =====
-- Command lines.
use lan_send.Base.{◌%◌, ◌^◌, some, true, ◌≡◌, refl, arith, ltb, if◌then◌else◌, to_string, [], ◌∷◌}
use lan_send.FileType.{is_one_of, lower_codes}
use lan_send.Cli.{CliOptions, Parsed, no_options, parse_args, validate_options, valid_level}
use lan_send.Cli.Ports.{parse_port}
use lan_send.Cli.Render.{render, parse_args-render}

-- 70000 becomes 4464.
parse_port_example : parse_args ("--port" ∷ to_string 70000 ∷ []) no_options ≡ (
    if ltb (70000 % 2 ^ 16) 1024
    then Parsed.exited 1
    else Parsed.options (record no_options { port = some (70000 % 2 ^ 16) }))
parse_port_example = parse_port 70000 (omega arith)

abbrev wanted : CliOptions
wanted = record {
  port = some 8080;
  config_path = some "/etc/lansend.toml";
  daemon_mode = true;
  log_level = some "Info";
  command = some "send";
  command_args = "a.txt" ∷ "dev" ∷ [];
}

parse_args-render_example : parse_args (render wanted) no_options ≡ Parsed.options wanted
unfolding validate_options valid_level is_one_of lower_codes
parse_args-render_example = parse_args-render wanted refl refl
