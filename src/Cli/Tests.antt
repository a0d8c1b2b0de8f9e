-- ===== src/Cli/Tests.antt =====
-- main.rs: a command line with a configuration between the arguments of its subcommand.
use five_nines_echo.Base.{String, ◌≡◌, refl, some, List, [], ◌∷◌, ◌++◌}
use five_nines_echo.Cli.{Parsed, config_flag, parse_cli_args, extract_config_flag}

abbrev before : List String
before = "upgrade" ∷ "--target" ∷ []

abbrev rest : List String
rest = "/opt/new" ∷ "--include-tls" ∷ []

split_apart :
    parse_cli_args (before ++ config_flag ∷ "c.toml" ∷ rest)
    ≡ Parsed.command "upgrade" (some "c.toml") ("--target" ∷ "/opt/new" ∷ "--include-tls" ∷ [])
unfolding parse_cli_args extract_config_flag
split_apart = refl
