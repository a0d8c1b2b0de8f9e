-- ===== src/Cli.antt =====
-- main.rs: what the command line asks for. A path is its text.
pub mod Config
mod Tests
use five_nines_echo.Base.{
  String, string_key, ◌==◌, Bool, true, false, Option, none, some, List, [], ◌∷◌, any,
  if◌then◌else◌,
}

abbrev pub config_flag : String
config_flag = "--config"

-- A later path replaces an earlier one.
abbrev or_earlier : Option String → String → Option String
or_earlier none earlier = some earlier
or_earlier (some later) earlier = some later

abbrev pub Extracted : Type 0
Extracted = Option String × List String

abbrev found : String → Extracted → Extracted
found value (path, rest) = (or_earlier path value, rest)

abbrev passed : String → Extracted → Extracted
passed arg (path, rest) = (path, arg ∷ rest)

-- A flag with no value is passed on.
unfoldable pub extract_config_flag : List String → Extracted
extract_config_flag [] = (none, [])
extract_config_flag (arg ∷ []) = (none, arg ∷ [])
extract_config_flag (arg ∷ value ∷ args) = elim (arg == config_flag) [
  | true ↦ found value (extract_config_flag args)
  | false ↦ passed arg (extract_config_flag (value ∷ args))
]

abbrev subcommands : List String
subcommands =
    "grandparent" ∷ "supervisor" ∷ "processor" ∷ "plain" ∷ "tls" ∷ "scanner" ∷ "upgrade" ∷ "status"
    ∷ "drain" ∷ "reload" ∷ "help" ∷ "--help" ∷ "-h" ∷ []

abbrev pub is_subcommand : String → Bool
is_subcommand sub = any (λ s. s == sub) subcommands

pub data Parsed : Type 0 where
  -- role, path of the configuration, and the role's own arguments
  command : String → Option String → List String → Parsed
  unknown_subcommand : String → Parsed

abbrev pub command_of : Option String → List String → Parsed
command_of path [] = Parsed.command "supervisor" path []
command_of path (sub ∷ rest) =
    if is_subcommand sub then Parsed.command sub path rest else Parsed.unknown_subcommand sub

abbrev of_extracted : Extracted → Parsed
of_extracted (path, args) = command_of path args

unfoldable pub parse_cli_args : List String → Parsed
parse_cli_args args = of_extracted (extract_config_flag args)
