-- ===== src/Cli/Config.antt =====
-- main.rs: where the path of the configuration may stand.
use five_nines_echo.Base.{
  String, string_key, ◌==◌, ◌≡◌, refl, ap, false, none, some, arith, List, [], ◌∷◌, ◌++◌, All,
}
use five_nines_echo.Cli.{config_flag, extract_config_flag, of_extracted, command_of, parse_cli_args}

abbrev pub IsPlain : String → Type 0
IsPlain arg = (arg == config_flag) ≡ false

extract-plain : (args : List String) → All IsPlain args → extract_config_flag args ≡ (none, args)
unfolding extract_config_flag
extract-plain [] h = refl
extract-plain (a ∷ []) h = refl
extract-plain (a ∷ b ∷ args) h = ground (arith, extract-plain (b ∷ args) h.1)

All-append : (xs ys : List String) → All IsPlain xs → All IsPlain ys → All IsPlain (xs ++ ys)
All-append [] ys h k = k
All-append (x ∷ xs) ys h k = (h.0, All-append xs ys h.1 k)

extract-inserted :
    (before : List String) (path : String) (args : List String)
    → All IsPlain before
    → All IsPlain args
    → extract_config_flag (before ++ config_flag ∷ path ∷ args) ≡ (some path, before ++ args)
unfolding extract_config_flag
extract-inserted [] path args h k = rw (extract-plain args k) refl
extract-inserted (a ∷ []) path args h k = ground (arith, extract-plain args k)
extract-inserted (a ∷ b ∷ before) path args h k =
    ground (arith, extract-inserted (b ∷ before) path args h.1 k)

-- Wherever among arguments that hold no `--config` a `--config` with a path is put, before or after
-- the subcommand or between its arguments, the command line asks for the same as without it, with that
-- path.
pub parse_cli_args-inserted :
    (before : List String) (path : String) (args : List String)
    → All IsPlain before
    → All IsPlain args
    → (parse_cli_args (before ++ config_flag ∷ path ∷ args)
        ≡ command_of (some path) (before ++ args))
      × (parse_cli_args (before ++ args) ≡ command_of none (before ++ args))
unfolding parse_cli_args
parse_cli_args-inserted before path args h k = (
  ap of_extracted (extract-inserted before path args h k),
  ap of_extracted (extract-plain (before ++ args) (All-append before args h k)),
)
