-- ===== src/Kcptun/Config.antt =====
-- client/main.go, client/config.go, server/main.go and server/config.go: how both programs come to
-- their configuration. The command line is parsed by another library, which `Context` stands for.
pub mod Client
pub mod Server
pub mod Interop
pub mod Modes
pub mod Typed
use xtaci_kcptun.Prelude.{
  ℕ, ◌≡◌, String, List, [], ◌∷◌, Option, none, some, Bool, true, false, ◌&&◌, if◌then◌else◌, Dict,
  lookup, string_eq,
}
use xtaci_kcptun.Prelude.Int.{ℤ, pos}
use xtaci_kcptun.Settings.{Given, or_default}
use xtaci_kcptun.Prelude.Switch.{contains}

-- `rawtcp.DefaultMark`
abbrev pub default_mark : ℕ
default_mark = 7_037_808

-- A flag with its names and its default; `env_flag` has a variable of the environment too.
pub data Flag : Type 0 where
  string_flag : List String → String → Flag
  env_flag : List String → String → String → Flag
  int_flag : List String → ℤ → Flag
  bool_flag : List String → Flag

-- `c.String`, `c.Int` and `c.Bool`
pub record Context : Type 0 where
  pub string : String → String
  pub int : String → ℤ
  pub bool : String → Bool

-- What the modes set.
pub record Tuning : Type 0 where
  pub no_delay : ℤ
  pub interval : ℤ
  pub resend : ℤ
  pub no_congestion : ℤ

-- The flag of a table by one of its names.
abbrev pub string_default : String → List Flag → Option String
string_default name [] = none
string_default name (string_flag names v ∷ flags) =
    if contains names name then some v else string_default name flags
string_default name (env_flag names v env ∷ flags) =
    if contains names name then some v else string_default name flags
string_default name (int_flag names v ∷ flags) = string_default name flags
string_default name (bool_flag names ∷ flags) = string_default name flags

abbrev pub int_default : String → List Flag → Option ℤ
int_default name [] = none
int_default name (string_flag names v ∷ flags) = int_default name flags
int_default name (env_flag names v env ∷ flags) = int_default name flags
int_default name (int_flag names v ∷ flags) =
    if contains names name then some v else int_default name flags
int_default name (bool_flag names ∷ flags) = int_default name flags

abbrev pub bool_default : String → List Flag → Option Bool
bool_default name [] = none
bool_default name (string_flag names v ∷ flags) = bool_default name flags
bool_default name (env_flag names v env ∷ flags) = bool_default name flags
bool_default name (int_flag names v ∷ flags) = bool_default name flags
bool_default name (bool_flag names ∷ flags) =
    if contains names name then some false else bool_default name flags

-- What the parser of the command line documents: a flag that is declared has the value given for it,
-- or else its default.
pub record Parses (flags : List Flag) (given : Given) (c : Context) : Type 0 where
  pub strings :
      (name v : String)
      → string_default name flags ≡ some v
      → c.string name ≡ or_default (given.string name) v
  pub ints :
      (name : String) (v : ℤ)
      → int_default name flags ≡ some v
      → c.int name ≡ or_default (given.int name) v
  pub bools :
      (name : String) (v : Bool)
      → bool_default name flags ≡ some v
      → c.bool name ≡ or_default (given.bool name) v
