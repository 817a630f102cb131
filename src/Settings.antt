-- ===== src/Settings.antt =====
-- What the four programs share about their settings: the values given on a command line, and a
-- configuration file, which is the JSON object that it holds, by the names that its keys match.
pub mod Typed
use xtaci_kcptun.Prelude.{
  String, List, [], ◌∷◌, Option, none, some, Bool, true, false, ◌&&◌, if◌then◌else◌, Dict, lookup,
  string_eq,
}
use xtaci_kcptun.Prelude.Int.{ℤ}

-- What is given for each flag.
pub record Given : Type 0 where
  pub string : String → Option String
  pub int : String → Option ℤ
  pub bool : String → Option Bool

abbrev pub or_default {ℓ} : {A : Type ℓ} → Option A → A → A
or_default none v = v
or_default (some w) v = w

pub data Value : Type 0 where
  text : String → Value
  number : ℤ → Value
  flag : Bool → Value
  -- `null`, and what no field of a configuration takes
  null other : Value

abbrev pub Json : Type 0
Json = Dict String Value

pub data Kind : Type 0 where
  is_string is_int is_bool : Kind

-- What `Decode` leaves in a field whose key has this value.
abbrev pub string_or : Option Value → String → String
string_or (some (text v)) old = v
string_or (some (number n)) old = old
string_or (some (flag b)) old = old
string_or (some null) old = old
string_or (some other) old = old
string_or none old = old

abbrev pub int_or : Option Value → ℤ → ℤ
int_or (some (number v)) old = v
int_or (some (text t)) old = old
int_or (some (flag b)) old = old
int_or (some null) old = old
int_or (some other) old = old
int_or none old = old

abbrev pub bool_or : Option Value → Bool → Bool
bool_or (some (flag v)) old = v
bool_or (some (text t)) old = old
bool_or (some (number n)) old = old
bool_or (some null) old = old
bool_or (some other) old = old
bool_or none old = old

-- A value of another type is an error, found when the other fields are set.
abbrev pub fits : Kind → Option Value → Bool
fits kind none = true
fits kind (some null) = true
fits is_string (some (text v)) = true
fits is_int (some (number v)) = true
fits is_bool (some (flag v)) = true
fits kind (some value) = false

unfoldable pub well_typed : List (String × Kind) → Json → Bool
well_typed [] json = true
well_typed ((key, kind) ∷ fields) json = fits kind (lookup key json) && well_typed fields json

-- `parseJSONConfig`, when a path is given; no file overrides nothing, and a file that cannot be opened
-- or decoded is `none`.
unfoldable pub load : String → (String → Option Json) → Option Json
load path files = if string_eq.beq path "" then some [] else files path
