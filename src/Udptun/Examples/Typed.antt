-- ===== src/Udptun/Examples/Typed.antt =====
-- The two udptun programs with a key in the environment: a client whose file sets two fields and asks
-- for a cipher that cannot be made, and a server whose file has a word for its packet limit.
use xtaci_kcptun.Prelude.{String, [], ◌∷◌, Option, some}
use xtaci_kcptun.Prelude.Int.{pos}
use xtaci_kcptun.Settings.{Given, Json, text, number}
use xtaci_kcptun.Udptun.Examples.Programs.{nothing}

abbrev with_file : Given
with_file = record nothing { string = λ name. some "udptun.json" }

abbrev salsa_file : String → Option Json
salsa_file path = some (("mtu", number (pos 1400)) ∷ ("crypt", text "salsa20") ∷ [])

abbrev bad_file : String → Option Json
bad_file path = some (("mtu", text "large") ∷ [])
