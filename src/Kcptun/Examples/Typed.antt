-- ===== src/Kcptun/Examples/Typed.antt =====
-- A client whose file sets two fields, and a server whose file has a number for its key.
use xtaci_kcptun.Prelude.{String, [], ◌∷◌, Option, some, true, if◌then◌else◌, string_eq}
use xtaci_kcptun.Prelude.Int.{pos}
use xtaci_kcptun.Settings.{Json, text, number, null, load}
use xtaci_kcptun.Kcptun.Config.{Context}
use xtaci_kcptun.Kcptun.Config.Client.{client_fields, client_config}
use xtaci_kcptun.Kcptun.Config.Server.{server_fields, server_config}
use xtaci_kcptun.Kcptun.Config.Modes.{ClientTuned, ServerTuned}
use xtaci_kcptun.Kcptun.Config.Typed.{
  flag_values, client_values, server_values, Settles, config-Settles,
}
use xtaci_kcptun.Kcptun.Examples.Settings.{client_context, server_context}

abbrev with_file : Context → Context
with_file c = record c {
  string = λ name. if string_eq.beq name "c" then "kcptun.json" else c.string name;
}

abbrev good_file : String → Option Json
good_file path = some (("mtu", number (pos 1400)) ∷ ("crypt", text "salsa20") ∷ ("key", null) ∷ [])

abbrev bad_file : String → Option Json
bad_file path = some (("key", number (pos 7)) ∷ [])

config-Settles_example :
    Settles client_fields client_values
      (λ a. a.log)
      ClientTuned
      (λ path. true)
      (flag_values (with_file client_context) client_fields)
      (load ((with_file client_context).string "c") good_file)
      (client_config (with_file client_context) good_file (λ path. true))
    × Settles server_fields server_values
        (λ a. a.log)
        ServerTuned
        (λ path. true)
        (flag_values (with_file server_context) server_fields)
        (load ((with_file server_context).string "c") bad_file)
        (server_config (with_file server_context) bad_file (λ path. true))
config-Settles_example =
    config-Settles (with_file client_context) (with_file server_context) good_file bad_file
      (λ path. true) (λ path. true)
