-- ===== src/Udptun/Program/Typed.antt =====
-- udpclient/main.go and udpserver/main.go: where each setting comes from, and what the programs come to.
use xtaci_kcptun.Prelude.{
  ◌≡◌, ◌≢◌, ◌⊎◌, String, List, [], ◌∷◌, Option, none, some, Bool, true, false, Result, ok, err,
}
use xtaci_kcptun.Settings.{Value, text, number, flag, Given, Json, Kind}
use xtaci_kcptun.Settings.Typed.{HasMisfit, AllTaken}
use xtaci_kcptun.Udptun.Program.{Main, exits, env_key}
use xtaci_kcptun.Udptun.Program.Client.{ClientSettings, client_parse}
use xtaci_kcptun.Udptun.Program.Server.{ServerSettings, server_parse}

-- The fields of the settings, in the order of `client_fields`.
abbrev pub client_values : ClientSettings → List Value
client_values a =
    text a.local_addr
    ∷ text a.remote_addr
    ∷ text a.key
    ∷ text a.crypt
    ∷ number a.mtu
    ∷ number a.sock_buf
    ∷ number a.dscp
    ∷ number a.keep_alive
    ∷ number a.idle
    ∷ flag a.tcp
    ∷ number a.tcp_mark
    ∷ text a.log
    ∷ flag a.quiet
    ∷ []

-- The fields of the settings, in the order of `server_fields`.
abbrev pub server_values : ServerSettings → List Value
server_values a =
    text a.listen
    ∷ text a.target
    ∷ text a.key
    ∷ text a.crypt
    ∷ number a.mtu
    ∷ number a.sock_buf
    ∷ number a.dscp
    ∷ number a.idle
    ∷ flag a.tcp
    ∷ number a.tcp_mark
    ∷ text a.log
    ∷ flag a.quiet
    ∷ []

module _ {S E Block Run : Type 0} (fields : List (String × Kind)) (values : S → List Value)
    (log_of : S → String) (cipher : S → Result E Block) (run : S → Result E Block → Main Run)
    (opens : String → Bool) (binds : S → Bool) (old : S) where
  -- What a program comes to once it is to run, from what its file holds: it exits because the file cannot
  -- be read, holds a value of another type, names a log file that cannot be opened or a cipher that
  -- cannot be made, or an address on which it cannot listen, with `binds`; or it runs on settings that are all set, each with its type.
  pub data Settles (loaded : Option Json) : Main Run → Type 0 where
    without_file : loaded ≡ none → Settles loaded exits
    with_misfit : (json : Json) → loaded ≡ some json → HasMisfit json fields → Settles loaded exits
    without_log :
        (json : Json) (a : S)
        → loaded ≡ some json
        → AllTaken json fields (values old) (values a)
        → log_of a ≢ ""
        → opens (log_of a) ≡ false
        → Settles loaded exits
    without_cipher :
        (json : Json) (a : S) (e : E)
        → loaded ≡ some json
        → AllTaken json fields (values old) (values a)
        → cipher a ≡ err e
        → Settles loaded exits
    without_socket :
        (json : Json) (a : S) (block : Block)
        → loaded ≡ some json
        → AllTaken json fields (values old) (values a)
        → cipher a ≡ ok block
        → binds a ≡ false
        → Settles loaded exits
    settles :
        (json : Json) (a : S) (block : Block)
        → loaded ≡ some json
        → AllTaken json fields (values old) (values a)
        → (log_of a ≡ "") ⊎ (opens (log_of a) ≡ true)
        → cipher a ≡ ok block
        → binds a ≡ true
        → Settles loaded (run a (ok block))

-- What stands in the settings of the client before its file is read.
abbrev pub client_given : Given → String → ClientSettings
client_given g env = let c = client_parse g in record c { key = env_key env c.key }

-- What stands in the settings of the server before its file is read.
abbrev pub server_given : Given → String → ServerSettings
server_given g env = let c = server_parse g in record c { key = env_key env c.key }
