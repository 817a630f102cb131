-- ===== src/Kcptun/Config/Typed.antt =====
-- client/main.go, client/config.go, server/main.go and server/config.go: where each setting comes from,
-- and that it has the type of its field.
use xtaci_kcptun.Prelude.{
  ◌≡◌, ◌≢◌, refl, sym, subst, ◌⊎◌, inl, inr, String, List, [], ◌∷◌, Option, none, some, Bool, true,
  false, ◌&&◌, not, if◌then◌else◌, string_eq, Bool-cases,
}
use xtaci_kcptun.Settings.{
  Value, text, number, flag, Json, Kind, is_string, is_int, is_bool, well_typed, load,
}
use xtaci_kcptun.Settings.Typed.{
  HasMisfit, AllTaken, all_typed, settled, settled-AllTaken, well_typed-HasMisfit, log_cases,
}
use xtaci_kcptun.Kcptun.Config.{Context}
use xtaci_kcptun.Kcptun.Config.Modes.{
  ClientTuned, ServerTuned, client_mode-ClientTuned, server_mode-ServerTuned,
}
use xtaci_kcptun.Kcptun.Config.Client.{
  ClientConfig, client_fields, client_overlay, client_from_flags, client_mode, client_finish,
  client_decode, client_config,
}
use xtaci_kcptun.Kcptun.Config.Server.{
  ServerConfig, server_fields, server_overlay, server_from_flags, server_mode, server_finish,
  server_decode, server_config,
}

-- The fields of a configuration, in the order of `client_fields`.
abbrev pub client_values : ClientConfig → List Value
client_values a =
    text a.local_addr
    ∷ text a.remote_addr
    ∷ text a.key
    ∷ text a.crypt
    ∷ text a.mode
    ∷ number a.conn
    ∷ number a.auto_expire
    ∷ number a.scavenge_ttl
    ∷ number a.mtu
    ∷ number a.snd_wnd
    ∷ number a.rcv_wnd
    ∷ number a.data_shard
    ∷ number a.parity_shard
    ∷ number a.dscp
    ∷ flag a.no_comp
    ∷ flag a.ack_nodelay
    ∷ number a.no_delay
    ∷ number a.interval
    ∷ number a.resend
    ∷ number a.no_congestion
    ∷ number a.sock_buf
    ∷ number a.smux_buf
    ∷ number a.keep_alive
    ∷ text a.log
    ∷ text a.snmp_log
    ∷ number a.snmp_period
    ∷ flag a.quiet
    ∷ flag a.tcp
    ∷ number a.tcp_mark
    ∷ []

-- The fields of a configuration, in the order of `server_fields`.
abbrev pub server_values : ServerConfig → List Value
server_values a =
    text a.listen
    ∷ text a.target
    ∷ text a.key
    ∷ text a.crypt
    ∷ text a.mode
    ∷ number a.mtu
    ∷ number a.snd_wnd
    ∷ number a.rcv_wnd
    ∷ number a.data_shard
    ∷ number a.parity_shard
    ∷ number a.dscp
    ∷ flag a.no_comp
    ∷ flag a.ack_nodelay
    ∷ number a.no_delay
    ∷ number a.interval
    ∷ number a.resend
    ∷ number a.no_congestion
    ∷ number a.sock_buf
    ∷ number a.smux_buf
    ∷ number a.keep_alive
    ∷ text a.log
    ∷ text a.snmp_log
    ∷ number a.snmp_period
    ∷ flag a.pprof
    ∷ flag a.quiet
    ∷ flag a.tcp
    ∷ number a.tcp_mark
    ∷ []

-- What the command line has for a field, by the flag of the name of its key.
abbrev pub flag_value : Context → Kind → String → Value
flag_value c is_string key = text (c.string key)
flag_value c is_int key = number (c.int key)
flag_value c is_bool key = flag (c.bool key)

abbrev pub flag_values : Context → List (String × Kind) → List Value
flag_values c [] = []
flag_values c ((key, kind) ∷ fields) = flag_value c kind key ∷ flag_values c fields

module _ {A : Type 0} (fields : List (String × Kind)) (values : A → List Value)
    (log_of : A → String) (Tuned : A → A → Type 0) (opens : String → Bool) (olds : List Value) where
  -- What a program comes to, from what its file holds: it exits because the file cannot be read, holds a
  -- value of another type, or the log file cannot be opened; or it has all fields set, each with its type,
  -- and the mode applied.
  pub data Settles (loaded : Option Json) : Option A → Type 0 where
    without_file : loaded ≡ none → Settles loaded none
    with_misfit : (json : Json) → loaded ≡ some json → HasMisfit json fields → Settles loaded none
    without_log :
        (json : Json) (a : A)
        → loaded ≡ some json
        → AllTaken json fields olds (values a)
        → log_of a ≢ ""
        → opens (log_of a) ≡ false
        → Settles loaded none
    settles :
        (json : Json) (a b : A)
        → loaded ≡ some json
        → AllTaken json fields olds (values a)
        → (log_of a ≡ "") ⊎ (opens (log_of a) ≡ true)
        → Tuned a b
        → Settles loaded (some b)

  finish-Settles :
      (loaded : Option Json) (json : Json) (a b : A)
      → Tuned a b
      → loaded ≡ some json
      → AllTaken json fields olds (values a)
      → Settles loaded
          (if not (string_eq.beq (log_of a) "") && not (opens (log_of a)) then none else some b)
  finish-Settles loaded json a b mode e set = elim (log_cases opens (log_of a)) [
    | inl (writes, log) ↦ rw (writes) (settles json a b e set log mode)
    | inr (stops, named, fails) ↦ rw (stops) (without_log json a e set named fails)
  ]

  decode-Settles :
      (json : Json) (a b : A)
      → Tuned a b
      → all_typed fields olds ≡ true
      → values a ≡ settled json fields olds
      → Settles (some json) (
          if well_typed fields json
          then (if not (string_eq.beq (log_of a) "") && not (opens (log_of a))
              then none
              else some b)
          else none)
  decode-Settles json a b mode typed_old e = elim (Bool-cases (well_typed fields json)) [
    | inl typed ↦ rw (typed) (
        finish-Settles (some json) json a b mode refl (
          subst (AllTaken json fields olds) (sym e)
            (settled-AllTaken json fields olds typed_old typed)))
    | inr misfit ↦ rw (misfit) (with_misfit json refl (well_typed-HasMisfit json fields misfit))
  ]

client_values-settled :
    (c : Context) (json : Json)
    → client_values (client_overlay json (client_from_flags c))
      ≡ settled json client_fields (flag_values c client_fields)
client_values-settled c json = refl

server_values-settled :
    (c : Context) (json : Json)
    → server_values (server_overlay json (server_from_flags c))
      ≡ settled json server_fields (flag_values c server_fields)
server_values-settled c json = refl

client_decode-Settles :
    (c : Context) (opens : String → Bool) (loaded : Option Json)
    → Settles client_fields client_values
        (λ a. a.log)
        ClientTuned
        opens
        (flag_values c client_fields)
        loaded
        (client_decode opens c loaded)
unfolding client_decode client_finish
client_decode-Settles c opens none = without_file refl
client_decode-Settles c opens (some json) =
    let a = client_overlay json (client_from_flags c) in
    decode-Settles client_fields client_values (λ a. a.log) ClientTuned opens
      (flag_values c client_fields) json a (client_mode a) (client_mode-ClientTuned a) refl
      (client_values-settled c json)

client_config-Settles :
    (c : Context) (files : String → Option Json) (opens : String → Bool)
    → Settles client_fields client_values
        (λ a. a.log)
        ClientTuned
        opens
        (flag_values c client_fields)
        (load (c.string "c") files)
        (client_config c files opens)
unfolding client_config
client_config-Settles c files opens = client_decode-Settles c opens (load (c.string "c") files)

server_decode-Settles :
    (c : Context) (opens : String → Bool) (loaded : Option Json)
    → Settles server_fields server_values
        (λ a. a.log)
        ServerTuned
        opens
        (flag_values c server_fields)
        loaded
        (server_decode opens c loaded)
unfolding server_decode server_finish
server_decode-Settles c opens none = without_file refl
server_decode-Settles c opens (some json) =
    let a = server_overlay json (server_from_flags c) in
    decode-Settles server_fields server_values (λ a. a.log) ServerTuned opens
      (flag_values c server_fields) json a (server_mode a) (server_mode-ServerTuned a) refl
      (server_values-settled c json)

server_config-Settles :
    (c : Context) (files : String → Option Json) (opens : String → Bool)
    → Settles server_fields server_values
        (λ a. a.log)
        ServerTuned
        opens
        (flag_values c server_fields)
        (load (c.string "c") files)
        (server_config c files opens)
unfolding server_config
server_config-Settles c files opens = server_decode-Settles c opens (load (c.string "c") files)

-- Where the settings of both programs come from. A program exits, before it listens or connects, because
-- its file cannot be read, because the file holds a value of another type than the field of its key, or
-- because the log file cannot be opened. Otherwise it comes to a configuration: each field is the value of
-- its key in the file, or what the flag of that name has when the file has none, always of the field's
-- type, and then the tuning is that of the mode.
pub config-Settles :
    (c s : Context) (files files' : String → Option Json) (opens opens' : String → Bool)
    → Settles client_fields client_values
        (λ a. a.log)
        ClientTuned
        opens
        (flag_values c client_fields)
        (load (c.string "c") files)
        (client_config c files opens)
      × Settles server_fields server_values
          (λ a. a.log)
          ServerTuned
          opens'
          (flag_values s server_fields)
          (load (s.string "c") files')
          (server_config s files' opens')
config-Settles c s files files' opens opens' =
    (client_config-Settles c files opens, server_config-Settles s files' opens')
