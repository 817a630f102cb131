-- ===== src/Kcptun/Examples/Settings.antt =====
-- A client and a server with nothing on their command lines and no file, and a
-- client that waits for a connection. The parser is one that looks a flag up in its table.
use xtaci_kcptun.Prelude.{
  ◌≡◌, refl, String, List, [], ◌∷◌, ◌++◌, Option, none, some, true, false, lookup, if◌then◌else◌,
  ap, not, inr, arith,
}
use xtaci_kcptun.Prelude.Int.{pos}
use xtaci_kcptun.Prelude.Switch.{contains}
use xtaci_kcptun.Settings.{Given, or_default, Json, load, well_typed}
use xtaci_kcptun.Kcptun.Config.{Flag, Context, Parses, string_default, int_default, bool_default}
use xtaci_kcptun.Kcptun.Config.Client.{
  ClientConfig, client_flags, client_config, client_overlay, client_from_flags, client_mode,
  client_decode, client_finish,
}
use xtaci_kcptun.Kcptun.Config.Server.{
  ServerConfig, server_flags, server_config, server_overlay, server_from_flags, server_mode,
  server_decode, server_finish,
}
use xtaci_kcptun.Kcptun.Config.Interop.{
  client_wire, server_wire, SaysSame, client_config-server_config,
}
use xtaci_kcptun.Kcptun.Crypt.{client_block, server_block}
use xtaci_kcptun.Kcptun.Connect.{Answers, wait_conn, client_call, client_settings}
use xtaci_kcptun.Kcptun.Connect.Waiting.{Succeeds, AllFail, all_opened, wait_conn_lem}
use xtaci_kcptun.Kcptun.Examples.Ciphers.{named}

abbrev pub nothing : Given
nothing = record { string = λ name. none; int = λ name. none; bool = λ name. none }

abbrev table : List Flag → Context
table flags = record {
  string = λ name. or_default (string_default name flags) "";
  int = λ name. or_default (int_default name flags) (pos 0);
  bool = λ name. or_default (bool_default name flags) false;
}

pub table-Parses : (flags : List Flag) → Parses flags nothing (table flags)
table-Parses flags = record {
  strings = λ name v e. ap (λ o. or_default o "") e;
  ints = λ name v e. ap (λ o. or_default o (pos 0)) e;
  bools = λ name v e. ap (λ o. or_default o false) e;
}

abbrev pub no_file : String → Option Json
no_file path = none

abbrev pub client_context : Context
client_context = table client_flags

abbrev pub server_context : Context
server_context = table server_flags

abbrev pub client_settled : ClientConfig
client_settled = client_mode (client_overlay [] (client_from_flags client_context))

abbrev pub server_settled : ServerConfig
server_settled = server_mode (server_overlay [] (server_from_flags server_context))

pub client_starts : client_config client_context no_file (λ path. true) ≡ some client_settled
unfolding client_config client_decode client_finish well_typed load lookup contains
client_starts = refl

pub server_starts : server_config server_context no_file (λ path. true) ≡ some server_settled
unfolding server_config server_decode server_finish well_typed load lookup contains
server_starts = refl

pub client_loads : load (client_context.string "c") no_file ≡ some []
unfolding load contains
client_loads = refl

pub server_loads : load (server_context.string "c") no_file ≡ some []
unfolding load contains
server_loads = refl

pub same_words : SaysSame nothing nothing [] []
same_words = record {
  key = refl;
  crypt = refl;
  data_shard = refl;
  parity_shard = refl;
  no_comp = refl;
  key_json = refl;
  crypt_json = refl;
  data_shard_json = refl;
  parity_shard_json = refl;
  no_comp_json = refl;
}

client_config-server_config_example :
    (client_wire client_settled ≡ server_wire server_settled)
    × (client_block named client_settled.key client_settled.crypt
        ≡ server_block named server_settled.key server_settled.crypt)
client_config-server_config_example =
    client_config-server_config nothing nothing client_context server_context
      (table-Parses client_flags) (table-Parses server_flags) named no_file no_file (λ path. true)
      (λ path. true) [] [] client_settled server_settled client_loads server_loads same_words
      client_starts server_starts

-- The first attempt gets a socket but no session, the second gets both.
abbrev pub refused : Answers
refused = record { raw = none; kcp_on_raw = false; kcp = some 3; smux = none }

abbrev pub granted : Answers
granted = record { raw = none; kcp_on_raw = false; kcp = some 4; smux = some 9 }

pub client_settled-tcp : client_settled.tcp ≡ false
unfolding client_mode lookup contains
client_settled-tcp = refl

abbrev pub granted_success : Succeeds client_settled granted
granted_success = record {
  conn = 4;
  socket = ap (λ b. if b then none else some 4) client_settled-tcp;
  kcp = λ e. ground (arith, e, client_settled-tcp);
  session = 9;
  smux = refl;
}

pub refused-fails : AllFail client_settled (refused ∷ [])
refused-fails = (inr (inr refl), tt)

wait_conn_lem_example : wait_conn client_settled ((refused ∷ []) ++ granted ∷ []) ≡ record {
  up = some (record {
    session = 9;
    conn = 4;
    call = client_call client_settled;
    compressed = not client_settled.no_comp;
    settings = client_settings client_settled;
  });
  sleeps = 1;
  left_open = all_opened client_settled (refused ∷ []);
}
wait_conn_lem_example =
    wait_conn_lem client_settled (refused ∷ []) granted [] refused-fails granted_success
