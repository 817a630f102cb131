-- ===== src/Kcptun/Examples/Agreements.antt =====
-- The session of a client at its second attempt and the second session of a server, both with nothing
-- on their command lines and no file.
use xtaci_kcptun.Prelude.{◌≡◌, ◌∙◌, refl, ap, [], ◌∷◌, get_elem?, some, none, true, not}
use xtaci_kcptun.Prelude.Switch.{contains}
use xtaci_kcptun.Prelude.{lookup}
use xtaci_kcptun.Kcptun.Config.Client.{client_flags, client_mode}
use xtaci_kcptun.Kcptun.Config.Server.{server_flags, server_mode}
use xtaci_kcptun.Kcptun.Connect.{client_call, Up, wait_conn, client_settings}
use xtaci_kcptun.Kcptun.Connect.Waiting.{wait_conn_lem}
use xtaci_kcptun.Kcptun.Serving
use xtaci_kcptun.Kcptun.Serving.{Listener, server_call, serve, Served, loop, server_settings}
use xtaci_kcptun.Kcptun.CompStream.{IsPrefix, put, comp_writes}
use xtaci_kcptun.Kcptun.Agreement.{Agree, session_agrees}
use xtaci_kcptun.Kcptun.Examples.Ciphers.{named}
use xtaci_kcptun.Kcptun.Examples.Endings.{stored, lines}
use xtaci_kcptun.Kcptun.Examples.Settings.{
  nothing, no_file, client_context, server_context, client_settled, server_settled, table-Parses,
  client_starts, server_starts, client_loads, server_loads, same_words, refused, granted,
  granted_success, refused-fails,
}

abbrev up : Up
up = record {
  session = 9;
  conn = 4;
  call = client_call client_settled;
  compressed = true;
  settings = client_settings client_settled;
}

client_compressed : not client_settled.no_comp ≡ true
unfolding client_mode lookup contains
client_compressed = refl

came : (wait_conn client_settled (refused ∷ granted ∷ [])).up ≡ some up
came =
    ap (λ w. w.up)
      (wait_conn_lem client_settled (refused ∷ []) granted [] refused-fails granted_success)
    ∙ ap
        (λ b. some (record {
          session = 9;
          conn = 4;
          call = client_call client_settled;
          compressed = b;
          settings = client_settings client_settled;
        }))
        client_compressed

abbrev listener : Listener
listener = record { socket = 5; call = server_call server_settled }

abbrev asked : Serving.Answers
asked = record { udp = some 5; raw = none; kcp_on_raw = none }

serves : serve server_settled asked ≡ some (listener ∷ [])
unfolding serve server_mode lookup contains
serves = refl

abbrev served : Served
served = record {
  conn = 12;
  call = server_call server_settled;
  compressed = true;
  settings = server_settings server_settled;
}

accepted : get_elem? (loop server_settled listener (some 11 ∷ some 12 ∷ [])) 1 ≡ some served
unfolding loop server_mode lookup contains
accepted = refl

got_upward : IsPrefix (1 ∷ 2 ∷ []) (put stored (not up.compressed) lines)
unfolding comp_writes
got_upward = record { rest = 3 ∷ []; whole = refl }

got_downward : IsPrefix (1 ∷ []) (put stored (not served.compressed) lines)
unfolding comp_writes
got_downward = record { rest = 2 ∷ 3 ∷ []; whole = refl }

session_agrees_example :
    Agree named stored client_settled server_settled up served lines lines (1 ∷ 2 ∷ []) (1 ∷ [])
session_agrees_example =
    session_agrees nothing nothing client_context server_context (table-Parses client_flags)
      (table-Parses server_flags) named no_file no_file (λ path. true) (λ path. true) [] []
      client_settled server_settled client_loads server_loads same_words client_starts server_starts
      stored (refused ∷ granted ∷ []) up came asked (listener ∷ []) serves 0 listener refl
      (some 11 ∷ some 12 ∷ []) 1 served accepted lines lines (1 ∷ 2 ∷ []) (1 ∷ []) got_upward
      got_downward
