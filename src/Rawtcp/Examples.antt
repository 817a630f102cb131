-- ===== src/Rawtcp/Examples.antt =====
-- The theorems about rawtcp at concrete inputs.
use xtaci_kcptun.Prelude.{
  ℕ, ◌≡◌, refl, String, List, [], ◌∷◌, none, some, Bool, true, false, string_eq, arith, lookup,
  Distinct,
}
use xtaci_kcptun.Rawtcp.{Segment, Conn, Target, new_flow, dialled, listening}
use xtaci_kcptun.Rawtcp.Receive.{ipv4}
use xtaci_kcptun.Rawtcp.Delivery.{InStep, transfer_all, transfer_all_lem}
use xtaci_kcptun.Rawtcp.Lifetime.{Effect, clean, close, returns}
use xtaci_kcptun.Rawtcp.Lifetime.Owner.{
  captures, accepts, cleans, closes, Event, run_all, FromKnown, run_all-FromKnown,
}
use xtaci_kcptun.Rawtcp.Lifetime.Ending.{
  clean_lem, close_lem, Closed, unless_expired, closes_tcp, expired_conn,
}
use xtaci_kcptun.Rawtcp.Open.{ListenAnswers, listens, listen_fails, not_ip_net, listen}
use xtaci_kcptun.Rawtcp.Open.Failure.{IsClean, listen-IsClean}

-- A handshake's SYN just below the wrap, and the first data.
abbrev syn_segment : Segment
syn_segment = record {
  src_port = 5000;
  dst_port = 443;
  window = 1024;
  seq = 4_294_967_294;
  ack = 0;
  syn = true;
  fin = false;
  psh = false;
  ack_flag = false;
  options = [];
  payload = [];
}

abbrev data_segment : Segment
data_segment = record syn_segment {
  seq = 4_294_967_295;
  ack = 77;
  syn = false;
  psh = true;
  ack_flag = true;
  payload = 1 ∷ 2 ∷ 3 ∷ [];
}

abbrev sender : Conn
sender = record {
  side = dialled 8;
  port = 5000;
  handles = 3 ∷ [];
  flows =
      ("server", record (new_flow 0) { conn = some 8; handle = some 3; seq = 100; ack = 7 }) ∷ [];
  died = false;
  elem_in_list = some 1;
}

abbrev receiver : Conn
receiver = record {
  side = listening 4;
  port = 443;
  handles = 6 ∷ [];
  flows = ("client", record (new_flow 0) { conn = some 9; ack = 100 }) ∷ [];
  died = false;
  elem_in_list = some 2;
}

abbrev server : Target
server = record { ip = 10 ∷ 0 ∷ 0 ∷ 1 ∷ []; to4 = some (10 ∷ 0 ∷ 0 ∷ 1 ∷ []); port = 443 }

receiver-InStep : InStep "server" "client" server sender receiver
unfolding lookup
receiver-InStep = record {
  alive = refl;
  flow = record (new_flow 0) { conn = some 8; handle = some 3; seq = 100; ack = 7 };
  held = refl;
  handle = 3;
  heard = refl;
  peer = record (new_flow 0) { conn = some 9; ack = 100 };
  peer_held = refl;
  conn = 9;
  accepted = refl;
  in_range = omega arith;
  acknowledged = refl;
  port = refl;
}

transfer_all_lem_example :
    ((transfer_all ipv4
        (λ addr. some server)
        "server"
        "client"
        6
        ((10, 1 ∷ 2 ∷ []) ∷ (11, 3 ∷ []) ∷ [])
        sender
        receiver).1
      ≡ record { bts = 1 ∷ 2 ∷ []; addr = "client" }
        ∷ record { bts = 3 ∷ []; addr = "client" }
        ∷ [])
    × InStep "server" "client" server
        (transfer_all ipv4
          (λ addr. some server)
          "server"
          "client"
          6
          ((10, 1 ∷ 2 ∷ []) ∷ (11, 3 ∷ []) ∷ [])
          sender
          receiver).0.0
        (transfer_all ipv4
          (λ addr. some server)
          "server"
          "client"
          6
          ((10, 1 ∷ 2 ∷ []) ∷ (11, 3 ∷ []) ∷ [])
          sender
          receiver).0.1
transfer_all_lem_example =
    transfer_all_lem ipv4 (λ addr. some server) "server" "client" 6 server refl
      ((10, 1 ∷ 2 ∷ []) ∷ (11, 3 ∷ []) ∷ []) sender receiver receiver-InStep
      (omega arith, omega arith, (omega arith, omega arith, tt))

abbrev known : String → Bool
known key = string_eq.beq key "client"

-- An orphan's data, the accepted client's data, a tick and the end.
abbrev events : List Event
events =
    captures 0 6 "stranger" data_segment
    ∷ accepts 1 true "client" 9
    ∷ captures 2 6 "client" data_segment
    ∷ cleans 70_000_000_000
    ∷ closes
    ∷ []

run_all-FromKnown_example : FromKnown known (run_all events (record receiver { flows = [] })).1
run_all-FromKnown_example =
    run_all-FromKnown known events (record receiver { flows = [] }) ((λ e. refl), tt) tt

receiver-Distinct : Distinct receiver.flows
unfolding lookup
receiver-Distinct = (refl, tt)

clean_lem_example :
    ((key : String)
      → lookup key (clean 70_000_000_000 receiver).0.flows
        ≡ unless_expired 70_000_000_000 (lookup key receiver.flows))
    × ((t : ℕ)
        → closes_tcp t (clean 70_000_000_000 receiver).1
          ≡ expired_conn 70_000_000_000 t receiver.flows)
clean_lem_example = clean_lem 70_000_000_000 receiver receiver-Distinct

close_lem_example :
    (d : Conn) × (effects : List Effect) × (close receiver ≡ returns d effects)
    × Closed receiver d effects
close_lem_example = close_lem receiver 2 refl refl

-- Two raw sockets are open when the TCP listener fails.
abbrev listen_answers : ListenAnswers
listen_answers = record {
  resolved = true;
  interfaces =
      some (some (listens 6 ∷ listen_fails ∷ []) ∷ none ∷ some (not_ip_net ∷ listens 7 ∷ []) ∷ []);
  unspecified = true;
  raw = none;
  listener = none;
  port = 443;
  elem_in_list = 2;
}

listen-IsClean_example : IsClean (6 ∷ 7 ∷ []) (listen listen_answers)
listen-IsClean_example =
    listen-IsClean listen_answers
      (some (listens 6 ∷ listen_fails ∷ []) ∷ none ∷ some (not_ip_net ∷ listens 7 ∷ []) ∷ []) refl
      refl
