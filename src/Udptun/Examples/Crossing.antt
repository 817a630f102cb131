-- ===== src/Udptun/Examples/Crossing.antt =====
-- udptun over rawtcp at concrete inputs: a dial, a handshake with numbers at the wrap, and "hi" across.
use Prim.Native.Char.{code}
use text.Mathlib.TextEquality.{Char-path}
use xtaci_kcptun.Prelude.{
  ◌≡◌, refl, String, [], ◌∷◌, none, some, true, false, replicate, arith, lookup, string_eq,
}
use xtaci_kcptun.Rawtcp.{Segment, Conn, Target, listening, capture}
use xtaci_kcptun.Rawtcp.Receive.{ipv4, read_segment}
use xtaci_kcptun.Rawtcp.Linked.{Linked}
use xtaci_kcptun.Rawtcp.Lifetime.{returns, set_ttl}
use xtaci_kcptun.Rawtcp.Open.{DialAnswers, dial}
use xtaci_kcptun.Rawtcp.Handshake.Hearing.{IsHandshake}
use xtaci_kcptun.Rawtcp.Handshake.{before, between, greeted, handshake-Linked}
use xtaci_kcptun.Udptun.FlowKey.{Text}
use xtaci_kcptun.Udptun.Server.{Server, ServerFlow}
use xtaci_kcptun.Udptun.Server.Steps.{new_server, new_server-IsSound}
use xtaci_kcptun.Udptun.OverTcp.{Crossed, cross}
use xtaci_kcptun.Udptun.Examples.Data.{
  plain, codec, hello, uplink, client0, client0-IsRunning, sender, out,
}
use xtaci_kcptun.Udptun.Examples.Sockets.{far, server_config}

abbrev codes : String → Text
codes String.[] = []
codes (String.◌∷◌ c s) = code c ∷ codes s

codes_inj : (a b : String) → codes a ≡ codes b → a ≡ b
codes_inj String.[] String.[] e = refl
codes_inj String.[] (String.◌∷◌ c s) e = absurd (cc)
codes_inj (String.◌∷◌ c s) String.[] e = absurd (cc)
codes_inj (String.◌∷◌ c s) (String.◌∷◌ d t) e =
    λ i. String.◌∷◌ (Char-path c d (cc) i) (codes_inj s t (cc) i)

abbrev answers : DialAnswers
answers = record {
  resolved = true;
  raw = some 3;
  tcp = some 8;
  port = 5000;
  remote = "198.51.100.1:29900";
  ttl_set = true;
  elem_in_list = 1;
}

abbrev bare : Segment
bare = record {
  src_port = 5000;
  dst_port = 29900;
  window = 1024;
  seq = 4_294_967_295;
  ack = 0;
  syn = true;
  fin = false;
  psh = false;
  ack_flag = false;
  options = [];
  payload = [];
}

abbrev syn_ack : Segment
syn_ack = record bare { src_port = 29900; dst_port = 5000; seq = 77; ack = 0; ack_flag = true }

abbrev last_ack : Segment
last_ack = record bare { seq = 0; ack = 78; syn = false; ack_flag = true }

shaken : IsHandshake 4_294_967_295 77 bare syn_ack last_ack
shaken = record {
  syn_seq = refl;
  syn_flags = (refl, refl, refl);
  syn_empty = refl;
  syn_ack_seq = refl;
  syn_ack_ack = refl;
  syn_ack_flags = (refl, refl, refl);
  syn_ack_empty = refl;
  ack_seq = refl;
  ack_ack = refl;
  ack_flags = (refl, refl, refl);
  ack_empty = refl;
  x_small = omega arith;
  y_small = omega arith;
}

abbrev listener : Conn
listener = record {
  side = listening 4;
  port = 29900;
  handles = 6 ∷ [];
  flows = [];
  died = false;
  elem_in_list = some 2;
}

dials : (c : Conn) × (dial 1 answers ≡ returns (some c) (set_ttl 8 1 ∷ []))
unfolding dial
dials = (_, refl)

abbrev to_server_at : Target
to_server_at = record {
  ip = 198 ∷ 51 ∷ 100 ∷ 1 ∷ [];
  to4 = some (198 ∷ 51 ∷ 100 ∷ 1 ∷ []);
  port = 29900;
}

abbrev to_client_at : Target
to_client_at = record { ip = 192 ∷ 0 ∷ 2 ∷ 7 ∷ []; to4 = some (192 ∷ 0 ∷ 2 ∷ 7 ∷ []); port = 5000 }

abbrev near : Conn
near = (capture 2 3 "198.51.100.1:29900" (read_segment ipv4 syn_ack) dials.0).0

abbrev apart : Conn
apart = greeted ipv4 between 2 6 "192.0.2.7:5000" 9 bare last_ack listener

no_flow : lookup "192.0.2.7:5000" listener.flows ≡ none
unfolding lookup
no_flow = refl

handshake-Linked_example :
    Linked "198.51.100.1:29900" "192.0.2.7:5000" to_server_at to_client_at near
      (greeted ipv4 before 2 6 "192.0.2.7:5000" 9 bare last_ack listener)
handshake-Linked_example =
    handshake-Linked ipv4 4_294_967_295 77 1 2 3 6 9 before answers bare syn_ack last_ack dials.0
      listener (set_ttl 8 1 ∷ []) "192.0.2.7:5000" to_server_at to_client_at dials.1 refl no_flow
      shaken refl refl refl refl refl

linked : Linked "198.51.100.1:29900" "192.0.2.7:5000" to_server_at to_client_at near apart
linked =
    handshake-Linked ipv4 4_294_967_295 77 1 2 3 6 9 between answers bare syn_ack last_ack dials.0
      listener (set_ttl 8 1 ∷ []) "192.0.2.7:5000" to_server_at to_client_at dials.1 refl no_flow
      shaken refl refl refl refl refl

abbrev blank : ServerFlow String
blank = record { client = ""; id = 0; key = []; last_active = 0 }

abbrev server_side : Server String
server_side = new_server server_config codec blank

cross_example :
    Crossed ipv4 plain far
      (λ (a : String). a)
      codes
      (λ a. some to_server_at)
      (λ a. some to_client_at)
      "192.0.2.7:5000"
      3
      6
      5
      out
      (replicate 40 0)
      (replicate 24 0)
      hello
      hello
      sender
      uplink
      to_server_at
      to_client_at
      client0
      server_side
      near
      apart
cross_example =
    cross ipv4 plain far (λ a. a) codes (λ a. some to_server_at) (λ a. some to_client_at)
      "192.0.2.7:5000" 3 6 5 out (replicate 40 0) (replicate 24 0) hello hello sender uplink
      to_server_at to_client_at client0 server_side near apart codes_inj
      (record { decrypt = refl; crc32 = refl }) client0-IsRunning (omega arith) refl (omega arith)
      (omega arith) refl (new_server-IsSound codes server_config codec blank) refl refl refl
      (omega arith) (omega arith) refl refl linked
