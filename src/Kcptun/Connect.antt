-- ===== src/Kcptun/Connect.antt =====
-- client/main.go (createConn, waitConn) and client/dial.go: how
-- sessions come up. What rawtcp, kcp-go, smux and the network answer is an argument; a
-- connection or a session is a handle, and what an operation opens and does not close is returned.
pub mod Waiting
use xtaci_kcptun.Prelude.{not}
use xtaci_kcptun.Prelude.{
  ℕ, suc, ◌+◌, String, List, [], ◌∷◌, ◌++◌, Option, none, some, Bool, true, false, if◌then◌else◌,
}
use xtaci_kcptun.Prelude.Int.{ℤ}
use xtaci_kcptun.Kcptun.Config.Client.{ClientConfig}
use xtaci_kcptun.Kcptun.Config.Server.{ServerConfig}
use xtaci_kcptun.Kcptun.Tunnel.{Tunnel, handle_client}

-- The calls on a KCP session, in order.
pub data Setting : Type 0 where
  stream_mode write_delay ack_no_delay : Bool → Setting
  no_delay : ℤ → ℤ → ℤ → ℤ → Setting
  window_size : ℤ → ℤ → Setting
  mtu dscp read_buffer write_buffer : ℤ → Setting

abbrev pub client_settings : ClientConfig → List Setting
client_settings c =
    stream_mode true
    ∷ write_delay false
    ∷ no_delay c.no_delay c.interval c.resend c.no_congestion
    ∷ window_size c.snd_wnd c.rcv_wnd
    ∷ mtu c.mtu
    ∷ ack_no_delay c.ack_nodelay
    ∷ dscp c.dscp
    ∷ read_buffer c.sock_buf
    ∷ write_buffer c.sock_buf
    ∷ []

-- What one attempt is answered: by `rawtcp.Dial`, by `kcp.NewConn` on it, by `kcp.DialWithOptions`, and
-- by `smux.Client`.
pub record Answers : Type 0 where
  pub raw : Option ℕ
  pub kcp_on_raw : Bool
  pub kcp : Option ℕ
  pub smux : Option ℕ

-- What kcp-go is given for its packets: the cipher, by the key and the name that `block` is made of, and
-- the shards.
pub record KcpCall : Type 0 where
  pub key : String
  pub crypt : String
  pub data_shard : ℤ
  pub parity_shard : ℤ

abbrev pub client_call : ClientConfig → KcpCall
client_call c = record {
  key = c.key;
  crypt = c.crypt;
  data_shard = c.data_shard;
  parity_shard = c.parity_shard;
}

-- A session that came up, with the KCP connection under it, whether that is compressed and the calls on
-- it; and the connections that the attempt leaves open otherwise.
pub record Up : Type 0 where
  pub session : ℕ
  pub conn : ℕ
  pub call : KcpCall
  pub compressed : Bool
  pub settings : List Setting

pub record Attempt (A : Type 0) : Type 0 where
  pub result : Option A
  pub left_open : List ℕ

-- A KCP connection, by the number of the socket under it.
pub record KcpConn : Type 0 where
  pub conn : ℕ
  pub call : KcpCall

abbrev pub with_call : KcpCall → Option ℕ → Option KcpConn
with_call call none = none
with_call call (some conn) = some (record { conn = conn; call = call })

abbrev pub dial_raw : KcpCall → Bool → Option ℕ → Attempt KcpConn
dial_raw call kcp_on_raw none = record { result = none; left_open = [] }
dial_raw call true (some conn) = record {
  result = some (record { conn = conn; call = call });
  left_open = [];
}
dial_raw call false (some conn) = record { result = none; left_open = conn ∷ [] }

unfoldable pub dial : ClientConfig → Answers → Attempt KcpConn
dial c a =
    if c.tcp
    then dial_raw (client_call c) a.kcp_on_raw a.raw
    else record { result = with_call (client_call c) a.kcp; left_open = [] }

abbrev pub multiplex : ClientConfig → KcpConn → Option ℕ → Attempt Up
multiplex c k none = record { result = none; left_open = k.conn ∷ [] }
multiplex c k (some session) = record {
  result = some (record {
    session = session;
    conn = k.conn;
    call = k.call;
    compressed = not c.no_comp;
    settings = client_settings c;
  });
  left_open = [];
}

abbrev pub after_dial : ClientConfig → Option ℕ → Option KcpConn → List ℕ → Attempt Up
after_dial c smux none conns = record { result = none; left_open = conns }
after_dial c smux (some k) conns =
    let r = multiplex c k smux in record { result = r.result; left_open = conns ++ r.left_open }

-- `createConn`
unfoldable pub create_conn : ClientConfig → Answers → Attempt Up
unfolding dial
create_conn c a = let d = dial c a in after_dial c a.smux d.result d.left_open

-- What `waitConn` returns on the answers to its attempts, with the seconds slept; it goes on when they
-- run out.
pub record Waited : Type 0 where
  pub up : Option Up
  pub sleeps : ℕ
  pub left_open : List ℕ

abbrev pub wait_more : Option Up → List ℕ → Waited → Waited
wait_more (some up) conns rest = record { up = some up; sleeps = 0; left_open = conns }
wait_more none conns rest = record {
  up = rest.up;
  sleeps = suc rest.sleeps;
  left_open = conns ++ rest.left_open;
}

unfoldable pub wait_conn : ClientConfig → List Answers → Waited
unfolding create_conn
wait_conn c [] = record { up = none; sleeps = 0; left_open = [] }
wait_conn c (a ∷ answers) =
    let r = create_conn c a in wait_more r.result r.left_open (wait_conn c answers)
