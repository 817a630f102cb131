-- ===== src/Kcptun/Serving.antt =====
-- server/main.go: the listeners, the loop that accepts KCP sessions, and handleMux. What kcp-go, smux,
-- rawtcp and the network answer is an argument; a `none` among accepted things is an error.
use xtaci_kcptun.Prelude.{
  ℕ, ◌≡◌, refl, List, [], ◌∷◌, ◌++◌, map, Option, none, some, Bool, true, false, not, if◌then◌else◌,
}
use xtaci_kcptun.Kcptun.Config.Server.{ServerConfig}
use xtaci_kcptun.Kcptun.Connect.{
  KcpCall, Setting, stream_mode, write_delay, no_delay, window_size, mtu, ack_no_delay, dscp,
  read_buffer, write_buffer,
}
use xtaci_kcptun.Kcptun.Tunnel.{Tunnel, handle_client}

-- The calls on a listener, and on a session that it accepts.
abbrev pub listener_settings : ServerConfig → List Setting
listener_settings c = dscp c.dscp ∷ read_buffer c.sock_buf ∷ write_buffer c.sock_buf ∷ []

abbrev pub server_settings : ServerConfig → List Setting
server_settings c =
    stream_mode true
    ∷ write_delay false
    ∷ no_delay c.no_delay c.interval c.resend c.no_congestion
    ∷ mtu c.mtu
    ∷ window_size c.snd_wnd c.rcv_wnd
    ∷ ack_no_delay c.ack_nodelay
    ∷ []

-- A session for which `handleMux` is started.
pub record Served : Type 0 where
  pub conn : ℕ
  pub call : KcpCall
  pub compressed : Bool
  pub settings : List Setting

-- `kcp.Listener`, with what it was made with.
pub record Listener : Type 0 where
  pub socket : ℕ
  pub call : KcpCall

abbrev pub server_call : ServerConfig → KcpCall
server_call c = record {
  key = c.key;
  crypt = c.crypt;
  data_shard = c.data_shard;
  parity_shard = c.parity_shard;
}

-- The closure `loop` on a listener and what its `AcceptKCP` returns; it ends with the first error.
unfoldable pub loop : ServerConfig → Listener → List (Option ℕ) → List Served
loop c lis [] = []
loop c lis (none ∷ rest) = []
loop c lis (some conn ∷ rest) =
    record {
      conn = conn;
      call = lis.call;
      compressed = not c.no_comp;
      settings = server_settings c;
    }
    ∷ loop c lis rest

-- What is answered to `main` once it has its configuration.
pub record Answers : Type 0 where
  pub udp : Option ℕ
  pub raw : Option ℕ
  pub kcp_on_raw : Option ℕ

abbrev pub serve_raw : KcpCall → ℕ → Option ℕ → Option ℕ → Option (List Listener)
serve_raw call udp none on_raw = some (record { socket = udp; call = call } ∷ [])
serve_raw call udp (some raw) none = none
serve_raw call udp (some raw) (some listener) =
    some (record { socket = udp; call = call } ∷ record { socket = listener; call = call } ∷ [])

abbrev pub serve_udp : KcpCall → Bool → Option ℕ → Option ℕ → Option ℕ → Option (List Listener)
serve_udp call tcp none raw on_raw = none
serve_udp call tcp (some udp) raw on_raw =
    if tcp then serve_raw call udp raw on_raw else some (record { socket = udp; call = call } ∷ [])

-- `main`: the listeners that a loop is started for; `none` is `os.Exit`.
unfoldable pub serve : ServerConfig → Answers → Option (List Listener)
serve c a = serve_udp (server_call c) c.tcp a.udp a.raw a.kcp_on_raw

-- A stream that `AcceptStream` returns, and whether the target can be dialled for it.
pub record Stream : Type 0 where
  pub id : ℕ
  pub dials : Bool

pub record Mux : Type 0 where
  pub tunnels : List (ℕ × Tunnel)
  pub returned : Bool
  -- `mux.Close()`, which closes the connection under it
  pub closed : Bool

abbrev pub with_tunnel : ℕ × Tunnel → Mux → Mux
with_tunnel t m = record m { tunnels = t ∷ m.tunnels }

unfoldable pub accept_streams : List (Option Stream) → Mux
accept_streams [] = record { tunnels = []; returned = false; closed = false }
accept_streams (none ∷ rest) = record { tunnels = []; returned = true; closed = true }
accept_streams (some s ∷ rest) = with_tunnel (s.id, handle_client s.dials) (accept_streams rest)

-- `handleMux`; `made` says whether `smux.Server` succeeds. When it does not, the connection stays open.
unfoldable pub handle_mux : Bool → List (Option Stream) → Mux
unfolding accept_streams
handle_mux made streams =
    if made
    then accept_streams streams
    else record { tunnels = []; returned = true; closed = false }

accept_streams_lem :
    (streams : List Stream) (rest : List (Option Stream))
    → accept_streams (map some streams ++ none ∷ rest) ≡ record {
      tunnels = map (λ s. (s.id, handle_client s.dials)) streams;
      returned = true;
      closed = true;
    }
unfolding accept_streams
accept_streams_lem [] rest = refl
accept_streams_lem (s ∷ streams) rest = rw (accept_streams_lem streams rest)

-- A session that is multiplexed gets a tunnel for each stream up to the first error of AcceptStream, in
-- order, and is closed with that error; one that is not gets none, and is left open.
pub handle_mux_lem :
    (streams : List Stream) (rest : List (Option Stream))
    → (handle_mux true (map some streams ++ none ∷ rest) ≡ record {
      tunnels = map (λ s. (s.id, handle_client s.dials)) streams;
      returned = true;
      closed = true;
    })
      × (handle_mux false (map some streams ++ none ∷ rest)
          ≡ record { tunnels = []; returned = true; closed = false })
unfolding handle_mux
handle_mux_lem streams rest = (accept_streams_lem streams rest, refl)
