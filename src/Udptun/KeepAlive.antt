-- ===== src/Udptun/KeepAlive.antt =====
-- The keepalive of the client: its ping, the server's answer, and what that does to the client.
use xtaci_kcptun.Prelude.{
  ℕ, ◌≡◌, refl, sym, ◌∙◌, String, List, [], ◌∷◌, length, some, Bool, true, ok,
}
use xtaci_kcptun.Prelude.Int.{pos, ltb_ℤ}
use xtaci_kcptun.Udptun.Codec.{header_size, keep_alive_flow, Crypto, IsSeeded, open_packet}
use xtaci_kcptun.Udptun.FlowKey.{Text}
use xtaci_kcptun.Udptun.Client.{
  Client, Transport, to_server, datagrams, ping_due, maintain, transport_loop, receive,
}
use xtaci_kcptun.Udptun.Client.Relay.{IsRunning}
use xtaci_kcptun.Udptun.Client.Maintain.{maintain_ping}
use xtaci_kcptun.Udptun.Server.{Server, to_client, run_server}
use xtaci_kcptun.Udptun.Server.Serve.{run_server_pong}
use xtaci_kcptun.Udptun.Exchange.{SameCipher, open_packet-same}

module _ {Addr Peer : Type 0} (k k' : Crypto) (show : Addr → String) (text : Peer → Text) where
  -- A ping of `c`, at `now`, that is answered by `s` and read at `later`.
  pub record Answered (now later : ℕ) (dials written sent : Bool) (out pong_out : List ℕ)
      (peer : Peer) (tr : Transport Addr) (c : Client Addr) (s : Server Peer) : Type 0 where
    pub ping : List ℕ
    pub pong : List ℕ
    pub server : Server Peer
    pub pinged : datagrams (maintain k now out c).1 ≡ to_server tr ping ∷ []
    pub noted : (maintain k now out c).0.last_ping ≡ some now
    pub ponged :
        run_server k' text now dials written pong_out ping peer s
        ≡ (server, to_client peer pong ∷ [])
    pub same_flows : (server.table ≡ s.table) × (server.allocated ≡ s.allocated)
    pub read :
        transport_loop k later sent pong (maintain k now out c).0
        ≡ (record (maintain k now out c).0 { last_recv = later }, [])

  receive_pong :
      (later : ℕ) (sent : Bool) (buf : List ℕ) (c : Client Addr)
      → open_packet k buf ≡ ok (record { flow_id = keep_alive_flow; payload = [] })
      → transport_loop k later sent buf c ≡ (record c { last_recv = later }, [])
  unfolding transport_loop receive
  receive_pong later sent buf c opens = rw (opens, receive) refl

  -- When a ping is due, the client's keepalive interval being positive, and the client has a transport,
  -- a tick sends one packet, which a server that shares the cipher answers with one packet to its
  -- sender and no flow of its own; the client reads that as life of the server and as nothing else.
  pub ping-Answered :
      (now later : ℕ) (dials written sent : Bool) (out pong_out : List ℕ) (peer : Peer)
      (tr : Transport Addr) (c : Client Addr) (s : Server Peer)
      → SameCipher k k'
      → IsRunning show c
      → ltb_ℤ (pos 0) c.cfg.keep_alive ≡ true
      → ping_due now c ≡ true
      → c.transport ≡ some tr
      → length out ≡ header_size
      → IsSeeded s.codec
      → length pong_out ≡ header_size
      → Answered now later dials written sent out pong_out peer tr c s
  ping-Answered now later dials written sent out pong_out peer tr c s same v on due up size seeded
        size' =
      let (ping, pinged, opens, noted) = maintain_ping k show now out c tr v on due up size in
      let (pong, t, ponged, opens', table, allocated) =
        run_server_pong k' text now dials written pong_out ping peer s [] seeded size'
          (sym (open_packet-same k k' ping same) ∙ opens) in
      record {
        ping = ping;
        pong = pong;
        server = t;
        pinged = pinged;
        noted = noted;
        ponged = ponged;
        same_flows = (table, allocated);
        read =
            receive_pong later sent pong (maintain k now out c).0
              (open_packet-same k k' pong same ∙ opens');
      }
