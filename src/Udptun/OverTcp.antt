-- ===== src/Udptun/OverTcp.antt =====
-- udptun with -tcp: the relays' packets cross as segments of rawtcp connections. An address of such a
-- connection is known by its text, and `text` is the text as the server's table keeps it.
use xtaci_kcptun.Prelude.{
  ℕ, ◌+◌, ◌^◌, ◌≤◌, ◌≡◌, ◌∙◌, ap, String, List, [], ◌∷◌, length, take, Option, none, some, true,
  arith,
}
use xtaci_kcptun.Rawtcp.{Conn, Target}
use xtaci_kcptun.Rawtcp.Receive.{IpFamily, ipv4, ipv6, max_payload, take_all}
use xtaci_kcptun.Rawtcp.Linked.{Linked, transfer, turn, transfer_lem}
use xtaci_kcptun.Udptun.Codec.{header_size, Crypto, IsSeeded}
use xtaci_kcptun.Udptun.FlowKey.{Text}
use xtaci_kcptun.Udptun.Client
use xtaci_kcptun.Udptun.Client.{
  Client, Transport, to_server, to_local, datagrams, local_loop, transport_loop,
}
use xtaci_kcptun.Udptun.Client.Relay.{IsRunning}
use xtaci_kcptun.Udptun.Server.{Server, to_target, to_client, run_server, pump}
use xtaci_kcptun.Udptun.Server.Sockets.{IsSound}
use xtaci_kcptun.Udptun.Exchange.{SameCipher, exchange}

-- `buf` of transportLoop and of RunServer.
abbrev pub read_size : ℕ
read_size = 65536

max_payload-small : (ip : IpFamily) → max_payload ip ≤ read_size
max_payload-small ipv4 = omega arith
max_payload-small ipv6 = omega arith

module _ {Addr : Type 0} (ip : IpFamily) (k k' : Crypto) (show : Addr → String)
    (text : String → Text) (resolve resolve' : String → Option Target) (src : String)
    (raw raw' : ℕ) where
  -- A datagram and its reply over the connections `c` of the client and `d` of the server, of which
  -- the server knows the client as `src`: what each side writes, and what the other reads.
  pub record Crossed (now : ℕ) (out out' pong payload reply : List ℕ) (addr : Addr)
      (tr : Transport Addr) (to back_to : Target) (client : Client Addr) (server : Server String)
      (c d : Conn) : Type 0 where
    pub pkt : List ℕ
    pub back : List ℕ
    pub flow : ℕ
    pub dest : Addr
    pub client' : Client Addr
    pub server' : Server String
    pub server'' : Server String
    pub outs : List (Client.Output Addr)
    pub there : Conn × Conn
    pub returned : Conn × Conn
    pub sent : local_loop k show now true out payload addr client ≡ some (client', outs)
    pub written : datagrams outs ≡ to_server tr pkt ∷ []
    pub crossed :
        transfer ip resolve (show tr.remote) src raw' now pkt c d
        ≡ (there, record { bts = pkt; addr = src } ∷ [])
    pub forwarded :
        run_server k' text now true true pong (take read_size pkt) src server
        ≡ (server', to_target flow payload ∷ [])
    pub pumped : pump k' text now true out' reply flow server' ≡ (server'', to_client src back ∷ [])
    pub crossed_back :
        transfer ip resolve' src (show tr.remote) raw now back there.1 there.0
        ≡ (returned, record { bts = back; addr = show tr.remote } ∷ [])
    pub delivered :
        datagrams (transport_loop k now true (take read_size back) client').1
        ≡ to_local reply dest ∷ []
    pub answered : show dest ≡ show addr
    pub linked : Linked (show tr.remote) src to back_to returned.1 returned.0

  -- With udptun over two linked rawtcp connections and packet limits of at most 1996 bytes on IPv4 or 2016
  -- on IPv6, which is what captureFlow's buffer holds beside the headers, a datagram of the client's local side is written as one segment, captured, read and forwarded to the target, and the
  -- target's reply comes back the same way and is handed, unchanged, to an address with the text of the
  -- sender's; the connections stay linked.
  pub cross :
      (now : ℕ) (out out' pong payload reply : List ℕ) (addr : Addr) (tr : Transport Addr)
      (to back_to : Target) (client : Client Addr) (server : Server String) (c d : Conn)
      → ((a b : String) → text a ≡ text b → a ≡ b)
      → SameCipher k k'
      → IsRunning show client
      → length client.table.by_id + 2 ≤ 2 ^ 32
      → length out ≡ client.cfg.max_packet
      → header_size + length payload ≤ client.cfg.max_packet
      → client.cfg.max_packet ≤ max_payload ip
      → client.transport ≡ some tr
      → IsSound text server
      → server.pending ≡ none
      → IsSeeded server.codec
      → length out' ≡ server.cfg.max_packet
      → header_size + length reply ≤ server.cfg.max_packet
      → server.cfg.max_packet ≤ max_payload ip
      → resolve (show tr.remote) ≡ some to
      → resolve' src ≡ some back_to
      → Linked (show tr.remote) src to back_to c d
      → Crossed now out out' pong payload reply addr tr to back_to client server c d
  cross now out out' pong payload reply addr tr to back_to client server c d inj same v room size
        fits short up sound idle seeded size' fits' short' resolved resolved' l =
      let x =
        exchange k k' show text now out out' pong payload reply addr src tr client server same v
          room size fits up sound idle seeded size' fits' in
      let (m, l') =
        transfer_lem ip resolve (show tr.remote) src to back_to resolved raw' now x.pkt c d l
          (omega (arith, x.size)) (omega (arith, x.size)) in
      let there = (transfer ip resolve (show tr.remote) src raw' now x.pkt c d).0 in
      let (m', l'') =
        transfer_lem ip resolve' src (show tr.remote) back_to to resolved' raw now x.back there.1
          there.0 (turn l') (omega (arith, x.size_back)) (omega (arith, x.size_back)) in
      let whole = take_all read_size x.pkt (omega (arith, x.size, max_payload-small ip)) in
      let whole_back =
        take_all read_size x.back (omega (arith, x.size_back, max_payload-small ip)) in
      record {
        pkt = x.pkt;
        back = x.back;
        flow = x.flow;
        dest = x.dest;
        client' = x.client;
        server' = x.server;
        server'' = x.server';
        outs = x.outs;
        there = there;
        returned = (transfer ip resolve' src (show tr.remote) raw now x.back there.1 there.0).0;
        sent = x.sent;
        written = x.written;
        crossed = λ i. (there, m i);
        forwarded =
            ap (λ (q : List ℕ). run_server k' text now true true pong q src server) whole
            ∙ x.forwarded;
        pumped =
            x.pumped
            ∙ ap (λ (q : String). (x.server', to_client q x.back ∷ [])) (inj _ _ x.returned);
        crossed_back = λ i.
            ((transfer ip resolve' src (show tr.remote) raw now x.back there.1 there.0).0, m' i);
        delivered =
            ap (λ (q : List ℕ). datagrams (transport_loop k now true q x.client).1) whole_back
            ∙ x.delivered;
        answered = x.answered;
        linked = turn l'';
      }
