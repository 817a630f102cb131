-- ===== src/Udptun/Exchange.antt =====
-- The client and the server together: a datagram from the local side to the target and the reply
-- back. Each side has a nonce generator of its own, with its own AES key; they share the cipher.
-- `show` is the text of an address on the client's local side, `text` on the server's transport.
use xtaci_kcptun.Prelude.{
  ℕ, ◌+◌, ◌^◌, ◌≤◌, ◌<◌, ◌≡◌, sym, ◌∙◌, subst, List, [], ◌∷◌, length, String, none, some, true,
  arith,
}
use xtaci_kcptun.Udptun.Codec.{header_size, Crypto, IsSeeded, open_packet}
use xtaci_kcptun.Udptun.FlowKey.{Text}
use xtaci_kcptun.Udptun.Client.{
  Client, Transport, to_server, to_local, datagrams, local_loop, transport_loop,
}
use xtaci_kcptun.Udptun.Client
use xtaci_kcptun.Udptun.Client.Relay.{IsRunning, HasFlow, local_loop-Relayed, transport_loop_reply}
use xtaci_kcptun.Udptun.Server.{Server, to_target, to_client, run_server, pump}
use xtaci_kcptun.Udptun.Server.Sockets.{IsSound}
use xtaci_kcptun.Udptun.Server.Serve.{run_server_forwards}
use xtaci_kcptun.Udptun.Server.Reply.{pump_replies}

-- Two sides that share the cipher, whatever they make their nonces with.
pub record SameCipher (k k' : Crypto) : Type 0 where
  pub decrypt : k.decrypt ≡ k'.decrypt
  pub crc32 : k.crc32 ≡ k'.crc32

pub open_packet-same :
    (k k' : Crypto) (buf : List ℕ) → SameCipher k k' → open_packet k buf ≡ open_packet k' buf
unfolding open_packet
open_packet-same k k' buf same = rw (same.decrypt, same.crc32)

module _ {Addr Peer : Type 0} (k k' : Crypto) (show : Addr → String) (text : Peer → Text) where
  -- One exchange: the packet that the client writes, the flow of the server that forwards the payload,
  -- the packet that carries the reply, and where the client hands the reply.
  pub record Exchange (now : ℕ) (out out' pong payload reply : List ℕ) (addr : Addr) (peer : Peer)
      (tr : Transport Addr) (c : Client Addr) (s : Server Peer) : Type 0 where
    pub pkt : List ℕ
    pub back : List ℕ
    pub flow : ℕ
    pub to : Peer
    pub dest : Addr
    pub client : Client Addr
    pub server : Server Peer
    pub server' : Server Peer
    pub outs : List (Client.Output Addr)
    pub sent : local_loop k show now true out payload addr c ≡ some (client, outs)
    pub written : datagrams outs ≡ to_server tr pkt ∷ []
    pub forwarded :
        run_server k' text now true true pong pkt peer s ≡ (server, to_target flow payload ∷ [])
    pub pumped : pump k' text now true out' reply flow server ≡ (server', to_client to back ∷ [])
    pub returned : text to ≡ text peer
    pub delivered : datagrams (transport_loop k now true back client).1 ≡ to_local reply dest ∷ []
    pub answered : show dest ≡ show addr
    pub size : length pkt ≡ header_size + length payload
    pub size_back : length back ≡ header_size + length reply

  pub flow_small :
      (addr : Addr) (id : ℕ) (c : Client Addr)
      → IsRunning show c
      → HasFlow show addr id c.table
      → id < 2 ^ 32
  flow_small addr id c v h = ground (arith, v.table_valid.id_flow id h.flow h.by_its_id)

  -- With a server that runs and shares the cipher, a transport between them and room in the table of
  -- ids, a datagram of the local side reaches the target with its payload unchanged, and the target's
  -- reply, as long as it fits, reaches an address with the text of the sender's, unchanged.
  pub exchange :
      (now : ℕ) (out out' pong payload reply : List ℕ) (addr : Addr) (peer : Peer)
      (tr : Transport Addr) (c : Client Addr) (s : Server Peer)
      → SameCipher k k'
      → IsRunning show c
      → length c.table.by_id + 2 ≤ 2 ^ 32
      → length out ≡ c.cfg.max_packet
      → header_size + length payload ≤ c.cfg.max_packet
      → c.transport ≡ some tr
      → IsSound text s
      → s.pending ≡ none
      → IsSeeded s.codec
      → length out' ≡ s.cfg.max_packet
      → header_size + length reply ≤ s.cfg.max_packet
      → Exchange now out out' pong payload reply addr peer tr c s
  exchange now out out' pong payload reply addr peer tr c s same v room size fits up sound idle
        seeded size' fits' =
      let (r, stepped, relayed) =
        local_loop-Relayed k show now true out payload addr c tr v room size fits up in
      let small = flow_small addr relayed.id r.0 relayed.running relayed.has_flow in
      let (p, t, forwards, f, (same_cfg, same_codec)) =
        run_server_forwards k' text now pong relayed.pkt peer s _ sound idle
          (sym (open_packet-same k k' relayed.pkt same) ∙ relayed.opens) relayed.positive small in
      let (to, back, t', pumps, same_client, opens, length_back) =
        pump_replies k' text now out' reply peer relayed.id p t f small
          (subst IsSeeded (sym same_codec) seeded) (ground (arith, same_cfg))
          (ground (arith, same_cfg)) in
      let (dest, delivers, same_addr) =
        transport_loop_reply k show now true back reply addr relayed.id r.0 relayed.has_flow
          relayed.positive (open_packet-same k k' back same ∙ opens) in
      record {
        pkt = relayed.pkt;
        back = back;
        flow = p;
        to = to;
        dest = dest;
        client = r.0;
        server = t;
        server' = t';
        outs = r.1;
        sent = stepped;
        written = relayed.written;
        forwarded = forwards;
        pumped = pumps;
        returned = same_client;
        delivered = delivers;
        answered = same_addr;
        size = relayed.size;
        size_back = length_back;
      }
