-- ===== src/Udptun/Conversation.antt =====
-- The client and the server over time: between a datagram and the reply to it, both sides may do
-- anything else.
use xtaci_kcptun.Prelude.{
  ℕ, ◌+◌, ◌^◌, ◌≤◌, ◌<◌, ◌≡◌, sym, ap, ◌∙◌, subst, List, [], ◌∷◌, length, String, none, some, Bool,
  true, arith, ok,
}
use xtaci_kcptun.Udptun.Codec.{header_size, Crypto, IsSeeded, open_packet}
use xtaci_kcptun.Udptun.FlowKey.{Text}
use xtaci_kcptun.Udptun.Client.{
  Client, Transport, Output, to_server, to_local, datagrams, local_loop, transport_loop,
}
use xtaci_kcptun.Udptun.Client.Relay.{IsRunning, Relayed, local_loop-Relayed, transport_loop_reply}
use xtaci_kcptun.Udptun.Client.Later.{relayed_id}
use xtaci_kcptun.Udptun.Client.Steps.{Steps as ClientSteps}
use xtaci_kcptun.Udptun.Client.Steps.{Knows, Steps-Knows}
use xtaci_kcptun.Udptun.Server.Steps.{Steps as ServerSteps}
use xtaci_kcptun.Udptun.Server.{Server, to_target, to_client, run_server, pump}
use xtaci_kcptun.Udptun.Server.Sockets.{IsSound}
use xtaci_kcptun.Udptun.Server.Later.{Steps-Kept}
use xtaci_kcptun.Udptun.Server.Serve.{FlowOf, run_server_forwards}
use xtaci_kcptun.Udptun.Server.Reply.{Stands, pump-Stands}
use xtaci_kcptun.Udptun.Exchange.{SameCipher, open_packet-same, flow_small}

module _ {Addr Peer : Type 0} (k k' : Crypto) (show : Addr → String) (text : Peer → Text) where
  -- The server's flow for the datagram, once it is forwarded, and the codec and settings there.
  record Forwarded (peer : Peer) (id p : ℕ) (s t : Server Peer) : Type 0 where
    flow : FlowOf k' text peer id p t
    same_cfg : t.cfg ≡ s.cfg
    same_codec : t.codec ≡ s.codec

  forwarded :
      (now : ℕ) (pong pkt payload : List ℕ) (id : ℕ) (peer : Peer) (s t : Server Peer) (p : ℕ)
      → IsSound text s
      → s.pending ≡ none
      → open_packet k' pkt ≡ ok (record { flow_id = id; payload = payload })
      → 0 < id
      → id < 2 ^ 32
      → run_server k' text now true true pong pkt peer s ≡ (t, to_target p payload ∷ [])
      → Forwarded peer id p s t
  forwarded now pong pkt payload id peer s t p sound idle opens pos small ran =
      let (q, u, ran', f, (cfg, codec)) =
        run_server_forwards k' text now pong pkt peer s _ sound idle opens pos small in
      let same_flow : q ≡ p = ground arith in
      let same_state : u ≡ t = ground arith in
      record {
        flow =
            subst (λ x. FlowOf k' text peer id p x) same_state
              (subst (λ x. FlowOf k' text peer id x u) same_flow f);
        same_cfg = subst (λ (x : Server Peer). x.cfg ≡ s.cfg) same_state cfg;
        same_codec = subst (λ (x : Server Peer). x.codec ≡ s.codec) same_state codec;
      }

  -- The way back: the packet with the reply, the connection of the client that it comes to, and where
  -- the client hands it. `local_addr` is the address of a connection as the server sees it.
  pub record Answered (local_addr : ℕ → Text) (written : Bool) (now later : ℕ) (out' reply : List ℕ)
      (addr : Addr) (p : ℕ) (u : Server Peer) (e : Client Addr) : Type 0 where
    pub back : List ℕ
    pub to : Peer
    pub dest : Addr
    pub server : Server Peer
    pub reached : Transport Addr
    pub pumped : pump k' text now true out' reply p u ≡ (server, to_client to back ∷ [])
    pub current : e.transport ≡ some reached
    pub returned : text to ≡ local_addr reached.conn
    pub delivered : datagrams (transport_loop k later written back e).1 ≡ to_local reply dest ∷ []
    pub answered : show dest ≡ show addr

  -- What a client knows once it has relayed a datagram.
  record HasSent (addr : Addr) (id : ℕ) (d : Client Addr) : Type 0 where
    knows : Knows k show addr id d
    positive : 0 < id
    small : id < 2 ^ 32

  Relayed-HasSent :
      (addr : Addr) (payload : List ℕ) (tr : Transport Addr) (d : Client Addr)
      (outs : List (Output Addr)) (pkt : List ℕ) (id : ℕ)
      → Relayed k show addr payload tr (d, outs)
      → datagrams outs ≡ to_server tr pkt ∷ []
      → open_packet k pkt ≡ ok (record { flow_id = id; payload = payload })
      → HasSent addr id d
  Relayed-HasSent addr payload tr d outs pkt id r relays opens =
      let same = relayed_id k show outs r.written relays r.opens opens in
      subst (λ i. HasSent addr i d) same
        (record {
          knows = record { running = r.running; has_flow = r.has_flow };
          positive = r.positive;
          small = flow_small k k show text addr r.id d r.running r.has_flow;
        })

  local_loop-HasSent :
      (now : ℕ) (sent : Bool) (out payload : List ℕ) (addr : Addr) (c : Client Addr)
      (tr : Transport Addr) (d : Client Addr) (outs : List (Output Addr)) (pkt : List ℕ) (id : ℕ)
      → IsRunning show c
      → length c.table.by_id + 2 ≤ 2 ^ 32
      → length out ≡ c.cfg.max_packet
      → header_size + length payload ≤ c.cfg.max_packet
      → c.transport ≡ some tr
      → local_loop k show now sent out payload addr c ≡ some (d, outs)
      → datagrams outs ≡ to_server tr pkt ∷ []
      → open_packet k pkt ≡ ok (record { flow_id = id; payload = payload })
      → HasSent addr id d
  local_loop-HasSent now sent out payload addr c tr d outs pkt id v room size fits up stepped relays
        opens =
      let (r, stepped', relayed) =
        local_loop-Relayed k show now sent out payload addr c tr v room size fits up in
      let same : ◌≡◌ {A = Client Addr × List (Output Addr)} r (d, outs) = ground arith in
      Relayed-HasSent addr payload tr d outs pkt id
        (subst (Relayed k show addr payload tr) same relayed) relays opens

  -- A client relays a datagram that fits, as a packet under a flow id, on its connection `tr`, and a
  -- server that shares the cipher and runs, where the packet arrives from the address of that connection,
  -- forwards its payload on the flow `p`. Then, however the goroutines of both sides interleave next, as
  -- long as `maintain` does not find the client's flow idle, when the client is on the connection `tr` at
  -- the end, a reply that `pump` reads for `p` and that fits goes to the address of that connection, and
  -- transportLoop, which reads it there, hands it on, unchanged, to an address with the text of the
  -- sender's.
  pub reply_returns :
      (now : ℕ) (sent : Bool) (out payload : List ℕ) (addr : Addr) (c : Client Addr)
      (tr : Transport Addr) (d : Client Addr) (outs : List (Output Addr)) (pkt : List ℕ) (id : ℕ)
      (e : Client Addr) (arrival : ℕ) (pong : List ℕ) (peer : Peer) (p : ℕ) (s t u : Server Peer)
      (reply_at later : ℕ) (written : Bool) (out' reply : List ℕ) (local_addr : ℕ → Text)
      → SameCipher k k'
      → IsRunning show c
      → length c.table.by_id + 2 ≤ 2 ^ 32
      → length out ≡ c.cfg.max_packet
      → header_size + length payload ≤ c.cfg.max_packet
      → c.transport ≡ some tr
      → local_loop k show now sent out payload addr c ≡ some (d, outs)
      → datagrams outs ≡ to_server tr pkt ∷ []
      → open_packet k pkt ≡ ok (record { flow_id = id; payload = payload })
      → IsSound text s
      → s.pending ≡ none
      → IsSeeded s.codec
      → text peer ≡ local_addr tr.conn
      → run_server k' text arrival true true pong pkt peer s ≡ (t, to_target p payload ∷ [])
      → ClientSteps k show id d e
      → ServerSteps text t u
      → e.transport ≡ some tr
      → length out' ≡ s.cfg.max_packet
      → header_size + length reply ≤ s.cfg.max_packet
      → Answered local_addr written reply_at later out' reply addr p u e
  reply_returns now sent out payload addr c tr d outs pkt id e arrival pong peer p s t u reply_at
        later written out' reply local_addr same v room size fits up stepped relays opens sound idle
        seeded source ran l st up' size' fits' =
      let known =
        local_loop-HasSent now sent out payload addr c tr d outs pkt id v room size fits up stepped
          relays opens in
      let f =
        forwarded arrival pong pkt payload id peer s t p sound idle
          (sym (open_packet-same k k' pkt same) ∙ opens) known.positive known.small ran in
      let kept = Steps-Kept text st in
      let stands : Stands k' text peer id p u = record {
        client_same = ap text (kept.client p f.flow.made) ∙ f.flow.client_same;
        id_same = kept.id p f.flow.made ∙ f.flow.id_same;
      } in
      let limit : u.cfg.max_packet ≡ s.cfg.max_packet = ground (arith, kept.cfg, f.same_cfg) in
      let (to, back, server, pumps, returned, opened, _) =
        pump-Stands k' text reply_at out' reply peer id p u stands known.small
          (kept.seeded (subst IsSeeded (sym f.same_codec) seeded)) (size' ∙ sym limit)
          (subst (λ n. header_size + length reply ≤ n) (sym limit) fits') in
      let (dest, delivers, same_addr) =
        transport_loop_reply k show later written back reply addr id e
          (Steps-Knows k show addr id known.knows l).has_flow known.positive
          (open_packet-same k k' back same ∙ opened) in
      record {
        back = back;
        to = to;
        dest = dest;
        server = server;
        reached = tr;
        pumped = pumps;
        current = up';
        returned = returned ∙ source;
        delivered = delivers;
        answered = same_addr;
      }
