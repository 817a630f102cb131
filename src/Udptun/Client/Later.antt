-- ===== src/Udptun/Client/Later.antt =====
-- A conversation over time: any interleaving of the client's handlers between a datagram and a reply.
use xtaci_kcptun.Prelude.{
  arith, subst, ℕ, ◌+◌, ◌^◌, ◌≤◌, ◌<◌, ◌≡◌, List, [], ◌∷◌, length, String, some, Bool, false, ok,
}
use xtaci_kcptun.Udptun.Codec.{header_size, Crypto, open_packet}
use xtaci_kcptun.Udptun.Table.{lookup_flow, is_idle}
use xtaci_kcptun.Udptun.Client.{
  Client, Transport, Output, to_server, to_local, datagrams, seconds, local_loop, transport_loop,
  maintain,
}
use xtaci_kcptun.Udptun.Client.Relay.{
  IsRunning, HasFlow, Relayed, local_loop-Relayed, transport_loop_reply,
}
use xtaci_kcptun.Udptun.Client.Maintain.{
  local_loop-Keeps, transport_loop-Keeps, maintain-IsRunning, maintain-HasFlow,
}

module _ {Addr : Type 0} (k : Crypto) (show : Addr → String) where
  -- The flow `id` of the table is not idle at a tick, or is not there.
  abbrev pub IsAwake : ℕ → ℕ → Client Addr → Type 0
  IsAwake id now c =
      (p : ℕ)
      → lookup_flow id c.table ≡ some p
      → is_idle (seconds c.cfg.idle) now (c.table.flows p) ≡ false

  -- `Later id c d`: the handlers lead from `c` to `d`, and at no tick was the flow `id` idle.
  pub data Later (id : ℕ) (c : Client Addr) : Client Addr → Type 0 where
    now_on : Later id c c
    datagram :
        {d : Client Addr} (now : ℕ) (sent : Bool) (out payload : List ℕ) (addr : Addr)
        (e : Client Addr) (outs : List (Output Addr))
        → Later id c d
        → local_loop k show now sent out payload addr d ≡ some (e, outs)
        → Later id c e
    packet :
        {d : Client Addr} (now : ℕ) (sent : Bool) (buf : List ℕ)
        → Later id c d
        → Later id c (transport_loop k now sent buf d).0
    tick :
        {d : Client Addr} (now : ℕ) (out : List ℕ)
        → Later id c d
        → IsAwake id now d
        → Later id c (maintain k now out d).0

  -- Whatever the handlers do, the client stays well formed and a flow that is kept awake stays known.
  pub Later-HasFlow :
      (addr : Addr) (id : ℕ) (c : Client Addr) {d : Client Addr}
      → IsRunning show c
      → HasFlow show addr id c.table
      → Later id c d
      → IsRunning show d × HasFlow show addr id d.table
  Later-HasFlow addr id c v h now_on = (v, h)
  Later-HasFlow addr id c v h (datagram {d} now sent out payload other e outs l stepped) =
      let (running, has) = Later-HasFlow addr id c v h l in
      let r = local_loop-Keeps k show now sent out payload other d running stepped in
      (r.running, r.has_flow addr id has)
  Later-HasFlow addr id c v h (packet {d} now sent buf l) =
      let (running, has) = Later-HasFlow addr id c v h l in
      let r = transport_loop-Keeps k show now sent buf d running in
      (r.running, r.has_flow addr id has)
  Later-HasFlow addr id c v h (tick {d} now out l awake) =
      let (running, has) = Later-HasFlow addr id c v h l in
      (
        maintain-IsRunning k show now out d running,
        maintain-HasFlow k show now out addr id d running awake has,
      )

  pub relayed_id :
      {tr : Transport Addr} {pkt pkt' payload payload' : List ℕ} {id id' : ℕ}
      (outs : List (Output Addr))
      → datagrams outs ≡ to_server tr pkt ∷ []
      → datagrams outs ≡ to_server tr pkt' ∷ []
      → open_packet k pkt ≡ ok (record { flow_id = id; payload = payload })
      → open_packet k pkt' ≡ ok (record { flow_id = id'; payload = payload' })
      → id ≡ id'
  relayed_id outs written written' opens opens' = ground arith

  -- If a datagram that fits was relayed as a packet that opens under a flow id, then after any history
  -- of the client at whose ticks that flow is not idle, a packet that opens as a reply under the id is
  -- handed to an address with the text of the sender's, as the one datagram sent.
  pub conversation :
      (now : ℕ) (sent : Bool) (out payload : List ℕ) (addr : Addr) (c : Client Addr)
      (tr : Transport Addr) (d : Client Addr) (outs : List (Output Addr)) (pkt : List ℕ) (id : ℕ)
      (e : Client Addr) (later : ℕ) (written : Bool) (buf reply : List ℕ)
      → IsRunning show c
      → length c.table.by_id + 2 ≤ 2 ^ 32
      → length out ≡ c.cfg.max_packet
      → header_size + length payload ≤ c.cfg.max_packet
      → c.transport ≡ some tr
      → local_loop k show now sent out payload addr c ≡ some (d, outs)
      → datagrams outs ≡ to_server tr pkt ∷ []
      → open_packet k pkt ≡ ok (record { flow_id = id; payload = payload })
      → Later id d e
      → open_packet k buf ≡ ok (record { flow_id = id; payload = reply })
      → (a : Addr) × (datagrams (transport_loop k later written buf e).1 ≡ to_local reply a ∷ [])
        × (show a ≡ show addr)
  conversation now sent out payload addr c tr d outs pkt id e later written buf reply v room size
        fits up stepped relays opens l opened =
      let ((d', outs'), stepped', r) =
        local_loop-Relayed k show now sent out payload addr c tr v room size fits up in
      let same : ◌≡◌ {A = Client Addr × List (Output Addr)} (d', outs') (d, outs) = ground arith in
      finish (subst (Relayed k show addr payload tr) same r)
    where
      finish :
          Relayed k show addr payload tr (d, outs)
          → (a : Addr) × (datagrams (transport_loop k later written buf e).1
              ≡ to_local reply a ∷ [])
            × (show a ≡ show addr)
      finish r =
          let same = relayed_id outs r.written relays r.opens opens in
          transport_loop_reply k show later written buf reply addr id e
            (Later-HasFlow addr id d r.running
              (subst (λ i. HasFlow show addr i d.table) same r.has_flow) l).1
            (subst (λ i. 0 < i) same r.positive) opened
