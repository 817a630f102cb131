-- ===== src/Udptun/Client/Relay.antt =====
-- A datagram's way out through the client, and the way back of the reply to it.
use xtaci_kcptun.Prelude.{
  ℕ, ◌+◌, ◌^◌, ◌≤◌, ◌<◌, ◌≡◌, sym, subst, List, [], ◌∷◌, length, String, some, Bool, arith,
  ltb-eq-false, ok, nat_eq, string_eq, update,
}
use xtaci_kcptun.Udptun.Codec.{header_size, Crypto, Codec, IsSeeded, open_packet}
use xtaci_kcptun.Udptun.Codec.RoundTrip.{open_packet-seal}
use xtaci_kcptun.Udptun.Table.{Table, touch, lookup_flow}
use xtaci_kcptun.Udptun.Table.Valid.{IsValid, Opened, flow_for_lem, flow_for_total, touch-IsValid}
use xtaci_kcptun.Udptun.Client.{
  Client, Transport, Output, datagrams, to_server, to_local, send, send_sealed, local_loop, deliver,
  receive, transport_loop,
}

module _ {Addr : Type 0} (show : Addr → String) where
  -- What the loops keep between them: the maps agree, and the nonce generator is seeded.
  pub record IsRunning (c : Client Addr) : Type 0 where
    pub table_valid : IsValid show c.table
    pub seeded : IsSeeded c.codec

  -- A flow of the table that is filed under its id and stands for an address.
  pub record HasFlow (addr : Addr) (id : ℕ) (t : Table Addr) : Type 0 where
    pub flow : ℕ
    pub by_its_id : lookup_flow id t ≡ some flow
    pub addr_same : show (t.flows flow).addr ≡ show addr

  -- A flow stays known while other datagrams come and go.
  pub touch-HasFlow :
      (addr : Addr) (id now p : ℕ) (t : Table Addr)
      → HasFlow addr id t
      → HasFlow addr id (touch now p t)
  unfolding touch update
  touch-HasFlow addr id now p t h = record {
    flow = h.flow;
    by_its_id = h.by_its_id;
    addr_same = ground (arith, h.addr_same);
  }

  pub flow_for-HasFlow :
      (addr other : Addr) (id p : ℕ) (t t' : Table Addr)
      → IsValid show t
      → Opened show other t p t'
      → HasFlow addr id t
      → HasFlow addr id t'
  flow_for-HasFlow addr other id p t t' v o h =
      let (its_id, pos, small, listed) = v.id_flow id h.flow h.by_its_id in
      let (kept, same) = o.kept (show (t.flows h.flow).addr) h.flow listed in
      let (_, _, by_its_id) = o.valid.addr_flow _ h.flow kept in
      record {
        flow = h.flow;
        by_its_id = ground (arith, its_id, same, by_its_id);
        addr_same = ground (arith, h.addr_same, same);
      }

module _ {Addr : Type 0} (k : Crypto) (show : Addr → String) where
  -- What `localLoop` leaves behind when it relays a datagram.
  pub record Relayed (addr : Addr) (payload : List ℕ) (tr : Transport Addr)
      (r : Client Addr × List (Output Addr)) : Type 0 where
    pub pkt : List ℕ
    pub id : ℕ
    pub written : datagrams r.1 ≡ to_server tr pkt ∷ []
    pub opens : open_packet k pkt ≡ ok (record { flow_id = id; payload = payload })
    pub size : length pkt ≡ header_size + length payload
    pub positive : 0 < id
    pub has_flow : HasFlow show addr id r.0.table
    pub running : IsRunning show r.0

  send_keeps :
      (now : ℕ) (sent : Bool) (pkt : List ℕ) (c : Client Addr)
      → ((send now sent pkt c).0.table ≡ c.table) × ((send now sent pkt c).0.codec ≡ c.codec)
  unfolding send
  send_keeps now sent pkt c = ground arith

  kept-IsRunning :
      (c : Client Addr) (codec : Codec) (t : Table Addr)
      → (c.table ≡ t) × (c.codec ≡ codec)
      → IsValid show t
      → IsSeeded codec
      → IsRunning show c
  kept-IsRunning c codec t (same_table, same_codec) valid seeded = record {
    table_valid = subst (IsValid show) (sym same_table) valid;
    seeded = ground arith;
  }

  send_sealed-Relayed :
      (now : ℕ) (sent : Bool) (addr : Addr) (payload : List ℕ) (tr : Transport Addr)
      (c : Client Addr) (codec : Codec) (pkt : List ℕ) (id : ℕ)
      → c.transport ≡ some tr
      → open_packet k pkt ≡ ok (record { flow_id = id; payload = payload })
      → length pkt ≡ header_size + length payload
      → 0 < id
      → HasFlow show addr id c.table
      → IsValid show c.table
      → IsSeeded codec
      → Relayed addr payload tr (send_sealed now sent c (codec, ok pkt))
  unfolding send_sealed
  send_sealed-Relayed now sent addr payload tr c codec pkt id e opens size positive has valid
        seeded =
      record {
        pkt = pkt;
        id = id;
        written = ground arith;
        opens = opens;
        size = size;
        positive = positive;
        has_flow = record {
          flow = has.flow;
          by_its_id = ground (arith, has.by_its_id);
          addr_same = ground (arith, has.addr_same);
        };
        running =
            kept-IsRunning (send now sent pkt (record c { codec = codec })).0 codec c.table
              (send_keeps now sent pkt (record c { codec = codec })) valid seeded;
      }

  -- The flow that `flowFor` returned, after `f.touch()`.
  Opened-HasFlow :
      (now : ℕ) (addr : Addr) (t t' : Table Addr) (p : ℕ)
      → Opened show addr t p t'
      → HasFlow show addr (t'.flows p).id (touch now p t')
  unfolding touch update
  Opened-HasFlow now addr t t' p o = record {
    flow = p;
    by_its_id = o.by_its_id;
    addr_same = ground (arith, o.addr_same);
  }

  touch_id : (now p : ℕ) (t : Table Addr) → ((touch now p t).flows p).id ≡ (t.flows p).id
  unfolding touch update
  touch_id now p t = ground arith

  -- A datagram that fits is relayed: the client returns from the search for an id, writes one packet
  -- and no other datagram to the transport, the packet opens as the payload under the id of a flow
  -- that stands for the sender, and the client goes on running.
  pub local_loop-Relayed :
      (now : ℕ) (sent : Bool) (out payload : List ℕ) (addr : Addr) (c : Client Addr)
      (tr : Transport Addr)
      → IsRunning show c
      → length c.table.by_id + 2 ≤ 2 ^ 32
      → length out ≡ c.cfg.max_packet
      → header_size + length payload ≤ c.cfg.max_packet
      → c.transport ≡ some tr
      → (r : Client Addr × List (Output Addr)) × (local_loop k show now sent out payload addr c
          ≡ some r)
        × Relayed addr payload tr r
  unfolding local_loop
  local_loop-Relayed now sent out payload addr c tr v room size fits e =
      let (p, t', found) = flow_for_total show now addr c.table v.table_valid room in
      let o = flow_for_lem show now addr c.table v.table_valid found in
      let t = touch now p t' in
      let id = (t.flows p).id in
      let (codec, pkt, sealed, opens, length_pkt, seeded) =
        open_packet-seal k c.codec out id payload v.seeded (omega arith)
          (omega (arith, touch_id now p t', o.id_range)) in
      let c' : Client Addr = record c { table = t } in
      (
        send_sealed now sent c' (codec, ok pkt),
        rw (ltb-eq-false _ _ fits, found, local_loop, sealed),
        send_sealed-Relayed now sent addr payload tr c' codec pkt id e opens length_pkt
            (omega (arith, touch_id now p t', o.id_range))
            (subst (λ i. HasFlow show addr i t) (sym (touch_id now p t'))
              (Opened-HasFlow now addr c.table t' p o))
            (touch-IsValid show now p t' o.valid) seeded,
      )

  deliver-HasFlow :
      (now : ℕ) (sent : Bool) (addr : Addr) (id : ℕ) (reply : List ℕ) (c : Client Addr)
      → HasFlow show addr id c.table
      → (a : Addr) × (datagrams (deliver now sent (record { flow_id = id; payload = reply }) c).1
          ≡ to_local reply a ∷ [])
        × (show a ≡ show addr)
  unfolding deliver touch update
  deliver-HasFlow now sent addr id reply c h =
      (((touch now h.flow c.table).flows h.flow).addr, ground (arith, h), ground (arith, h))

  -- The way back: while the client has a flow, a reply under its id that opens is handed to an address
  -- with the text of the one that the flow stands for, as the one datagram sent.
  pub transport_loop_reply :
      (now : ℕ) (sent : Bool) (buf reply : List ℕ) (addr : Addr) (id : ℕ) (c : Client Addr)
      → HasFlow show addr id c.table
      → 0 < id
      → open_packet k buf ≡ ok (record { flow_id = id; payload = reply })
      → (a : Addr) × (datagrams (transport_loop k now sent buf c).1 ≡ to_local reply a ∷ [])
        × (show a ≡ show addr)
  unfolding transport_loop receive
  transport_loop_reply now sent buf reply addr id c h pos opens =
      let (a, delivered, same) =
        deliver-HasFlow now sent addr id reply (record c { last_recv = now })
          (record { flow = h.flow; by_its_id = h.by_its_id; addr_same = h.addr_same }) in
      (a, rw (opens, receive) (ground arith), same)
