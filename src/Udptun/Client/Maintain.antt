-- ===== src/Udptun/Client/Maintain.antt =====
-- The client's handlers keep it running; what a tick of `maintain` does.
use xtaci_kcptun.Prelude.{
  ℕ, ◌+◌, ◌≡◌, refl, sym, ap, ◌∙◌, subst, List, [], ◌∷◌, length, String, some, Bool, true, false,
  arith, ltb, ◌==◌, ◌&&◌, Result, ok, err, nat_eq, string_eq, Bool-cases, Option-cases, inl, inr,
}
use xtaci_kcptun.Prelude.Int.{ℤ, pos, ltb_ℤ}
use xtaci_kcptun.Udptun.Codec.{
  header_size, keep_alive_flow, Crypto, Codec, CodecError, Datagram, IsSeeded, seal, open_packet,
}
use xtaci_kcptun.Udptun.Codec.Frame.{seal-IsSeeded}
use xtaci_kcptun.Udptun.Codec.RoundTrip.{open_packet-seal}
use xtaci_kcptun.Udptun.Table.{Table, flow_for, touch, lookup_flow, reap, is_idle}
use xtaci_kcptun.Udptun.Table.Valid.{IsValid, flow_for_lem, touch-IsValid}
use xtaci_kcptun.Udptun.Table.Reap.{reap_lem, unless_idle}
use xtaci_kcptun.Udptun.Client.{
  Client, Transport, Output, to_server, datagrams, seconds, send, send_sealed, local_loop, deliver,
  receive, transport_loop, ping, ping_due, maintain,
}
use xtaci_kcptun.Udptun.Client.Relay.{IsRunning, HasFlow, touch-HasFlow, flow_for-HasFlow}

module _ {Addr : Type 0} (k : Crypto) (show : Addr → String) where
  -- What a handler keeps: the client runs on, and a flow that was known still is.
  pub record Keeps (c d : Client Addr) : Type 0 where
    pub running : IsRunning show d
    pub has_flow :
        (addr : Addr) (id : ℕ) → HasFlow show addr id c.table → HasFlow show addr id d.table
    pub cfg : d.cfg ≡ c.cfg

  pub same_table-Keeps :
      (c d : Client Addr)
      → IsRunning show c
      → d.table ≡ c.table
      → IsSeeded d.codec
      → d.cfg ≡ c.cfg
      → Keeps c d
  same_table-Keeps c d v e seeded cfg = record {
    running = record { table_valid = subst (IsValid show) (sym e) v.table_valid; seeded = seeded };
    has_flow = λ addr id h. subst (HasFlow show addr id) (sym e) h;
    cfg = cfg;
  }

  pub send_sealed-keeps :
      (now : ℕ) (sent : Bool) (c : Client Addr) (codec : Codec) (r : Result CodecError (List ℕ))
      → let d = (send_sealed now sent c (codec, r)).0 in
        (d.table ≡ c.table) × (d.codec ≡ codec) × (d.cfg ≡ c.cfg)
  unfolding send_sealed send
  send_sealed-keeps now sent c codec (ok pkt) = ground arith
  send_sealed-keeps now sent c codec (err e) = ground arith

  relayed-Keeps :
      (now : ℕ) (sent : Bool) (c : Client Addr) (t : Table Addr) (out payload : List ℕ) (id : ℕ)
      → IsRunning show c
      → IsValid show t
      → ((a : Addr) (i : ℕ) → HasFlow show a i c.table → HasFlow show a i t)
      → Keeps c (send_sealed now sent (record c { table = t }) (seal k c.codec out id payload)).0
  relayed-Keeps now sent c t out payload id v valid kept =
      let (e, f, g) =
        send_sealed-keeps now sent (record c { table = t }) (seal k c.codec out id payload).0
          (seal k c.codec out id payload).1 in
      record {
        running = record {
          table_valid = subst (IsValid show) (sym e) valid;
          seeded = subst IsSeeded (sym f) (seal-IsSeeded k c.codec out id payload v.seeded);
        };
        has_flow = λ a i h. subst (HasFlow show a i) (sym e) (kept a i h);
        cfg = g;
      }

  pub local_loop-Keeps :
      (now : ℕ) (sent : Bool) (out payload : List ℕ) (addr : Addr) (c : Client Addr)
      {d : Client Addr} {outs : List (Output Addr)}
      → IsRunning show c
      → local_loop k show now sent out payload addr c ≡ some (d, outs)
      → Keeps c d
  unfolding local_loop
  local_loop-Keeps now sent out payload addr c {d} {outs} v e =
      elim (Bool-cases (ltb c.cfg.max_packet (header_size + length payload))) [
        | inl over ↦ same_table-Keeps c d v (ground arith) (ground (arith, v.seeded)) (ground arith)
        | inr fits ↦ elim (Option-cases (flow_for show now addr c.table)) [
          | inl stuck ↦ absurd (ground arith)
          | inr ((p, t), found) ↦
              let o = flow_for_lem show now addr c.table v.table_valid found in
              subst (Keeps c) (ground arith) (
                relayed-Keeps now sent c (touch now p t) out payload ((touch now p t).flows p).id v
                  (touch-IsValid show now p t o.valid)
                  (λ a i h.
                    touch-HasFlow show a i now p t
                      (flow_for-HasFlow show a addr i p c.table t v.table_valid o h)))
        ]
      ]

  pub touched-Keeps :
      (now p : ℕ) (c d : Client Addr)
      → IsRunning show c
      → d.table ≡ touch now p c.table
      → d.codec ≡ c.codec
      → d.cfg ≡ c.cfg
      → Keeps c d
  touched-Keeps now p c d v e f g = record {
    running = record {
      table_valid = subst (IsValid show) (sym e) (touch-IsValid show now p c.table v.table_valid);
      seeded = subst IsSeeded (sym f) v.seeded;
    };
    has_flow = λ a i h. subst (HasFlow show a i) (sym e) (touch-HasFlow show a i now p c.table h);
    cfg = g;
  }

  deliver-Keeps :
      (now : ℕ) (sent : Bool) (d : Datagram) (c : Client Addr)
      → IsRunning show c
      → Keeps c (deliver now sent d c).0
  unfolding deliver
  deliver-Keeps now sent d c v = elim (Option-cases (lookup_flow d.flow_id c.table)) [
    | inl missing ↦ rw (missing, deliver) (same_table-Keeps c c v refl v.seeded refl)
    | inr (p, e) ↦
        touched-Keeps now p c (deliver now sent d c).0 v (ground arith) (ground arith)
          (ground arith)
  ]

  receive-Keeps :
      (now : ℕ) (sent : Bool) (c : Client Addr) (r : Result CodecError Datagram)
      → IsRunning show c
      → Keeps c (receive now sent c r).0
  unfolding receive
  receive-Keeps now sent c (err e) v = same_table-Keeps c c v refl v.seeded refl
  receive-Keeps now sent c (ok d) v = elim (Bool-cases (d.flow_id == keep_alive_flow)) [
    | inl pong ↦ rw pong (same_table-Keeps c c v refl v.seeded refl)
    | inr flow ↦ rw flow (deliver-Keeps now sent d c v)
  ]

  pub transport_loop-Keeps :
      (now : ℕ) (sent : Bool) (buf : List ℕ) (c : Client Addr)
      → IsRunning show c
      → Keeps c (transport_loop k now sent buf c).0
  unfolding transport_loop
  transport_loop-Keeps now sent buf c v =
      let r =
        receive-Keeps now sent (record c { last_recv = now }) (open_packet k buf)
          (record { table_valid = v.table_valid; seeded = v.seeded }) in
      record { running = r.running; has_flow = r.has_flow; cfg = r.cfg }

  pub ping-keeps :
      (c : Client Addr) (codec : Codec) (r : Result CodecError (List ℕ))
      → let d = (ping c (codec, r)).0 in (d.table ≡ c.table) × (d.codec ≡ codec) × (d.cfg ≡ c.cfg)
  unfolding ping
  ping-keeps c codec (ok pkt) = ground arith
  ping-keeps c codec (err e) = ground arith

  maintain-keeps :
      (now : ℕ) (out : List ℕ) (c : Client Addr)
      → IsRunning show c
      → let d = (maintain k now out c).0 in
        (d.table ≡ reap (seconds c.cfg.idle) now c.table) × IsSeeded d.codec × (d.cfg ≡ c.cfg)
  unfolding maintain
  maintain-keeps now out c v =
      let c' : Client Addr = record c { table = reap (seconds c.cfg.idle) now c.table } in
      elim (Bool-cases (ltb_ℤ (pos 0) c.cfg.keep_alive && ping_due now c')) [
        | inr quiet ↦ rw quiet (refl, v.seeded, refl)
        | inl due ↦
            let sealed = seal k c.codec out keep_alive_flow [] in
            let (e, f, g) = ping-keeps (record c' { last_ping = some now }) sealed.0 sealed.1 in
            rw due (
              e,
              subst IsSeeded (sym f) (seal-IsSeeded k c.codec out keep_alive_flow [] v.seeded),
              g,
            )
      ]

  pub reap-HasFlow :
      (ttl : ℤ) (now : ℕ) (addr : Addr) (id : ℕ) (t : Table Addr)
      → IsValid show t
      → ((p : ℕ) → lookup_flow id t ≡ some p → is_idle ttl now (t.flows p) ≡ false)
      → HasFlow show addr id t
      → HasFlow show addr id (reap ttl now t)
  reap-HasFlow ttl now addr id t v awake h =
      let r = reap_lem ttl now show t v in
      record {
        flow = h.flow;
        by_its_id = ground (arith, r.by_id id, h.by_its_id, awake h.flow h.by_its_id);
        addr_same = ground (arith, r.same.flows, h.addr_same);
      }

  pub maintain-IsRunning :
      (now : ℕ) (out : List ℕ) (c : Client Addr)
      → IsRunning show c
      → IsRunning show (maintain k now out c).0
  maintain-IsRunning now out c v =
      let (e, seeded, cfg) = maintain-keeps now out c v in
      let r = reap_lem (seconds c.cfg.idle) now show c.table v.table_valid in
      record { table_valid = subst (IsValid show) (sym e) r.valid; seeded = seeded }

  -- A tick keeps the flow that it does not find idle.
  pub maintain-HasFlow :
      (now : ℕ) (out : List ℕ) (addr : Addr) (id : ℕ) (c : Client Addr)
      → IsRunning show c
      → ((p : ℕ)
          → lookup_flow id c.table ≡ some p
          → is_idle (seconds c.cfg.idle) now (c.table.flows p) ≡ false)
      → HasFlow show addr id c.table
      → HasFlow show addr id (maintain k now out c).0.table
  maintain-HasFlow now out addr id c v awake h =
      subst (HasFlow show addr id) (sym (maintain-keeps now out c v).0)
        (reap-HasFlow (seconds c.cfg.idle) now addr id c.table v.table_valid awake h)

  -- A tick of `maintain` keeps the client running, and afterwards an id is known exactly if it was
  -- known and its flow was not idle, whether or not the tick also pings.
  pub maintain-lookup_flow :
      (now : ℕ) (out : List ℕ) (id : ℕ) (c : Client Addr)
      → IsRunning show c
      → IsRunning show (maintain k now out c).0
        × (lookup_flow id (maintain k now out c).0.table
            ≡ unless_idle (seconds c.cfg.idle) now c.table (lookup_flow id c.table))
  maintain-lookup_flow now out id c v = (
    maintain-IsRunning now out c v,
    ap (lookup_flow id) (maintain-keeps now out c v).0
        ∙ (reap_lem (seconds c.cfg.idle) now show c.table v.table_valid).by_id id,
  )

  -- A ping that is due is one packet for the keepalive flow with no payload, on the current transport,
  -- and starts the interval anew.
  pub maintain_ping :
      (now : ℕ) (out : List ℕ) (c : Client Addr) (tr : Transport Addr)
      → IsRunning show c
      → ltb_ℤ (pos 0) c.cfg.keep_alive ≡ true
      → ping_due now c ≡ true
      → c.transport ≡ some tr
      → length out ≡ header_size
      → (pkt : List ℕ) × (datagrams (maintain k now out c).1 ≡ to_server tr pkt ∷ [])
        × (open_packet k pkt ≡ ok (record { flow_id = keep_alive_flow; payload = [] }))
        × ((maintain k now out c).0.last_ping ≡ some now)
  unfolding maintain ping
  maintain_ping now out c tr v on due e size =
      let (codec, pkt, sealed, opens, _, _) =
        open_packet-seal k c.codec out keep_alive_flow [] v.seeded (omega arith) (omega arith) in
      (pkt, ground arith, opens, ground arith)
