-- ===== src/Udptun/Client/Handlers.antt =====
-- udptun/client.go: what localLoop, transportLoop and maintain do in one pass, as critical sections.
use xtaci_kcptun.Prelude.{
  ℕ, ◌+◌, ◌≡◌, refl, sym, subst, List, [], length, String, some, Bool, arith, ltb, ◌==◌, ◌&&◌,
  Result, ok, err, Bool-cases, Option-cases, inl, inr,
}
use xtaci_kcptun.Prelude.Int.{pos, ltb_ℤ}
use xtaci_kcptun.Udptun.Codec.{
  header_size, keep_alive_flow, Crypto, Codec, CodecError, Datagram, seal, open_packet,
}
use xtaci_kcptun.Udptun.Table.{flow_for, touch, lookup_flow, reap}
use xtaci_kcptun.Udptun.Client.{
  Client, Output, seconds, send, send_sealed, local_loop, deliver, receive, transport_loop, ping,
  ping_due, maintain,
}
use xtaci_kcptun.Udptun.Client.Later.{IsAwake, Later, now_on, datagram, packet, tick}
use xtaci_kcptun.Udptun.Client.Steps.{Step, Steps, done, more}

module _ {Addr : Type 0} (k : Crypto) (show : Addr → String) (id : ℕ) where
  sent-Steps :
      (now : ℕ) (sent : Bool) (pkt : List ℕ) {c d : Client Addr}
      → Steps k show id c d
      → Steps k show id c (send now sent pkt d).0
  unfolding send
  sent-Steps now sent pkt {c} {d} st = elim (Option-cases d.transport) [
    | inl missing ↦ subst (Steps k show id c) (ground arith) st
    | inr (uplink, up) ↦ elim (Bool-cases sent) [
      | inl fine ↦ subst (Steps k show id c) (ground arith) st
      | inr failed ↦ subst (Steps k show id c) (ground arith) (Steps.more st (Step.warns_send now))
    ]
  ]

  send_sealed-Steps :
      (now : ℕ) (sent : Bool) {c : Client Addr} (d : Client Addr)
      (x : Codec × Result CodecError (List ℕ))
      → Steps k show id c (record d { codec = x.0 })
      → Steps k show id c (send_sealed now sent d x).0
  unfolding send_sealed
  send_sealed-Steps now sent d (codec, ok pkt) st = sent-Steps now sent pkt st
  send_sealed-Steps now sent d (codec, err e) st = st

  local_loop-Steps :
      (now : ℕ) (sent : Bool) (out payload : List ℕ) (addr : Addr) (c d : Client Addr)
      {outs : List (Output Addr)}
      → local_loop k show now sent out payload addr c ≡ some (d, outs)
      → Steps k show id c d
  unfolding local_loop
  local_loop-Steps now sent out payload addr c d e =
      elim (Bool-cases (ltb c.cfg.max_packet (header_size + length payload))) [
        | inl over ↦ subst (Steps k show id c) (ground arith) (Steps.more Steps.done Step.counts)
        | inr fits ↦ elim (Option-cases (flow_for show now addr c.table)) [
          | inl stuck ↦ absurd (ground arith)
          | inr ((p, t), found) ↦ subst (Steps k show id c) (ground arith) (
              send_sealed-Steps now sent (record c { table = touch now p t })
                (seal k c.codec out ((touch now p t).flows p).id payload)
                (Steps.more
                  (Steps.more (Steps.more Steps.done (Step.finds now addr p t found))
                    (Step.touches now p))
                  (Step.seals out payload p (ground (arith, fits)))))
        ]
      ]

  deliver-Steps :
      (now : ℕ) (sent : Bool) (d : Datagram) {c e : Client Addr}
      → Steps k show id c e
      → Steps k show id c (deliver now sent d e).0
  unfolding deliver
  deliver-Steps now sent d {c} {e} st = elim (Option-cases (lookup_flow d.flow_id e.table)) [
    | inl missing ↦ rw (missing, deliver) st
    | inr (p, found) ↦ elim (Bool-cases sent) [
      | inl fine ↦ subst (Steps k show id c) (ground arith) (Steps.more st (Step.touches now p))
      | inr failed ↦
          subst (Steps k show id c) (ground arith)
            (Steps.more (Steps.more st (Step.touches now p)) (Step.warns_reply now))
    ]
  ]

  receive-Steps :
      (now : ℕ) (sent : Bool) {c e : Client Addr} (r : Result CodecError Datagram)
      → Steps k show id c e
      → Steps k show id c (receive now sent e r).0
  unfolding receive
  receive-Steps now sent (err x) st = st
  receive-Steps now sent (ok d) st = elim (Bool-cases (d.flow_id == keep_alive_flow)) [
    | inl pong ↦ rw pong st
    | inr flow ↦ rw flow (deliver-Steps now sent d st)
  ]

  transport_loop-Steps :
      (now : ℕ) (sent : Bool) (buf : List ℕ) (c : Client Addr)
      → Steps k show id c (transport_loop k now sent buf c).0
  unfolding transport_loop
  transport_loop-Steps now sent buf c =
      receive-Steps now sent (open_packet k buf) (Steps.more Steps.done (Step.hears now))

  ping-state :
      (c : Client Addr) (x : Codec × Result CodecError (List ℕ))
      → (ping c x).0 ≡ record c { codec = x.0 }
  unfolding ping
  ping-state c (codec, ok pkt) = ground arith
  ping-state c (codec, err e) = refl

  maintain-Steps :
      (now : ℕ) (out : List ℕ) (c : Client Addr)
      → IsAwake k show id now c
      → Steps k show id c (maintain k now out c).0
  unfolding maintain
  maintain-Steps now out c awake =
      let c' : Client Addr = record c { table = reap (seconds c.cfg.idle) now c.table } in
      let st : Steps k show id c c' = Steps.more Steps.done (Step.reaps now awake) in
      elim (Bool-cases (ltb_ℤ (pos 0) c.cfg.keep_alive && ping_due now c')) [
        | inr quiet ↦ rw quiet st
        | inl due ↦ rw due (
            subst (Steps k show id c)
              (sym (
                ping-state (record c' { last_ping = some now })
                  (seal k c.codec out keep_alive_flow [])))
              (Steps.more st (Step.pings now out due)))
      ]

  Steps-append :
      {c d e : Client Addr} → Steps k show id c d → Steps k show id d e → Steps k show id c e
  Steps-append st done = st
  Steps-append st (more later step) = Steps.more (Steps-append st later) step

  -- Passes of localLoop, transportLoop and maintain, one after the other, none of which finds the flow
  -- idle, are a sequence of the critical sections that interleave.
  pub Later-Steps : {c d : Client Addr} → Later k show id c d → Steps k show id c d
  Later-Steps now_on = Steps.done
  Later-Steps (datagram {d} now sent out payload addr e outs l stepped) =
      Steps-append (Later-Steps l) (local_loop-Steps now sent out payload addr d e stepped)
  Later-Steps (packet {d} now sent buf l) =
      Steps-append (Later-Steps l) (transport_loop-Steps now sent buf d)
  Later-Steps (tick {d} now out l awake) =
      Steps-append (Later-Steps l) (maintain-Steps now out d awake)
