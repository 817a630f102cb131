-- ===== src/Udptun/Client/Steps.antt =====
-- The goroutines of the client, localLoop, transportLoop, maintain and supervise, as interleaved
-- critical sections, while one flow is not idle when maintain looks.
use xtaci_kcptun.Prelude.{
  ℕ, ◌+◌, ◌≤◌, ◌≡◌, refl, List, [], length, String, none, some, true, false, ◌&&◌,
}
use xtaci_kcptun.Prelude.Int.{pos, ltb_ℤ}
use xtaci_kcptun.Udptun.Codec.{header_size, keep_alive_flow, Crypto, IsSeeded, seal}
use xtaci_kcptun.Udptun.Codec.Frame.{seal-IsSeeded}
use xtaci_kcptun.Udptun.Table.{Table, flow_for, touch, lookup_flow, reap, is_idle}
use xtaci_kcptun.Udptun.Table.Valid.{flow_for_lem}
use xtaci_kcptun.Udptun.Table.Reap.{reap_lem}
use xtaci_kcptun.Udptun.Client.{Client, Transport, seconds, warn, ping_due}
use xtaci_kcptun.Udptun.Client.Relay.{IsRunning, HasFlow, flow_for-HasFlow}
use xtaci_kcptun.Udptun.Client.Maintain.{Keeps, same_table-Keeps, touched-Keeps, reap-HasFlow}

module _ {Addr : Type 0} (k : Crypto) (show : Addr → String) where
  -- Each step is one critical section, or one assignment to the field of a goroutine.
  pub data Step (id : ℕ) (c : Client Addr) : Client Addr → Type 0 where
    -- localLoop: a datagram over the limit, flowFor, and Seal under the id of a flow for one that fits
    counts : Step id c (record c { oversize = c.oversize + 1 })
    finds :
        (now : ℕ) (addr : Addr) (p : ℕ) (t : Table Addr)
        → flow_for show now addr c.table ≡ some (p, t)
        → Step id c (record c { table = t })
    seals :
        (out payload : List ℕ) (p : ℕ)
        → header_size + length payload ≤ c.cfg.max_packet
        → Step id c (record c { codec = (seal k c.codec out (c.table.flows p).id payload).0 })
    -- `touch` of a flow, by localLoop and transportLoop
    touches : (now p : ℕ) → Step id c (record c { table = touch now p c.table })
    -- `warn`, after a failed write to the transport and to the local socket
    warns_send : (now : ℕ) → Step id c (record c { send_err = (warn now c.send_err).0 })
    warns_reply : (now : ℕ) → Step id c (record c { reply_err = (warn now c.reply_err).0 })
    -- touchRecv, by transportLoop and supervise
    hears : (now : ℕ) → Step id c (record c { last_recv = now })
    -- maintain, which does not find the flow idle, and its ping when one is due
    reaps :
        (now : ℕ)
        → ((p : ℕ)
            → lookup_flow id c.table ≡ some p
            → is_idle (seconds c.cfg.idle) now (c.table.flows p) ≡ false)
        → Step id c (record c { table = reap (seconds c.cfg.idle) now c.table })
    pings :
        (now : ℕ) (out : List ℕ)
        → (ltb_ℤ (pos 0) c.cfg.keep_alive && ping_due now c) ≡ true
        → Step id c
            (record c { last_ping = some now; codec = (seal k c.codec out keep_alive_flow []).0 })
    -- supervise, which publishes a connection it has dialled
    connects : (tr : Transport Addr) → Step id c (record c { transport = some tr })
    -- supervise, when transportLoop has returned
    forgets : Step id c (record c { transport = none })

  pub data Steps (id : ℕ) (c : Client Addr) : Client Addr → Type 0 where
    done : Steps id c c
    more : {d e : Client Addr} → Steps id c d → Step id d e → Steps id c e

  -- A client that runs and knows a flow for an address.
  pub record Knows (addr : Addr) (id : ℕ) (c : Client Addr) : Type 0 where
    pub running : IsRunning show c
    pub has_flow : HasFlow show addr id c.table

  Keeps-Knows :
      (addr : Addr) (id : ℕ) {c d : Client Addr}
      → Knows addr id c
      → Keeps k show c d
      → Knows addr id d
  Keeps-Knows addr id h r = record { running = r.running; has_flow = r.has_flow addr id h.has_flow }

  -- A step that leaves the table and the settings.
  noted-Knows :
      (addr : Addr) (id : ℕ) {c d : Client Addr}
      → Knows addr id c
      → d.table ≡ c.table
      → IsSeeded d.codec
      → d.cfg ≡ c.cfg
      → Knows addr id d
  noted-Knows addr id {c} {d} h e seeded g =
      Keeps-Knows addr id h (same_table-Keeps k show c d h.running e seeded g)

  Step-Knows :
      (addr : Addr) (id : ℕ) {c d : Client Addr} → Knows addr id c → Step id c d → Knows addr id d
  Step-Knows addr id h counts = noted-Knows addr id h refl h.running.seeded refl
  Step-Knows addr id {c} h (finds now other p t found) =
      let v = h.running in
      let o = flow_for_lem show now other c.table v.table_valid found in
      record {
        running = record { table_valid = o.valid; seeded = v.seeded };
        has_flow = flow_for-HasFlow show addr other id p c.table t v.table_valid o h.has_flow;
      }
  Step-Knows addr id {c} h (seals out payload p fits) =
      noted-Knows addr id h refl
        (seal-IsSeeded k c.codec out (c.table.flows p).id payload h.running.seeded) refl
  Step-Knows addr id {c} {d} h (touches now p) =
      Keeps-Knows addr id h (touched-Keeps k show now p c d h.running refl refl refl)
  Step-Knows addr id h (warns_send now) = noted-Knows addr id h refl h.running.seeded refl
  Step-Knows addr id h (warns_reply now) = noted-Knows addr id h refl h.running.seeded refl
  Step-Knows addr id h (hears now) = noted-Knows addr id h refl h.running.seeded refl
  Step-Knows addr id {c} h (reaps now awake) =
      let v = h.running in
      record {
        running = record {
          table_valid = (reap_lem (seconds c.cfg.idle) now show c.table v.table_valid).valid;
          seeded = v.seeded;
        };
        has_flow =
            reap-HasFlow k show (seconds c.cfg.idle) now addr id c.table v.table_valid awake
              h.has_flow;
      }
  Step-Knows addr id {c} h (pings now out due) =
      noted-Knows addr id h refl (seal-IsSeeded k c.codec out keep_alive_flow [] h.running.seeded)
        refl
  Step-Knows addr id h (connects tr) = noted-Knows addr id h refl h.running.seeded refl
  Step-Knows addr id h forgets = noted-Knows addr id h refl h.running.seeded refl

  pub Steps-Knows :
      (addr : Addr) (id : ℕ) {c d : Client Addr} → Knows addr id c → Steps id c d → Knows addr id d
  Steps-Knows addr id h done = h
  Steps-Knows addr id h (more st step) = Step-Knows addr id (Steps-Knows addr id h st) step
