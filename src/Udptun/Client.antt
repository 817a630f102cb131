-- ===== src/Udptun/Client.antt =====
-- udptun/client.go: the three loops of the client over its shared state. Each handler is one pass of
-- a loop: it takes the time, what the loop received and how a write ended, and returns the new state
-- with the datagrams sent and the lines logged.
pub mod Relay
pub mod Maintain
pub mod Later
pub mod Steps
pub mod Handlers
use xtaci_kcptun.Prelude.{
  ℕ, ◌+◌, ◌-◌, ◌*◌, List, [], ◌∷◌, length, String, Option, none, some, Bool, true, false, ◌&&◌, not,
  ltb, ◌==◌, if◌then◌else◌, Result, ok, err,
}
use xtaci_kcptun.Prelude.Int.{ℤ, pos, negsuc, sub_ℕ, ltb_ℤ}
use xtaci_kcptun.Udptun.Codec.{
  header_size, keep_alive_flow, Crypto, Codec, CodecError, Datagram, seal, open_packet,
}
use xtaci_kcptun.Udptun.Table.{Table, flow_for, touch, lookup_flow, reap}

abbrev pub second : ℕ
second = 1_000_000_000

-- `time.Duration(n) * time.Second`
abbrev pub seconds : ℤ → ℤ
seconds (pos n) = pos (n * second)
seconds (negsuc n) = negsuc ((n + 1) * second - 1)

pub record ClientConfig : Type 0 where
  pub max_packet : ℕ
  pub idle : ℤ
  pub keep_alive : ℤ

-- A connection toward the server, by its handle, and the server's address on it.
pub record Transport (Addr : Type 0) : Type 0 where
  pub conn : ℕ
  pub remote : Addr

pub record Client (Addr : Type 0) : Type 0 where
  pub cfg : ClientConfig
  pub codec : Codec
  -- `conn` and `remote`, which are always set together
  pub transport : Option (Transport Addr)
  pub last_recv : ℕ
  pub table : Table Addr
  pub oversize : ℕ
  pub send_err : ℕ
  pub reply_err : ℕ
  -- `maintain`'s `lastPing`; `none` is the zero time
  pub last_ping : Option ℕ

pub data Output (Addr : Type 0) : Type 0 where
  to_server : Transport Addr → List ℕ → Output Addr
  to_local : List ℕ → Addr → Output Addr
  log_oversize log_send_error log_reply_error : Output Addr

-- `warn`: a line unless the last one is less than a second old. Returns the time of the last line.
unfoldable pub warn : ℕ → ℕ → ℕ × Bool
warn now last = if ltb_ℤ (sub_ℕ now last) (pos second) then (last, false) else (now, true)

abbrev pub when {ℓ} : {A : Type ℓ} → Bool → A → List A
when true a = a ∷ []
when false a = []

-- The datagrams among the outputs.
abbrev pub datagrams : {Addr : Type 0} → List (Output Addr) → List (Output Addr)
datagrams [] = []
datagrams (to_server tr pkt ∷ outs) = to_server tr pkt ∷ datagrams outs
datagrams (to_local payload addr ∷ outs) = to_local payload addr ∷ datagrams outs
datagrams (log_oversize ∷ outs) = datagrams outs
datagrams (log_send_error ∷ outs) = datagrams outs
datagrams (log_reply_error ∷ outs) = datagrams outs

module _ {Addr : Type 0} where
  -- What `localLoop` does with a sealed datagram.
  unfoldable pub send : ℕ → Bool → List ℕ → Client Addr → Client Addr × List (Output Addr)
  unfolding warn
  send now sent pkt c = elim c.transport [
    | none ↦ (c, [])
    | some tr ↦
        if sent
        then (c, to_server tr pkt ∷ [])
        else (let (last, logged) = warn now c.send_err in
            (record c { send_err = last }, to_server tr pkt ∷ when logged log_send_error))
  ]

  unfoldable pub send_sealed :
      ℕ → Bool → Client Addr → Codec × Result CodecError (List ℕ) → Client Addr × List (Output Addr)
  unfolding send
  send_sealed now sent c (codec, ok pkt) = send now sent pkt (record c { codec = codec })
  send_sealed now sent c (codec, err e) = (record c { codec = codec }, [])

  -- `transportLoop` on a flow's datagram.
  unfoldable pub deliver : ℕ → Bool → Datagram → Client Addr → Client Addr × List (Output Addr)
  unfolding warn
  deliver now sent d c = elim (lookup_flow d.flow_id c.table) [
    | none ↦ (c, [])
    | some p ↦
        let c = record c { table = touch now p c.table } in
        let reply = to_local d.payload (c.table.flows p).addr in
        if sent
        then (c, reply ∷ [])
        else (let (last, logged) = warn now c.reply_err in
            (record c { reply_err = last }, reply ∷ when logged log_reply_error))
  ]

  unfoldable pub receive :
      ℕ → Bool → Client Addr → Result CodecError Datagram → Client Addr × List (Output Addr)
  unfolding deliver
  receive now sent c (err e) = (c, [])
  receive now sent c (ok d) = if d.flow_id == keep_alive_flow then (c, []) else deliver now sent d c

  abbrev pub ping_due : ℕ → Client Addr → Bool
  ping_due now c = elim c.last_ping [
    | none ↦ true
    | some last ↦ not (ltb_ℤ (sub_ℕ now last) (seconds c.cfg.keep_alive))
  ]

  unfoldable pub ping :
      Client Addr → Codec × Result CodecError (List ℕ) → Client Addr × List (Output Addr)
  ping c (codec, err e) = (record c { codec = codec }, [])
  ping c (codec, ok pkt) = elim c.transport [
    | none ↦ (record c { codec = codec }, [])
    | some tr ↦ (record c { codec = codec }, to_server tr pkt ∷ [])
  ]

module _ {Addr : Type 0} (k : Crypto) where
  -- `localLoop` on a datagram `payload` from `addr`, with `out` as the buffer to seal into.
  -- `none` stands for a search for a flow id that never ends.
  unfoldable pub local_loop :
      (Addr → String)
      → ℕ
      → Bool
      → List ℕ
      → List ℕ
      → Addr
      → Client Addr
      → Option (Client Addr × List (Output Addr))
  unfolding send_sealed
  local_loop show now sent out payload addr c =
      if ltb c.cfg.max_packet (header_size + length payload)
      then some (record c { oversize = c.oversize + 1 }, when (c.oversize + 1 == 1) log_oversize)
      else elim (flow_for show now addr c.table) [
        | none ↦ none
        | some (p, t) ↦
            let t = touch now p t in
            some (
              send_sealed now sent (record c { table = t })
                (seal k c.codec out (t.flows p).id payload))
      ]

  -- `transportLoop` on what it read from the transport.
  unfoldable pub transport_loop : ℕ → Bool → List ℕ → Client Addr → Client Addr × List (Output Addr)
  unfolding receive
  transport_loop now sent buf c =
      receive now sent (record c { last_recv = now }) (open_packet k buf)

  -- `maintain` on a tick: reap, then ping if it is time; `out` has room for a header.
  unfoldable pub maintain : ℕ → List ℕ → Client Addr → Client Addr × List (Output Addr)
  unfolding ping
  maintain now out c =
      let c = record c { table = reap (seconds c.cfg.idle) now c.table } in
      if ltb_ℤ (pos 0) c.cfg.keep_alive && ping_due now c
      then ping (record c { last_ping = some now }) (seal k c.codec out keep_alive_flow [])
      else (c, [])
