-- ===== src/Rawtcp/Linked.antt =====
-- rawtcp/conn_linux.go: two connections that send payloads to each other, each captured by the other.
use xtaci_kcptun.Prelude.{
  ℕ, ◌^◌, ◌≤◌, ◌<◌, ◌≡◌, refl, sym, String, List, [], ◌∷◌, length, Option, some, true, false,
  lookup, lookup-assign, string_eq, assign, arith,
}
use xtaci_kcptun.Rawtcp.{Segment, Flow, Conn, Message, Target, write_to, track, header, advance}
use xtaci_kcptun.Rawtcp.Stream.{track_in_order}
use xtaci_kcptun.Rawtcp.Receive.{IpFamily, max_payload, read_segment-header}
use xtaci_kcptun.Rawtcp.Delivery.{
  InStep, segments, capture_all, write_to-alive, segments-write_flow, conn-write_flow,
  lock_flow-held, capture_lem,
}

-- `c` holds a flow for `addr`, which is `d`, and `d` one for `src`, which is `c`. Both have been heard
-- and accepted, and each acknowledges what the other sends next. `to` and `back` are what the two
-- addresses resolve to.
pub record Linked (addr src : String) (to back : Target) (c d : Conn) : Type 0 where
  pub alive : c.died ≡ false
  pub peer_alive : d.died ≡ false
  pub flow : Flow
  pub held : lookup addr c.flows ≡ some flow
  pub peer : Flow
  pub peer_held : lookup src d.flows ≡ some peer
  pub handle : ℕ
  pub heard : flow.handle ≡ some handle
  pub peer_handle : ℕ
  pub peer_heard : peer.handle ≡ some peer_handle
  pub conn : ℕ
  pub accepted : flow.conn ≡ some conn
  pub peer_conn : ℕ
  pub peer_accepted : peer.conn ≡ some peer_conn
  pub in_range : flow.ack < 2 ^ 32
  pub peer_in_range : peer.ack < 2 ^ 32
  pub acknowledged : flow.seq ≡ peer.ack
  pub peer_acknowledged : peer.seq ≡ flow.ack
  pub port : to.port ≡ d.port
  pub peer_port : back.port ≡ c.port

-- A payload that is written on `c` and captured on `d`, and what `d`'s reader gets.
abbrev pub transfer :
    IpFamily
    → (String → Option Target)
    → String
    → String
    → ℕ
    → ℕ
    → List ℕ
    → Conn
    → Conn
    → (Conn × Conn) × List Message
transfer ip resolve addr src raw now p c d =
    let w = write_to resolve now false true true p addr c in
    let (d, ms) = capture_all ip now raw src (segments w) d in ((w.conn, d), ms)

-- The same connections, seen from the other side.
pub turn :
    {addr src : String} {to back : Target} {c d : Conn}
    → Linked addr src to back c d
    → Linked src addr back to d c
turn l = record {
  alive = l.peer_alive;
  peer_alive = l.alive;
  flow = l.peer;
  held = l.peer_held;
  peer = l.flow;
  peer_held = l.held;
  handle = l.peer_handle;
  heard = l.peer_heard;
  peer_handle = l.handle;
  peer_heard = l.heard;
  conn = l.peer_conn;
  accepted = l.peer_accepted;
  peer_conn = l.conn;
  peer_accepted = l.accepted;
  in_range = l.peer_in_range;
  peer_in_range = l.in_range;
  acknowledged = l.peer_acknowledged;
  peer_acknowledged = l.acknowledged;
  port = l.peer_port;
  peer_port = l.port;
}

module _ (ip : IpFamily) (resolve : String → Option Target) (addr src : String) (to back : Target)
    (resolved : resolve addr ≡ some to) (raw : ℕ) where
  abbrev Linked-InStep : (c d : Conn) → Linked addr src to back c d → InStep addr src to c d
  Linked-InStep c d l = record {
    alive = l.alive;
    flow = l.flow;
    held = l.held;
    handle = l.handle;
    heard = l.heard;
    peer = l.peer;
    peer_held = l.peer_held;
    conn = l.peer_conn;
    accepted = l.peer_accepted;
    in_range = l.peer_in_range;
    acknowledged = l.acknowledged;
    port = l.port;
  }

  -- The connections after `p` has gone from `c` to `d`.
  abbrev writer : List ℕ → Flow → Conn → Conn
  writer p e c = record c { flows = assign addr (advance p e) c.flows }

  abbrev reader : ℕ → Segment → Flow → Conn → Conn
  reader now s e d = record d { flows = assign src (track now raw s e) d.flows }

  tracked :
      (now : ℕ) (p : List ℕ) (c d : Conn) (l : Linked addr src to back c d)
      → let s = header now c.port to.port p l.flow in
        let e = track now raw s l.peer in
        (e.ack ≡ (advance p l.flow).seq)
        × (e.seq ≡ l.flow.ack)
        × (e.handle ≡ some raw)
        × (e.conn ≡ some l.peer_conn)
  unfolding header advance track
  tracked now p c d l =
      let s = header now c.port to.port p l.flow in
      let step =
        track_in_order now raw s l.peer (ground (arith, l.peer_in_range, l.acknowledged))
          l.acknowledged in
      (ground (arith, step, l.acknowledged), refl, refl, l.peer_accepted)

  Linked-transferred :
      (now : ℕ) (p : List ℕ) (c d : Conn) (l : Linked addr src to back c d)
      → Linked addr src to back
          (writer p l.flow c)
          (reader now (header now c.port to.port p l.flow) l.peer d)
  Linked-transferred now p c d l =
      let s = header now c.port to.port p l.flow in
      let (ack, seq, heard, accepted) = tracked now p c d l in
      record {
        alive = l.alive;
        peer_alive = l.peer_alive;
        flow = advance p l.flow;
        held = ground (
          arith,
          lookup-assign addr addr (advance p l.flow) c.flows,
          string_eq.beq_iff addr addr,
        );
        peer = track now raw s l.peer;
        peer_held = ground (
          arith,
          lookup-assign src src (track now raw s l.peer) d.flows,
          string_eq.beq_iff src src,
        );
        handle = l.handle;
        heard = unfold advance in l.heard;
        peer_handle = raw;
        peer_heard = heard;
        conn = l.conn;
        accepted = unfold advance in l.accepted;
        peer_conn = l.peer_conn;
        peer_accepted = accepted;
        in_range = unfold advance in l.in_range;
        peer_in_range = unfold advance in ground (arith, ack);
        acknowledged = sym ack;
        peer_acknowledged = unfold advance in seq;
        port = l.port;
        peer_port = l.peer_port;
      }

  -- A payload that is not empty and fits the peer's buffer is what the peer's reader gets, as one
  -- message under the writer's address, and the connections stay linked.
  pub transfer_lem :
      (now : ℕ) (p : List ℕ) (c d : Conn)
      → Linked addr src to back c d
      → 0 < length p
      → length p ≤ max_payload ip
      → ((transfer ip resolve addr src raw now p c d).1 ≡ record { bts = p; addr = src } ∷ [])
        × Linked addr src to back
            (transfer ip resolve addr src raw now p c d).0.0
            (transfer ip resolve addr src raw now p c d).0.1
  transfer_lem now p c d l full short =
      let v = Linked-InStep c d l in
      let sent = write_to-alive ip resolve addr src raw to resolved now p c d v in
      let sent_segments =
        segments-write_flow ip resolve addr src raw to resolved now p c v.flow v.handle in
      let wrote = conn-write_flow ip resolve addr src raw to resolved now p c v.flow v.handle in
      let held =
        lock_flow-held ip resolve addr src raw to resolved now (advance p) addr v.flow c v.held in
      let read = read_segment-header ip now c.port to.port p v.flow short in
      let here = capture_lem ip resolve addr src raw to resolved now p c d v full in
      (
        rw (sent, sent_segments, read, here) refl,
        rw (sent, sent_segments, wrote, held, read, here) (Linked-transferred now p c d l),
      )
