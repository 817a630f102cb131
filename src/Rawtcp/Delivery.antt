-- ===== src/Rawtcp/Delivery.antt =====
-- rawtcp/conn_linux.go: what two connections do together, one calling WriteTo and the other capturing
-- the segments.
use xtaci_kcptun.Prelude.{
  ℕ, ◌^◌, ◌<◌, ◌≤◌, ◌≡◌, String, List, [], ◌∷◌, ◌++◌, map, length, Option, some, true, false,
  lookup, assign, lookup-assign, string_eq, arith, ap, refl,
}
use xtaci_kcptun.Rawtcp.{
  Segment, Flow, Conn, Message, Target, Written, write_to, write_flow, write_resolved, capture,
  track, header, advance, flow_at, lock_flow,
}
use xtaci_kcptun.Rawtcp.Stream.{track_in_order}
use xtaci_kcptun.Rawtcp.Receive.{IpFamily, read_segment, max_payload, read_segment-header}

-- The writer has heard from its peer, and the reader acknowledges just what the writer sends next.
pub record InStep (addr src : String) (to : Target) (c d : Conn) : Type 0 where
  pub alive : c.died ≡ false
  pub flow : Flow
  pub held : lookup addr c.flows ≡ some flow
  pub handle : ℕ
  pub heard : flow.handle ≡ some handle
  pub peer : Flow
  pub peer_held : lookup src d.flows ≡ some peer
  pub conn : ℕ
  pub accepted : peer.conn ≡ some conn
  pub in_range : peer.ack < 2 ^ 32
  pub acknowledged : flow.seq ≡ peer.ack
  pub port : to.port ≡ d.port

abbrev pub segments : Written → List Segment
segments w = map (λ x. x.segment) w.sent

-- The captures of some segments, each read into the buffer, and what they leave for `ReadFrom`.
abbrev pub capture_all : IpFamily → ℕ → ℕ → String → List Segment → Conn → Conn × List Message
capture_all ip now raw src [] d = (d, [])
capture_all ip now raw src (s ∷ ss) d =
    let (d, here) = capture now raw src (read_segment ip s) d in
    let (d, there) = capture_all ip now raw src ss d in (d, here ++ there)

-- Payloads written one after the other, each with its time, each captured before the next.
abbrev pub transfer_all :
    IpFamily
    → (String → Option Target)
    → String
    → String
    → ℕ
    → List (ℕ × List ℕ)
    → Conn
    → Conn
    → (Conn × Conn) × List Message
transfer_all ip resolve addr src raw [] c d = ((c, d), [])
transfer_all ip resolve addr src raw ((now, p) ∷ ps) c d =
    let w = write_to resolve now false true true p addr c in
    let (d, here) = capture_all ip now raw src (segments w) d in
    let (both, there) = transfer_all ip resolve addr src raw ps w.conn d in (both, here ++ there)

-- No payload is empty or longer than the buffer: an empty one is not delivered, a long one is cut.
abbrev pub AllFit : IpFamily → List (ℕ × List ℕ) → Type 0
AllFit ip [] = Unit {0}
AllFit ip ((now, p) ∷ ps) = (0 < length p) × (length p ≤ max_payload ip) × AllFit ip ps

module _ (ip : IpFamily) (resolve : String → Option Target) (addr src : String) (raw : ℕ)
    (to : Target) (resolved : resolve addr ≡ some to) where
  pub write_to-alive :
      (now : ℕ) (p : List ℕ) (c d : Conn) (v : InStep addr src to c d)
      → write_to resolve now false true true p addr c
        ≡ write_flow now true true p addr to c v.flow (some v.handle)
  unfolding write_to write_resolved
  write_to-alive now p c d v = ground (arith, resolved, v.alive, v.held, v.heard)

  flow_at_lem :
      (now : ℕ) (key : String) (e : Flow) (c : Conn)
      → lookup key c.flows ≡ some e
      → flow_at now key c ≡ e
  flow_at_lem now key e c held = rw (flow_at, held)

  pub segments-write_flow :
      (now : ℕ) (p : List ℕ) (c : Conn) (e : Flow) (h : ℕ)
      → segments (write_flow now true true p addr to c e (some h))
        ≡ header now c.port to.port p e ∷ []
  unfolding write_flow
  segments-write_flow now p c e h = refl

  pub conn-write_flow :
      (now : ℕ) (p : List ℕ) (c : Conn) (e : Flow) (h : ℕ)
      → (write_flow now true true p addr to c e (some h)).conn ≡ lock_flow now addr (advance p) c
  unfolding write_flow
  conn-write_flow now p c e h = refl

  pub lock_flow-held :
      (now : ℕ) (f : Flow → Flow) (key : String) (e : Flow) (c : Conn)
      → lookup key c.flows ≡ some e
      → lock_flow now key f c ≡ record c { flows = assign key (f e) c.flows }
  unfolding lock_flow
  lock_flow-held now f key e c held =
      ap (λ x. record c { flows = assign key (f x) c.flows }) (flow_at_lem now key e c held)

  pub capture_lem :
      (now : ℕ) (p : List ℕ) (c d : Conn) (v : InStep addr src to c d)
      → 0 < length p
      → capture now raw src (header now c.port to.port p v.flow) d ≡ (
        record d {
          flows = assign src (track now raw (header now c.port to.port p v.flow) v.peer) d.flows;
        },
        record { bts = p; addr = src } ∷ [],
      )
  unfolding capture header lock_flow
  capture_lem now p c d v h = ground (arith, v.port, v.peer_held, v.accepted)

  conn-track : (now : ℕ) (s : Segment) (e : Flow) → (track now raw s e).conn ≡ e.conn
  unfolding track
  conn-track now s e = refl

  InStep-transfer :
      (now : ℕ) (p : List ℕ) (c d : Conn) (v : InStep addr src to c d)
      → InStep addr src to
          (record c { flows = assign addr (advance p v.flow) c.flows })
          (record d {
            flows = assign src (track now raw (header now c.port to.port p v.flow) v.peer) d.flows;
          })
  unfolding header advance
  InStep-transfer now p c d v =
      let s = header now c.port to.port p v.flow in
      let step =
        track_in_order now raw s v.peer (ground (arith, v.in_range, v.acknowledged))
          v.acknowledged in
      record {
        alive = v.alive;
        flow = advance p v.flow;
        held = ground (
          arith,
          lookup-assign addr addr (advance p v.flow) c.flows,
          string_eq.beq_iff addr addr,
        );
        handle = v.handle;
        heard = v.heard;
        peer = track now raw s v.peer;
        peer_held = ground (
          arith,
          lookup-assign src src (track now raw s v.peer) d.flows,
          string_eq.beq_iff src src,
        );
        conn = v.conn;
        accepted = ground (arith, conn-track now s v.peer);
        in_range = ground (arith, step);
        acknowledged = ground (arith, step, v.acknowledged);
        port = v.port;
      }

  -- Payloads that are not empty and fit the peer's buffer, 1996 bytes on IPv4 and 2016 on IPv6, written to a peer that was heard from and
  -- captured there in order, are what the peer's reader gets, under the writer's address and in
  -- order; and the two stay in step, so that the peer's flow acknowledges exactly what the writer
  -- sends next.
  pub transfer_all_lem :
      (ps : List (ℕ × List ℕ)) (c d : Conn)
      → InStep addr src to c d
      → AllFit ip ps
      → ((transfer_all ip resolve addr src raw ps c d).1
          ≡ map (λ (p : ℕ × List ℕ). record { bts = p.1; addr = src }) ps)
        × InStep addr src to
            (transfer_all ip resolve addr src raw ps c d).0.0
            (transfer_all ip resolve addr src raw ps c d).0.1
  transfer_all_lem [] c d v h = (refl, v)
  transfer_all_lem ((now, p) ∷ ps) c d v (h, short, hs) =
      let sent = write_to-alive now p c d v in
      let sent_segments = segments-write_flow now p c v.flow v.handle in
      let wrote = conn-write_flow now p c v.flow v.handle in
      let held = lock_flow-held now (advance p) addr v.flow c v.held in
      let read = read_segment-header ip now c.port to.port p v.flow short in
      let here = capture_lem now p c d v h in
      let rest = transfer_all_lem ps _ _ (InStep-transfer now p c d v) hs in
      (
        rw (sent, sent_segments, wrote, held, read, here, rest.0),
        rw (sent, sent_segments, wrote, held, read, here) rest.1,
      )
