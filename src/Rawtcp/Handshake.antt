-- ===== src/Rawtcp/Handshake.antt =====
-- rawtcp/conn_linux.go: how two connections come to be linked. The TCP stack makes the handshake; the
-- raw sockets see its segments, and the listener accepts the connection at any time beside them.
pub mod Hearing
use xtaci_kcptun.Prelude.{
  ℕ, zero, suc, ◌+◌, ◌-◌, ◌%◌, ◌^◌, ◌<◌, ◌≡◌, refl, sym, ◌∙◌, ap, subst, String, List, [], ◌∷◌,
  take, Option, none, some, Bool, true, false, not, ◌&&◌, ◌||◌, ◌==◌, if◌then◌else◌, lookup,
  lookup-assign, assign, delete, string_eq, arith, Option-cases, inl, inr,
}
use xtaci_kcptun.Rawtcp.{
  Segment, Flow, Conn, Target, lock_flow, next_seq, track, capture, new_flow, flow_at, dialled,
}
use xtaci_kcptun.Rawtcp.Receive.{IpFamily, read_segment}
use xtaci_kcptun.Rawtcp.Lifetime.{accept, Outcome, returns, Effect, close, remove_elem}
use xtaci_kcptun.Rawtcp.Linked.{Linked}
use xtaci_kcptun.Rawtcp.Open.{
  DialAnswers, dial, dial_raw, dial_tcp, dial_with, close_and_fail, unlisted,
}
use xtaci_kcptun.Rawtcp.Handshake.Hearing.{
  IsHandshake, Knows, accept-Knows, hears_syn, hears_syn_ack, hears_ack, Knows-flow,
}

-- The connection that `Dial` returns.
abbrev opened : ℕ → DialAnswers → ℕ → ℕ → Conn
opened now a raw t =
    record (lock_flow now a.remote (λ e. record e { conn = some t })
      (unlisted (dialled t) a.port (raw ∷ []))) { elem_in_list = some a.elem_in_list }

opened-Knows :
    (now : ℕ) (a : DialAnswers) (raw t : ℕ)
    → Knows a.remote a.port (some t) none 0 0 (opened now a raw t)
unfolding lock_flow lookup assign delete
opened-Knows now a raw t = ground (arith, string_eq.beq_iff a.remote a.remote)

dial-opened :
    (now : ℕ) (a : DialAnswers) (c : Conn) (effects : List Effect) (raw t : ℕ)
    → a.raw ≡ some raw
    → a.tcp ≡ some t
    → dial now a ≡ returns (some c) effects
    → opened now a raw t ≡ c
unfolding dial dial_raw dial_tcp dial_with close remove_elem
dial-opened now a c effects raw t r made e = ground arith

dial-Knows :
    (now : ℕ) (a : DialAnswers) (c : Conn) (effects : List Effect)
    → dial now a ≡ returns (some c) effects
    → (t : ℕ) × Knows a.remote a.port (some t) none 0 0 c
unfolding dial dial_raw dial_tcp
dial-Knows now a c effects e = elim (Option-cases a.raw) [
  | inl no_raw ↦ absurd (ground arith)
  | inr (raw, r) ↦ elim (Option-cases a.tcp) [
    | inl none_made ↦ absurd (ground arith)
    | inr (t, made) ↦ (
      t,
      subst (Knows a.remote a.port (some t) none 0 0) (dial-opened now a c effects raw t r made e)
          (opened-Knows now a raw t),
    )
  ]
]

-- When the listener's accept loop runs beside the captures of the SYN and the ACK.
pub data Order : Type 0 where
  before between after : Order

-- The listener through a handshake with `src`; `t` is the accepted connection.
abbrev pub greeted : IpFamily → Order → ℕ → ℕ → String → ℕ → Segment → Segment → Conn → Conn
greeted ip before now raw src t syn ack d =
    (capture now raw src (read_segment ip ack)
      (capture now raw src (read_segment ip syn) (accept now true src t d).0).0).0
greeted ip between now raw src t syn ack d =
    (capture now raw src (read_segment ip ack)
      (accept now true src t (capture now raw src (read_segment ip syn) d).0).0).0
greeted ip after now raw src t syn ack d =
    (accept now true src t
      (capture now raw src (read_segment ip ack)
        (capture now raw src (read_segment ip syn) d).0).0).0

module _ (ip : IpFamily) (x y now raw : ℕ) (syn syn_ack ack : Segment)
    (h : IsHandshake x y syn syn_ack ack) (src : String) (t : ℕ) (d : Conn) where
  fresh-Knows : d.died ≡ false → lookup src d.flows ≡ none → Knows src d.port none none 0 0 d
  fresh-Knows alive unknown = ground arith

  greeted-Knows :
      (order : Order)
      → d.died ≡ false
      → lookup src d.flows ≡ none
      → syn.dst_port ≡ d.port
      → ack.dst_port ≡ d.port
      → Knows src d.port
          (some t)
          (some raw)
          ((y + 1) % 2 ^ 32)
          ((x + 1) % 2 ^ 32)
          (greeted ip order now raw src t syn ack d)
  greeted-Knows before alive unknown e f =
      hears_ack src d.port ip x y now raw syn syn_ack ack h _ f (
        hears_syn src d.port ip x y now raw syn syn_ack ack h e
          (accept-Knows src d.port now t none none 0 0 d (fresh-Knows alive unknown)))
  greeted-Knows between alive unknown e f =
      hears_ack src d.port ip x y now raw syn syn_ack ack h _ f (
        accept-Knows src d.port now t none (some raw) 0 _ _
          (hears_syn src d.port ip x y now raw syn syn_ack ack h e (fresh-Knows alive unknown)))
  greeted-Knows after alive unknown e f = accept-Knows src d.port now t none (some raw) _ _ _ (
      hears_ack src d.port ip x y now raw syn syn_ack ack h _ f
        (hears_syn src d.port ip x y now raw syn syn_ack ack h e (fresh-Knows alive unknown)))

Knows-Linked :
    (addr src : String) (to back : Target) (c d : Conn) (port peer_port t t' raw raw' a b : ℕ)
    → Knows addr port (some t) (some raw) a b c
    → Knows src peer_port (some t') (some raw') b a d
    → a < 2 ^ 32
    → b < 2 ^ 32
    → to.port ≡ peer_port
    → back.port ≡ port
    → Linked addr src to back c d
Knows-Linked addr src to back c d port peer_port t t' raw raw' a b k k' small small' e f =
    let (flow, held, conn, handle, seq, ack) = Knows-flow addr port t raw a b c k in
    let (peer, held', conn', handle', seq', ack') = Knows-flow src peer_port t' raw' b a d k' in
    record {
      alive = k.alive;
      peer_alive = k'.alive;
      flow = flow;
      held = held;
      peer = peer;
      peer_held = held';
      handle = raw;
      heard = handle;
      peer_handle = raw';
      peer_heard = handle';
      conn = t;
      accepted = conn;
      peer_conn = t';
      peer_accepted = conn';
      in_range = ground arith;
      peer_in_range = ground arith;
      acknowledged = seq ∙ sym ack';
      peer_acknowledged = seq' ∙ sym ack;
      port = e ∙ sym k'.its_port;
      peer_port = f ∙ sym k.its_port;
    }

-- `Dial` returns a connection, a listener that is alive has no flow for it, and the segments of the
-- handshake come to their raw sockets. Then, whenever the listener accepts the connection, the two
-- are linked.
pub handshake-Linked :
    (ip : IpFamily) (x y start now raw raw' t : ℕ) (order : Order) (a : DialAnswers)
    (syn syn_ack ack : Segment) (c d : Conn) (effects : List Effect) (src : String)
    (to back : Target)
    → dial start a ≡ returns (some c) effects
    → d.died ≡ false
    → lookup src d.flows ≡ none
    → IsHandshake x y syn syn_ack ack
    → syn.dst_port ≡ d.port
    → ack.dst_port ≡ d.port
    → syn_ack.dst_port ≡ a.port
    → to.port ≡ d.port
    → back.port ≡ a.port
    → Linked a.remote src to back
        (capture now raw a.remote (read_segment ip syn_ack) c).0
        (greeted ip order now raw' src t syn ack d)
handshake-Linked ip x y start now raw raw' t order a syn syn_ack ack c d effects src to back
      dialled_c alive unknown h e f g m n =
    let (tcp, k) = dial-Knows start a c effects dialled_c in
    Knows-Linked a.remote src to back _ _ a.port d.port tcp t raw raw' ((x + 1) % 2 ^ 32)
      ((y + 1) % 2 ^ 32) (hears_syn_ack a.remote a.port ip x y now raw syn syn_ack ack h g k)
      (greeted-Knows ip x y now raw' syn syn_ack ack h src t d order alive unknown e f)
      (omega arith) (omega arith) m n
