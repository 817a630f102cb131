-- ===== src/Rawtcp/Handshake/Hearing.antt =====
-- rawtcp/conn_linux.go: what a connection knows of a peer as the segments of a handshake come in.
use xtaci_kcptun.Prelude.{
  ℕ, zero, suc, ◌+◌, ◌-◌, ◌%◌, ◌^◌, ◌<◌, ◌≡◌, refl, sym, ◌∙◌, ap, String, List, [], take, Option,
  none, some, true, false, not, ◌&&◌, ◌||◌, ◌==◌, if◌then◌else◌, lookup, lookup-assign, string_eq,
  arith, Option-cases, inl, inr,
}
use xtaci_kcptun.Rawtcp.{Segment, Flow, Conn, lock_flow, next_seq, track, capture, flow_at}
use xtaci_kcptun.Rawtcp.Receive.{
  IpFamily, ip_header_size, read_segment, capture_size, tcp_header_size,
}
use xtaci_kcptun.Rawtcp.Lifetime.{accept}

-- The three segments of a handshake, from the initial numbers `x` and `y` of the two sides.
pub record IsHandshake (x y : ℕ) (syn syn_ack ack : Segment) : Type 0 where
  pub syn_seq : syn.seq ≡ x
  pub syn_flags : (syn.syn ≡ true) × (syn.fin ≡ false) × (syn.ack_flag ≡ false)
  pub syn_empty : syn.payload ≡ []
  pub syn_ack_seq : syn_ack.seq ≡ y
  pub syn_ack_ack : syn_ack.ack ≡ (x + 1) % 2 ^ 32
  pub syn_ack_flags : (syn_ack.syn ≡ true) × (syn_ack.fin ≡ false) × (syn_ack.ack_flag ≡ true)
  pub syn_ack_empty : syn_ack.payload ≡ []
  pub ack_seq : ack.seq ≡ (x + 1) % 2 ^ 32
  pub ack_ack : ack.ack ≡ (y + 1) % 2 ^ 32
  pub ack_flags : (ack.syn ≡ false) × (ack.fin ≡ false) × (ack.ack_flag ≡ true)
  pub ack_empty : ack.payload ≡ []
  pub x_small : x < 2 ^ 32
  pub y_small : y < 2 ^ 32

take_nothing : (n : ℕ) → take {A = ℕ} n [] ≡ []
take_nothing zero = refl
take_nothing (suc n) = refl

read_segment-empty : (ip : IpFamily) (s : Segment) → s.payload ≡ [] → read_segment ip s ≡ s
unfolding read_segment
read_segment-empty ip s e =
    let n = capture_size - ip_header_size ip - tcp_header_size s in
    ap (λ (p : List ℕ). record s { payload = p }) (ap (take n) e ∙ (take_nothing n ∙ sym e))

-- What a connection knows of a peer; nothing yet is zeros.
abbrev pub conn_of : Option Flow → Option ℕ
conn_of none = none
conn_of (some e) = e.conn

abbrev pub handle_of : Option Flow → Option ℕ
handle_of none = none
handle_of (some e) = e.handle

abbrev pub seq_of : Option Flow → ℕ
seq_of none = 0
seq_of (some e) = e.seq

abbrev pub ack_of : Option Flow → ℕ
ack_of none = 0
ack_of (some e) = e.ack

pub record Knows (key : String) (port : ℕ) (conn handle : Option ℕ) (seq ack : ℕ) (d : Conn)
    : Type 0 where
  pub alive : d.died ≡ false
  pub its_port : d.port ≡ port
  pub its_conn : conn_of (lookup key d.flows) ≡ conn
  pub its_handle : handle_of (lookup key d.flows) ≡ handle
  pub its_seq : seq_of (lookup key d.flows) ≡ seq
  pub its_ack : ack_of (lookup key d.flows) ≡ ack

module _ (key : String) (port : ℕ) where
  pub capture-Knows :
      (now raw : ℕ) (s : Segment) (conn handle : Option ℕ) (seq ack : ℕ) (d : Conn)
      → s.dst_port ≡ port
      → Knows key port conn handle seq ack d
      → Knows key port conn
          (some raw)
          (if s.ack_flag then s.ack else seq)
          (if not (next_seq s == s.seq) && ((ack == 0) || (ack == s.seq)) then next_seq s else ack)
          (capture now raw key s d).0
  unfolding capture lock_flow track
  capture-Knows now raw s conn handle seq ack d e k =
      let new = track now raw s (flow_at now key d) in
      let found = lookup-assign key key new d.flows in
      let same = string_eq.beq_iff key key in
      record {
        alive = ground (arith, k);
        its_port = ground (arith, k);
        its_conn = ground (arith, k, found, same);
        its_handle = ground (arith, k, found, same);
        its_seq = ground (arith, k, found, same);
        its_ack = ground (arith, k, found, same);
      }

  pub accept-Knows :
      (now t : ℕ) (conn handle : Option ℕ) (seq ack : ℕ) (d : Conn)
      → Knows key port conn handle seq ack d
      → Knows key port (some t) handle seq ack (accept now true key t d).0
  unfolding accept lock_flow
  accept-Knows now t conn handle seq ack d k =
      let new = record (flow_at now key d) { conn = some t } in
      let found = lookup-assign key key new d.flows in
      let same = string_eq.beq_iff key key in
      record {
        alive = ground (arith, k);
        its_port = ground (arith, k);
        its_conn = ground (arith, k, found, same);
        its_handle = ground (arith, k, found, same);
        its_seq = ground (arith, k, found, same);
        its_ack = ground (arith, k, found, same);
      }

  captured :
      (ip : IpFamily) (now raw : ℕ) (s : Segment) {conn handle : Option ℕ} {seq ack : ℕ} {d : Conn}
      (seq' ack' : ℕ)
      → s.dst_port ≡ port
      → s.payload ≡ []
      → Knows key port conn handle seq ack d
      → (if s.ack_flag then s.ack else seq) ≡ seq'
      → (if not (next_seq s == s.seq) && ((ack == 0) || (ack == s.seq)) then next_seq s else ack)
        ≡ ack'
      → Knows key port conn (some raw) seq' ack' (capture now raw key (read_segment ip s) d).0
  captured ip now raw s {conn} {handle} {seq} {ack} {d} seq' ack' e empty k f g =
      let r = capture-Knows now raw s conn handle seq ack d e k in
      rw (read_segment-empty ip s empty) (record {
        alive = r.alive;
        its_port = r.its_port;
        its_conn = r.its_conn;
        its_handle = r.its_handle;
        its_seq = r.its_seq ∙ f;
        its_ack = r.its_ack ∙ g;
      })

  module _ (ip : IpFamily) (x y now raw : ℕ) (syn syn_ack ack : Segment)
      (h : IsHandshake x y syn syn_ack ack) {conn handle : Option ℕ} {d : Conn} where
    pub hears_syn :
        syn.dst_port ≡ port
        → Knows key port conn handle 0 0 d
        → Knows key port conn
            (some raw)
            0
            ((x + 1) % 2 ^ 32)
            (capture now raw key (read_segment ip syn) d).0
    unfolding next_seq
    hears_syn e k =
        captured ip now raw syn 0 ((x + 1) % 2 ^ 32) e h.syn_empty k (ground (arith, h))
          (ground (arith, h))

    pub hears_syn_ack :
        syn_ack.dst_port ≡ port
        → Knows key port conn handle 0 0 d
        → Knows key port conn
            (some raw)
            ((x + 1) % 2 ^ 32)
            ((y + 1) % 2 ^ 32)
            (capture now raw key (read_segment ip syn_ack) d).0
    unfolding next_seq
    hears_syn_ack e k =
        captured ip now raw syn_ack ((x + 1) % 2 ^ 32) ((y + 1) % 2 ^ 32) e h.syn_ack_empty k
          (ground (arith, h)) (ground (arith, h))

    pub hears_ack :
        (a : ℕ)
        → ack.dst_port ≡ port
        → Knows key port conn handle 0 a d
        → Knows key port conn
            (some raw)
            ((y + 1) % 2 ^ 32)
            a
            (capture now raw key (read_segment ip ack) d).0
    unfolding next_seq
    hears_ack a e k =
        captured ip now raw ack ((y + 1) % 2 ^ 32) a e h.ack_empty k (ground (arith, h))
          (ground (arith, h))

  pub Knows-flow :
      (t raw seq ack : ℕ) (d : Conn)
      → Knows key port (some t) (some raw) seq ack d
      → (e : Flow) × (lookup key d.flows ≡ some e)
        × (e.conn ≡ some t)
        × (e.handle ≡ some raw)
        × (e.seq ≡ seq)
        × (e.ack ≡ ack)
  Knows-flow t raw seq ack d k = elim (Option-cases (lookup key d.flows)) [
    | inl missing ↦ absurd (ground (arith, k))
    | inr (e, found) ↦
        (e, found, ground (arith, k), ground (arith, k), ground (arith, k), ground (arith, k))
  ]
