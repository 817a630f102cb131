-- ===== src/Rawtcp.antt =====
-- rawtcp/conn_linux.go: a packet connection over raw TCP segments. Sockets are handles, an address is
-- known by its text, and times are nanoseconds. The raw sockets, the TCP stack and gopacket are not
-- the repository's: what they answer is an argument, and a segment is the header that gopacket
-- decodes or serializes.
mod Examples
pub mod Stream
pub mod Receive
pub mod Linked
pub mod Handshake
pub mod Reader
pub mod Stub
pub mod Options
pub mod Open
pub mod Lifetime
pub mod Delivery
use xtaci_kcptun.Prelude.{
  ℕ, ◌+◌, ◌*◌, ◌/◌, ◌%◌, ◌^◌, String, List, [], ◌∷◌, ◌++◌, length, take, drop, Option, none, some,
  Bool, true, false, not, ◌&&◌, ◌||◌, ltb, ◌==◌, if◌then◌else◌, Dict, lookup, assign, string_eq,
  keys,
}
use xtaci_kcptun.Prelude.Int.{ℤ, pos, sub_ℕ, ltb_ℤ}
use xtaci_kcptun.Prelude.Bytes.{be32, read_be32}

pub data OptionKind : Type 0 where
  nop timestamps : OptionKind
  other_kind : ℕ → OptionKind

pub record TcpOption : Type 0 where
  pub kind : OptionKind
  pub data_bytes : List ℕ

-- `layers.TCP` with its payload; `ack_flag` is the header's ACK, `ack` its Ack.
pub record Segment : Type 0 where
  pub src_port : ℕ
  pub dst_port : ℕ
  pub window : ℕ
  pub seq : ℕ
  pub ack : ℕ
  pub syn : Bool
  pub fin : Bool
  pub psh : Bool
  pub ack_flag : Bool
  pub options : List TcpOption
  pub payload : List ℕ

pub record Flow : Type 0 where
  pub conn : Option ℕ
  pub handle : Option ℕ
  pub seq : ℕ
  pub ack : ℕ
  pub ts_ecr : ℕ
  pub ts : ℕ

pub data Side : Type 0 where
  dialled : ℕ → Side
  listening : ℕ → Side

pub record Conn : Type 0 where
  pub side : Side
  -- the port of `tcpconn.LocalAddr()` or of `listener.Addr()`
  pub port : ℕ
  pub handles : List ℕ
  pub flows : Dict String Flow
  pub died : Bool
  pub elem_in_list : Option ℕ

-- What `chMessage` carries.
pub record Message : Type 0 where
  pub bts : List ℕ
  pub addr : String

pub data WriteError : Type 0 where
  timeout eof unresolved unserialized unsent : WriteError

-- `net.TCPAddr` as `ResolveTCPAddr` returns it; `to4` is `IP.To4()`.
pub record Target : Type 0 where
  pub ip : List ℕ
  pub to4 : Option (List ℕ)
  pub port : ℕ

-- The pseudo header of the checksum, from the handle's own address.
pub data Network : Type 0 where
  ipv4 : ℕ → List ℕ → Network
  ipv6 : ℕ → List ℕ → Network

-- A segment on a raw socket; a socket that was not dialled is told where to send it.
pub record Sent : Type 0 where
  pub on : ℕ
  pub network : Network
  pub segment : Segment
  pub to : Option (List ℕ)

abbrev pub new_flow : ℕ → Flow
new_flow now = record { conn = none; handle = none; seq = 0; ack = 0; ts_ecr = 0; ts = now }

-- The flow that `lockflow` hands to its callback.
abbrev pub flow_at : ℕ → String → Conn → Flow
flow_at now key c = elim (lookup key c.flows) [ some e ↦ e | none ↦ new_flow now ]

-- `lockflow`
unfoldable pub lock_flow : ℕ → String → (Flow → Flow) → Conn → Conn
lock_flow now key f c = record c { flows = assign key (f (flow_at now key c)) c.flows }

-- The first timestamps option of eight bytes gives the echo.
abbrev pub is_timestamps : OptionKind → Bool
is_timestamps nop = false
is_timestamps timestamps = true
is_timestamps (other_kind n) = false

unfoldable pub echo : List TcpOption → ℕ → ℕ
echo [] old = old
echo (o ∷ os) old =
    let rest = echo os old in
    if is_timestamps o.kind && (length o.data_bytes == 8)
    then read_be32 (take 4 o.data_bytes)
    else rest

-- `next`: the sequence number behind the segment; SYN and FIN take one each.
unfoldable pub next_seq : Segment → ℕ
next_seq s =
    let next = (s.seq + length s.payload) % 2 ^ 32 in
    let next = if s.syn then (next + 1) % 2 ^ 32 else next in
    if s.fin then (next + 1) % 2 ^ 32 else next

-- The callback of `captureFlow`.
unfoldable pub track : ℕ → ℕ → Segment → Flow → Flow
unfolding echo next_seq
track now handle s e = record e {
  ts = now;
  seq = if s.ack_flag then s.ack else e.seq;
  ts_ecr = echo s.options e.ts_ecr;
  ack =
      if not (next_seq s == s.seq) && ((e.ack == 0) || (e.ack == s.seq)) then next_seq s else e.ack;
  handle = some handle;
}

abbrev pub is_orphan : Flow → Bool
is_orphan e = elim e.conn [ none ↦ true | some p ↦ false ]

-- One pass of `captureFlow` on a TCP segment from `src`, and the message for `ReadFrom`, if any.
unfoldable pub capture : ℕ → ℕ → String → Segment → Conn → Conn × List Message
unfolding lock_flow track
capture now handle src s c = if not (s.dst_port == c.port) then (c, []) else (
  lock_flow now src (track now handle s) c,
  (if not (is_orphan (flow_at now src c)) && (s.psh && ltb 0 (length s.payload))
      then record { bts = s.payload; addr = src } ∷ []
      else []),
)

abbrev pub window : ℕ
window = 65535

abbrev pub ttl : ℕ
ttl = 64

-- The header that `WriteTo` builds.
unfoldable pub header : ℕ → ℕ → ℕ → List ℕ → Flow → Segment
header now lport rport p e = record {
  src_port = lport;
  dst_port = rport;
  window = window;
  seq = e.seq;
  ack = e.ack;
  syn = false;
  fin = false;
  psh = true;
  ack_flag = true;
  options =
      record { kind = nop; data_bytes = [] }
      ∷ record { kind = nop; data_bytes = [] }
      ∷ record { kind = timestamps; data_bytes = be32 (now / 1_000_000 % 2 ^ 32) ++ be32 e.ts_ecr }
      ∷ [];
  payload = p;
}

-- `e.seq += uint32(len(p))`
unfoldable pub advance : List ℕ → Flow → Flow
advance p e = record e { seq = (e.seq + length p) % 2 ^ 32 }

abbrev pub network : ℕ → Target → Network
network handle to = elim to.to4 [ some ip ↦ ipv4 handle ip | none ↦ ipv6 handle to.ip ]

abbrev pub destination : Side → Target → Option (List ℕ)
destination (dialled t) to = none
destination (listening l) to = some to.ip

-- What a call of `WriteTo` leaves: the connection, `n`, `err` and the segments sent.
pub record Written : Type 0 where
  pub conn : Conn
  pub n : ℕ
  pub error : Option WriteError
  pub sent : List Sent

-- The callback of `WriteTo` on the flow `e` and its handle. `serialized` and `written` say whether
-- gopacket and the socket succeed.
unfoldable pub write_flow :
    ℕ → Bool → Bool → List ℕ → String → Target → Conn → Flow → Option ℕ → Written
unfolding lock_flow header advance
write_flow now serialized written p addr to c e none = record {
  conn = lock_flow now addr (λ e. e) c;
  n = length p;
  error = none;
  sent = [];
}
write_flow now serialized written p addr to c e (some handle) =
    if not serialized
    then record {
      conn = lock_flow now addr (λ e. e) c;
      n = 0;
      error = some unserialized;
      sent = [];
    }
    else record {
      conn = lock_flow now addr (advance p) c;
      n = length p;
      error = if written then none else some unsent;
      sent =
          record {
            on = handle;
            network = network handle to;
            segment = header now c.port to.port p e;
            to = destination c.side to;
          }
          ∷ [];
    }

-- `WriteTo` after the select, on what `ResolveTCPAddr` returns.
unfoldable pub write_resolved : ℕ → Bool → Bool → List ℕ → String → Conn → Option Target → Written
unfolding write_flow
write_resolved now serialized written p addr c none = record {
  conn = c;
  n = 0;
  error = some unresolved;
  sent = [];
}
write_resolved now serialized written p addr c (some to) =
    let e = flow_at now addr c in write_flow now serialized written p addr to c e e.handle

-- `WriteTo`; `expired` says that the select takes the deadline's branch.
unfoldable pub write_to :
    (String → Option Target) → ℕ → Bool → Bool → Bool → List ℕ → String → Conn → Written
unfolding write_resolved
write_to resolve now expired serialized written p addr c =
    if expired
    then record { conn = c; n = 0; error = some timeout; sent = [] }
    else if c.died
    then record { conn = c; n = 0; error = some eof; sent = [] }
    else write_resolved now serialized written p addr c (resolve addr)
