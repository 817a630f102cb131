-- ===== src/Udptun/Program/Sockets.antt =====
-- udpclient/dial.go and udpserver/main.go: the transports of the two udptun programs. What rawtcp and
-- the network answer is an argument.
use xtaci_kcptun.Prelude.{
  ℕ, ◌≡◌, ◌⊎◌, inl, inr, refl, String, List, [], ◌∷◌, Option, none, some, Bool, true, false,
  if◌then◌else◌,
}

-- A server's address and whether it is an IPv4 address.
pub record Resolved : Type 0 where
  pub addr : String
  pub is_v4 : Bool

pub data Network : Type 0 where
  udp4 udp : Network

pub record Answers : Type 0 where
  pub raw : Option ℕ
  pub resolved_tcp : Option String
  pub resolved_udp : Option Resolved
  pub socket : Network → Option ℕ

-- What `dial` returns, and the connections that it has opened and closed.
pub record Dialled : Type 0 where
  pub result : Option (ℕ × String)
  pub opened : List ℕ
  pub closed : List ℕ

abbrev pub with_addr : ℕ → Option String → Dialled
with_addr conn none = record { result = none; opened = conn ∷ []; closed = conn ∷ [] }
with_addr conn (some addr) = record { result = some (conn, addr); opened = conn ∷ []; closed = [] }

abbrev pub dial_tcp : Option ℕ → Option String → Dialled
dial_tcp none addr = record { result = none; opened = []; closed = [] }
dial_tcp (some conn) addr = with_addr conn addr

abbrev pub on_socket : String → Option ℕ → Dialled
on_socket addr none = record { result = none; opened = []; closed = [] }
on_socket addr (some conn) = record { result = some (conn, addr); opened = conn ∷ []; closed = [] }

abbrev pub dial_udp : Option Resolved → (Network → Option ℕ) → Dialled
dial_udp none socket = record { result = none; opened = []; closed = [] }
dial_udp (some r) socket = on_socket r.addr (socket (if r.is_v4 then udp4 else udp))

-- `dial`
unfoldable pub dial : Bool → Answers → Dialled
dial tcp a = if tcp then dial_tcp a.raw a.resolved_tcp else dial_udp a.resolved_udp a.socket

-- It returns the one connection that it has opened, open, or an error and has closed what it opened.
abbrev pub IsTidy : Dialled → Type 0
IsTidy d =
    ((p : ℕ × String) × (d.result ≡ some p) × (d.opened ≡ p.0 ∷ []) × (d.closed ≡ []))
    ⊎ ((d.result ≡ none) × (d.closed ≡ d.opened))

dial_tcp-IsTidy : (raw : Option ℕ) (addr : Option String) → IsTidy (dial_tcp raw addr)
dial_tcp-IsTidy none addr = inr (refl, refl)
dial_tcp-IsTidy (some conn) none = inr (refl, refl)
dial_tcp-IsTidy (some conn) (some addr) = inl ((conn, addr), refl, refl, refl)

on_socket-IsTidy : (addr : String) (conn : Option ℕ) → IsTidy (on_socket addr conn)
on_socket-IsTidy addr none = inr (refl, refl)
on_socket-IsTidy addr (some conn) = inl ((conn, addr), refl, refl, refl)

dial_udp-IsTidy : (r : Option Resolved) (socket : Network → Option ℕ) → IsTidy (dial_udp r socket)
dial_udp-IsTidy none socket = inr (refl, refl)
dial_udp-IsTidy (some r) socket = on_socket-IsTidy r.addr (socket (if r.is_v4 then udp4 else udp))

-- Whatever the system answers, the dial of udptun_client returns the connection that it opened, and
-- leaves it open, or it returns an error and has closed all that it opened.
pub dial-IsTidy : (tcp : Bool) (a : Answers) → IsTidy (dial tcp a)
unfolding dial
dial-IsTidy true a = dial_tcp-IsTidy a.raw a.resolved_tcp
dial-IsTidy false a = dial_udp-IsTidy a.resolved_udp a.socket

-- `main` of udpserver: the connections that RunServer serves; without the UDP one it leaves.
abbrev pub beside : ℕ → Option ℕ → List ℕ
beside udp_conn none = udp_conn ∷ []
beside udp_conn (some raw) = udp_conn ∷ raw ∷ []

unfoldable pub serve : Bool → Option ℕ → Option ℕ → Option (List ℕ)
serve tcp none raw = none
serve tcp (some udp_conn) raw = some (if tcp then beside udp_conn raw else udp_conn ∷ [])
