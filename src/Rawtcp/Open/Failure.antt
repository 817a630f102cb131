-- ===== src/Rawtcp/Open/Failure.antt =====
-- rawtcp/conn_linux.go: what Dial and Listen leave open when a later step fails.
use xtaci_kcptun.Prelude.{
  ℕ, ◌≡◌, refl, List, [], ◌∷◌, map, Option, none, some, true, false, arith, if◌then◌else◌,
}
use xtaci_kcptun.Rawtcp.{Conn, lock_flow, ttl}
use xtaci_kcptun.Rawtcp.Lifetime.{
  Outcome, returns, panics, set_ttl, close_tcp, close_handle, close, close_side, remove_elem,
}
use xtaci_kcptun.Rawtcp.Open.{
  AddrAnswer, DialAnswers, ListenAnswers, dial, dial_raw, dial_tcp, dial_with, listen, listen_from,
  listen_on, listen_tcp, listen_raw, sockets, iface_sockets, listen_ifaces_lem,
}

-- The raw socket that `Dial` opened, if any.
abbrev pub dial_socket : DialAnswers → List ℕ
dial_socket a = if a.resolved then listen_raw a.raw else []

-- A connection that is live, listed, and holds these raw sockets.
pub record IsOpen (handles : List ℕ) (c : Conn) : Type 0 where
  pub alive : c.died ≡ false
  pub listed : (l : ℕ) × (c.elem_in_list ≡ some l)
  pub holds : c.handles ≡ handles

-- A call returned an error and has closed these raw sockets and nothing else, or it returned an open
-- connection that holds them.
abbrev pub IsClean : List ℕ → Outcome (Option Conn) → Type 0
IsClean handles (returns none effects) = effects ≡ map close_handle handles
IsClean handles (returns (some c) effects) = IsOpen handles c
IsClean handles (panics effects) = ⊥

dial_tcp-IsClean :
    (now : ℕ) (a : DialAnswers) (raw : ℕ) (tcp : Option ℕ)
    → a.ttl_set ≡ true
    → IsClean (raw ∷ []) (dial_tcp now a raw tcp)
unfolding dial_tcp dial_with lock_flow
dial_tcp-IsClean now a raw none h = refl
dial_tcp-IsClean now a raw (some tcp) h =
    rw (h) (record { alive = refl; listed = (a.elem_in_list, refl); holds = refl })

dial_raw-IsClean :
    (now : ℕ) (a : DialAnswers) (raw : Option ℕ)
    → a.ttl_set ≡ true
    → IsClean (listen_raw raw) (dial_raw now a raw)
unfolding dial_raw
dial_raw-IsClean now a none h = refl
dial_raw-IsClean now a (some raw) h = dial_tcp-IsClean now a raw a.tcp h

-- When setTTL succeeds, Dial does not panic: it returns an error and has closed the raw socket that it
-- opened, or it returns a live, listed connection on that socket.
pub dial-IsClean :
    (now : ℕ) (a : DialAnswers) → a.ttl_set ≡ true → IsClean (dial_socket a) (dial now a)
unfolding dial
dial-IsClean now a h = ground (arith, dial_raw-IsClean now a a.raw h)

-- When the address, the raw socket and the TCP connection are there and setTTL fails, Dial panics, and
-- does so after it has closed both sockets.
pub dial_panics :
    (now : ℕ) (a : DialAnswers) (raw tcp : ℕ)
    → a.resolved ≡ true
    → a.raw ≡ some raw
    → a.tcp ≡ some tcp
    → a.ttl_set ≡ false
    → dial now a ≡ panics (set_ttl tcp 1 ∷ set_ttl tcp ttl ∷ close_tcp tcp ∷ close_handle raw ∷ [])
unfolding dial dial_raw dial_tcp dial_with lock_flow close close_side remove_elem
dial_panics now a raw tcp h i j k = rw (h, i, j, k)

listen_tcp-IsClean :
    (a : ListenAnswers) (handles : List ℕ) (l : Option ℕ) → IsClean handles (listen_tcp a handles l)
unfolding listen_tcp
listen_tcp-IsClean a handles none = refl
listen_tcp-IsClean a handles (some l) = record {
  alive = refl;
  listed = (a.elem_in_list, refl);
  holds = refl;
}

listen_on-IsClean : (a : ListenAnswers) (handles : List ℕ) → IsClean handles (listen_on a handles)
unfolding listen_on
listen_on-IsClean a [] = refl
listen_on-IsClean a (h ∷ hs) = listen_tcp-IsClean a (h ∷ hs) a.listener

listen_from-IsClean :
    (a : ListenAnswers) (ifaces : List (Option (List AddrAnswer)))
    → IsClean (sockets a ifaces) (listen_from a (some ifaces))
unfolding listen_from
listen_from-IsClean a ifaces = ground (
  arith,
  listen_ifaces_lem ifaces [],
  listen_on-IsClean a (iface_sockets ifaces),
  listen_on-IsClean a (listen_raw a.raw),
)

-- Whatever the system answers, once the address is resolved and the interfaces are read Listen returns
-- an error and has closed every raw socket that it opened, or a live, listed connection that holds all.
pub listen-IsClean :
    (a : ListenAnswers) (ifaces : List (Option (List AddrAnswer)))
    → a.resolved ≡ true
    → a.interfaces ≡ some ifaces
    → IsClean (sockets a ifaces) (listen a)
unfolding listen
listen-IsClean a ifaces h i = ground (arith, h, i, listen_from-IsClean a ifaces)
