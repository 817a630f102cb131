-- ===== src/Rawtcp/Open.antt =====
-- rawtcp/conn_linux.go: Dial and Listen, which open several sockets in a row. The answers of the
-- system are arguments, an error's text is not modelled, and a call that returns an error returns
-- `none`.
pub mod Failure
use xtaci_kcptun.Prelude.{
  ℕ, ◌≡◌, refl, sym, ◌∙◌, append_nil, append_assoc, String, List, [], ◌∷◌, ◌++◌, map, Option, none,
  some, Bool, true, false, Dict, arith, if◌then◌else◌,
}
use xtaci_kcptun.Rawtcp.{Flow, Conn, Side, dialled, listening, lock_flow, ttl}
use xtaci_kcptun.Rawtcp.Lifetime.{
  Outcome, returns, panics, Effect, set_ttl, close_tcp, close_handle, close, close_side,
  remove_elem,
}

-- What `Dial` is answered: the raw socket, the TCP connection with its two ends, whether `setTTL`
-- succeeds, and the element of the connection list.
pub record DialAnswers : Type 0 where
  pub resolved : Bool
  pub raw : Option ℕ
  pub tcp : Option ℕ
  pub port : ℕ
  pub remote : String
  pub ttl_set : Bool
  pub elem_in_list : ℕ

abbrev pub unlisted : Side → ℕ → List ℕ → Conn
unlisted side port handles = record {
  side = side;
  port = port;
  handles = handles;
  flows = [];
  died = false;
  elem_in_list = none;
}

-- `c.Close(); return nil, err`
abbrev pub close_and_fail : List Effect → Outcome Conn → Outcome (Option Conn)
close_and_fail before (returns c effects) = returns none (before ++ effects)
close_and_fail before (panics effects) = panics (before ++ effects)

unfoldable pub dial_with : ℕ → DialAnswers → ℕ → ℕ → Outcome (Option Conn)
unfolding lock_flow close
dial_with now a raw tcp =
    let c =
      lock_flow now a.remote (λ e. record e { conn = some tcp })
        (unlisted (dialled tcp) a.port (raw ∷ [])) in
    if a.ttl_set
    then returns (some (record c { elem_in_list = some a.elem_in_list })) (set_ttl tcp 1 ∷ [])
    else close_and_fail (set_ttl tcp 1 ∷ []) (close c)

unfoldable pub dial_tcp : ℕ → DialAnswers → ℕ → Option ℕ → Outcome (Option Conn)
unfolding dial_with
dial_tcp now a raw none = returns none (close_handle raw ∷ [])
dial_tcp now a raw (some tcp) = dial_with now a raw tcp

unfoldable pub dial_raw : ℕ → DialAnswers → Option ℕ → Outcome (Option Conn)
unfolding dial_tcp
dial_raw now a none = returns none []
dial_raw now a (some raw) = dial_tcp now a raw a.tcp

-- `Dial`
unfoldable pub dial : ℕ → DialAnswers → Outcome (Option Conn)
unfolding dial_raw
dial now a = if a.resolved then dial_raw now a a.raw else returns none []

-- What `net.ListenIP` answers for an address of an interface that is an `IPNet`.
pub data AddrAnswer : Type 0 where
  not_ip_net listen_fails : AddrAnswer
  listens : ℕ → AddrAnswer

-- The inner loop of `Listen` over the addresses of an interface, and the outer one; an interface
-- whose addresses cannot be read is `none`.
unfoldable pub listen_addrs : List AddrAnswer → List ℕ → List ℕ
listen_addrs [] handles = handles
listen_addrs (not_ip_net ∷ addrs) handles = listen_addrs addrs handles
listen_addrs (listen_fails ∷ addrs) handles = listen_addrs addrs handles
listen_addrs (listens h ∷ addrs) handles = listen_addrs addrs (handles ++ h ∷ [])

unfoldable pub listen_ifaces : List (Option (List AddrAnswer)) → List ℕ → List ℕ
unfolding listen_addrs
listen_ifaces [] handles = handles
listen_ifaces (none ∷ ifaces) handles = listen_ifaces ifaces handles
listen_ifaces (some addrs ∷ ifaces) handles = listen_ifaces ifaces (listen_addrs addrs handles)

pub record ListenAnswers : Type 0 where
  pub resolved : Bool
  pub interfaces : Option (List (Option (List AddrAnswer)))
  -- no address, or the unspecified one
  pub unspecified : Bool
  -- the raw socket on a specified address
  pub raw : Option ℕ
  pub listener : Option ℕ
  pub port : ℕ
  pub elem_in_list : ℕ

-- `Listen` on its raw sockets.
unfoldable pub listen_tcp : ListenAnswers → List ℕ → Option ℕ → Outcome (Option Conn)
listen_tcp a handles none = returns none (map close_handle handles)
listen_tcp a handles (some l) =
    returns
      (some (record (unlisted (listening l) a.port handles) { elem_in_list = some a.elem_in_list }))
      []

unfoldable pub listen_on : ListenAnswers → List ℕ → Outcome (Option Conn)
unfolding listen_tcp
listen_on a [] = returns none []
listen_on a (h ∷ hs) = listen_tcp a (h ∷ hs) a.listener

abbrev pub listen_raw : Option ℕ → List ℕ
listen_raw none = []
listen_raw (some h) = h ∷ []

unfoldable pub listen_from :
    ListenAnswers → Option (List (Option (List AddrAnswer))) → Outcome (Option Conn)
unfolding listen_on listen_ifaces
listen_from a none = returns none []
listen_from a (some ifaces) =
    if a.unspecified then listen_on a (listen_ifaces ifaces []) else listen_on a (listen_raw a.raw)

-- `Listen`
unfoldable pub listen : ListenAnswers → Outcome (Option Conn)
unfolding listen_from
listen a = if a.resolved then listen_from a a.interfaces else returns none []

-- The raw sockets that the answers open, in order.
abbrev pub addr_sockets : List AddrAnswer → List ℕ
addr_sockets [] = []
addr_sockets (not_ip_net ∷ addrs) = addr_sockets addrs
addr_sockets (listen_fails ∷ addrs) = addr_sockets addrs
addr_sockets (listens h ∷ addrs) = h ∷ addr_sockets addrs

abbrev pub iface_sockets : List (Option (List AddrAnswer)) → List ℕ
iface_sockets [] = []
iface_sockets (none ∷ ifaces) = iface_sockets ifaces
iface_sockets (some addrs ∷ ifaces) = addr_sockets addrs ++ iface_sockets ifaces

abbrev pub sockets : ListenAnswers → List (Option (List AddrAnswer)) → List ℕ
sockets a ifaces = if a.unspecified then iface_sockets ifaces else listen_raw a.raw

listen_addrs_lem :
    (addrs : List AddrAnswer) (handles : List ℕ)
    → listen_addrs addrs handles ≡ handles ++ addr_sockets addrs
unfolding listen_addrs
listen_addrs_lem [] handles = sym (append_nil handles)
listen_addrs_lem (not_ip_net ∷ addrs) handles = listen_addrs_lem addrs handles
listen_addrs_lem (listen_fails ∷ addrs) handles = listen_addrs_lem addrs handles
listen_addrs_lem (listens h ∷ addrs) handles =
    listen_addrs_lem addrs (handles ++ h ∷ []) ∙ append_assoc handles (h ∷ []) (addr_sockets addrs)

listen_ifaces_lem :
    (ifaces : List (Option (List AddrAnswer))) (handles : List ℕ)
    → listen_ifaces ifaces handles ≡ handles ++ iface_sockets ifaces
unfolding listen_ifaces
listen_ifaces_lem [] handles = sym (append_nil handles)
listen_ifaces_lem (none ∷ ifaces) handles = listen_ifaces_lem ifaces handles
listen_ifaces_lem (some addrs ∷ ifaces) handles =
    rw (listen_ifaces_lem ifaces (listen_addrs addrs handles), listen_addrs_lem addrs handles)
      (append_assoc handles (addr_sockets addrs) (iface_sockets ifaces))
