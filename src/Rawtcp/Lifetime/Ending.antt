-- ===== src/Rawtcp/Lifetime/Ending.antt =====
-- rawtcp/conn_linux.go: what a tick of cleaner and a call of Close leave.
use xtaci_kcptun.Prelude.{
  ℕ, ◌≡◌, refl, String, List, [], ◌∷◌, ◌++◌, map, Option, none, some, Bool, true, false, ◌==◌, ◌&&◌,
  ◌||◌, Dict, lookup, Distinct, string_eq, arith, if◌then◌else◌,
}
use xtaci_kcptun.Rawtcp.{Flow, Conn, Side, dialled, listening}
use xtaci_kcptun.Rawtcp.Lifetime.{
  clean, clean_flows, close, close_side, close_flows, close_flow, close_conn, remove_elem,
  is_expired, returns, Effect, set_ttl, close_tcp, close_listener, close_handle, unlist,
}

-- What is left of a flow when those that expired are gone.
abbrev pub unless_expired : ℕ → Option Flow → Option Flow
unless_expired now none = none
unless_expired now (some e) = if is_expired now e then none else some e

lookup-clean_flows :
    (now : ℕ) (key : String) (m : Dict String Flow)
    → Distinct m
    → lookup key (clean_flows now m).0 ≡ unless_expired now (lookup key m)
unfolding lookup clean_flows
lookup-clean_flows now key [] d = refl
lookup-clean_flows now key ((k, e) ∷ m) d =
    ground (arith, string_eq.beq_iff k key, lookup-clean_flows now key m d.1, d.0)

abbrev pub closes_tcp : ℕ → List Effect → Bool
closes_tcp t [] = false
closes_tcp t (set_ttl u n ∷ es) = closes_tcp t es
closes_tcp t (close_tcp u ∷ es) = (u == t) || closes_tcp t es
closes_tcp t (close_listener u ∷ es) = closes_tcp t es
closes_tcp t (close_handle u ∷ es) = closes_tcp t es
closes_tcp t (unlist u ∷ es) = closes_tcp t es

abbrev pub is_conn : ℕ → Option ℕ → Bool
is_conn t none = false
is_conn t (some u) = u == t

abbrev pub has_conn : ℕ → Flow → Bool
has_conn t e = is_conn t e.conn

-- Some flow that expired has this connection.
abbrev pub expired_conn : ℕ → ℕ → Dict String Flow → Bool
expired_conn now t [] = false
expired_conn now t ((k, e) ∷ m) = (is_expired now e && has_conn t e) || expired_conn now t m

closes_tcp-++ :
    (t : ℕ) (es fs : List Effect) → closes_tcp t (es ++ fs) ≡ (closes_tcp t es || closes_tcp t fs)
closes_tcp-++ t [] fs = refl
closes_tcp-++ t (set_ttl u n ∷ es) fs = closes_tcp-++ t es fs
closes_tcp-++ t (close_tcp u ∷ es) fs = ground (arith, closes_tcp-++ t es fs)
closes_tcp-++ t (close_listener u ∷ es) fs = closes_tcp-++ t es fs
closes_tcp-++ t (close_handle u ∷ es) fs = closes_tcp-++ t es fs
closes_tcp-++ t (unlist u ∷ es) fs = closes_tcp-++ t es fs

closes_tcp-close_conn : (t : ℕ) (o : Option ℕ) → closes_tcp t (close_conn o) ≡ is_conn t o
closes_tcp-close_conn t none = refl
closes_tcp-close_conn t (some u) = ground arith

closes_tcp-close_flow : (t : ℕ) (e : Flow) → closes_tcp t (close_flow e) ≡ has_conn t e
closes_tcp-close_flow t e = closes_tcp-close_conn t e.conn

closes_tcp-clean_flows :
    (now t : ℕ) (m : Dict String Flow) → closes_tcp t (clean_flows now m).1 ≡ expired_conn now t m
unfolding clean_flows
closes_tcp-clean_flows now t [] = refl
closes_tcp-clean_flows now t ((k, e) ∷ m) = ground (
  arith,
  closes_tcp-++ t (close_flow e) (clean_flows now m).1,
  closes_tcp-close_flow t e,
  closes_tcp-clean_flows now t m,
)

-- A tick of the cleaner takes out exactly the flows that were silent for more than a minute, or for
-- more than five seconds when they have no TCP connection, and closes exactly the TCP connections of
-- the flows that it takes out; the keys of the map are distinct.
pub clean_lem :
    (now : ℕ) (c : Conn)
    → Distinct c.flows
    → ((key : String) → lookup key (clean now c).0.flows ≡ unless_expired now (lookup key c.flows))
      × ((t : ℕ) → closes_tcp t (clean now c).1 ≡ expired_conn now t c.flows)
unfolding clean
clean_lem now c d =
    (λ key. lookup-clean_flows now key c.flows d, λ t. closes_tcp-clean_flows now t c.flows)

-- Some flow has this connection.
abbrev pub any_conn : ℕ → Dict String Flow → Bool
any_conn t [] = false
any_conn t ((k, e) ∷ m) = has_conn t e || any_conn t m

closes_tcp-close_flows :
    (t : ℕ) (m : Dict String Flow) → closes_tcp t (close_flows m) ≡ any_conn t m
unfolding close_flows
closes_tcp-close_flows t [] = refl
closes_tcp-close_flows t ((k, e) ∷ m) = ground (
  arith,
  closes_tcp-++ t (close_flow e) (close_flows m),
  closes_tcp-close_flow t e,
  closes_tcp-close_flows t m,
)

closes_tcp-handles : (t : ℕ) (hs : List ℕ) → closes_tcp t (map close_handle hs) ≡ false
closes_tcp-handles t [] = refl
closes_tcp-handles t (h ∷ hs) = closes_tcp-handles t hs

-- The TCP connections that `Close` closes: the dialled one, or those of the listener's flows.
abbrev pub owns_tcp : ℕ → Side → Dict String Flow → Bool
owns_tcp t (dialled u) m = u == t
owns_tcp t (listening l) m = any_conn t m

closes_tcp-close_side :
    (t : ℕ) (side : Side) (m : Dict String Flow)
    → closes_tcp t (close_side side m).1 ≡ owns_tcp t side m
unfolding close_side
closes_tcp-close_side t (dialled u) m = ground arith
closes_tcp-close_side t (listening l) m = closes_tcp-close_flows t m

-- What a call of `Close` does, and that a second call does nothing.
pub record Closed (c : Conn) (d : Conn) (effects : List Effect) : Type 0 where
  pub dead : d.died ≡ true
  pub tcp_closed : (t : ℕ) → closes_tcp t effects ≡ owns_tcp t c.side c.flows
  pub again : close d ≡ returns d []

-- A live connection that is in the connection list is closed without a panic: it is dead then, exactly
-- the TCP connections that it owns are closed, and another call of Close changes and does nothing.
pub close_lem :
    (c : Conn) (l : ℕ)
    → c.died ≡ false
    → c.elem_in_list ≡ some l
    → (d : Conn) × (effects : List Effect) × (close c ≡ returns d effects) × Closed c d effects
unfolding close remove_elem
close_lem c l alive listed =
    let (flows, es) = close_side c.side c.flows in
    (
      record c { died = true; flows = flows },
      (es ++ map close_handle c.handles) ++ unlist l ∷ [],
      ground (arith, alive, listed),
      record {
        dead = refl;
        tcp_closed = λ t.
            let outer = closes_tcp-++ t (es ++ map close_handle c.handles) (unlist l ∷ []) in
            let inner = closes_tcp-++ t es (map close_handle c.handles) in
            ground (
              arith,
              outer,
              inner,
              closes_tcp-handles t c.handles,
              closes_tcp-close_side t c.side c.flows,
            );
        again = refl;
      },
    )
