-- ===== src/Rawtcp/Lifetime.antt =====
-- rawtcp/conn_linux.go: how flows and connections end (cleaner, Close), and how they begin (the accept
-- loop, Dial, Listen). A system call's answer is an argument; what the code does to sockets is a
-- list of effects in order.
pub mod Owner
pub mod Ending
use xtaci_kcptun.Prelude.{
  ℕ, ◌*◌, String, List, [], ◌∷◌, ◌++◌, map, Option, none, some, Bool, true, false, if◌then◌else◌,
  Dict, Result, ok, err, ◌==◌,
}
use xtaci_kcptun.Prelude.Int.{pos, sub_ℕ, ltb_ℤ}
use xtaci_kcptun.Udptun.Client.{second}
use xtaci_kcptun.Rawtcp.{Flow, Conn, dialled, listening, lock_flow, ttl, Side}

pub data Effect : Type 0 where
  set_ttl : ℕ → ℕ → Effect
  close_tcp close_listener close_handle unlist : ℕ → Effect

abbrev pub flow_expire : ℕ
flow_expire = 60 * second

abbrev pub orphan_expire : ℕ
orphan_expire = 5 * second

abbrev pub expiry : Flow → ℕ
expiry e = elim e.conn [ none ↦ orphan_expire | some t ↦ flow_expire ]

abbrev pub is_expired : ℕ → Flow → Bool
is_expired now e = ltb_ℤ (pos (expiry e)) (sub_ℕ now e.ts)

-- `if v.conn != nil { setTTL(v.conn, ...); v.conn.Close() }`
abbrev pub close_conn : Option ℕ → List Effect
close_conn none = []
close_conn (some t) = set_ttl t ttl ∷ close_tcp t ∷ []

abbrev pub close_flow : Flow → List Effect
close_flow e = close_conn e.conn

-- The loop of a tick of `cleaner` over the flows.
unfoldable pub clean_flows : ℕ → Dict String Flow → Dict String Flow × List Effect
clean_flows now [] = ([], [])
clean_flows now ((key, e) ∷ m) =
    let (kept, effects) = clean_flows now m in
    if is_expired now e then (kept, close_flow e ++ effects) else ((key, e) ∷ kept, effects)

unfoldable pub clean : ℕ → Conn → Conn × List Effect
unfolding clean_flows
clean now c = let (kept, effects) = clean_flows now c.flows in (record c { flows = kept }, effects)

unfoldable pub close_flows : Dict String Flow → List Effect
close_flows [] = []
close_flows ((key, e) ∷ m) = close_flow e ++ close_flows m

-- A call that returns has its effects done; one that panics stops after some of them.
pub data Outcome (A : Type 0) : Type 0 where
  returns : A → List Effect → Outcome A
  panics : List Effect → Outcome A

-- `connList.Remove(c.elem)` dereferences the element.
unfoldable pub remove_elem : Option ℕ → Conn → List Effect → Outcome Conn
remove_elem none c effects = panics effects
remove_elem (some l) c effects = returns c (effects ++ unlist l ∷ [])

unfoldable pub close_side : Side → Dict String Flow → Dict String Flow × List Effect
unfolding close_flows
close_side (dialled t) m = (m, set_ttl t ttl ∷ close_tcp t ∷ [])
close_side (listening l) m = ([], close_listener l ∷ close_flows m)

-- `Close`: `dieOnce` runs the body once.
unfoldable pub close : Conn → Outcome Conn
unfolding close_side remove_elem
close c =
    if c.died
    then returns c []
    else (let (flows, effects) = close_side c.side c.flows in
        remove_elem c.elem_in_list (record c { died = true; flows = flows })
          (effects ++ map close_handle c.handles))

-- The accept loop on a connection `t` from `key`; `kept` says whether `setTTL` succeeds.
unfoldable pub accept : ℕ → Bool → String → ℕ → Conn → Conn × List Effect
unfolding lock_flow
accept now kept key t c =
    if kept
    then (lock_flow now key (λ e. record e { conn = some t }) c, set_ttl t 1 ∷ [])
    else (c, set_ttl t 1 ∷ close_tcp t ∷ [])
