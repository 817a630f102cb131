-- ===== src/Udptun/Server/Reap.antt =====
-- udptun/server.go, reap: which flows leave the table, and which sockets are closed.
use xtaci_kcptun.Prelude.{
  ℕ, ◌<◌, ◌≡◌, refl, List, [], ◌∷◌, Option, none, some, Bool, true, false, ◌||◌, ◌&&◌, ◌∙◌, ◌==◌,
  arith, if◌then◌else◌, lookup, lookup-delete, Option-cases, inl, inr,
}
use xtaci_kcptun.Prelude.Int.{ℤ, sub_ℕ, ltb_ℤ}
use xtaci_kcptun.Udptun.Client.{seconds}
use xtaci_kcptun.Udptun.FlowKey.{Text, text_eq}
use xtaci_kcptun.Udptun.Server.{
  Server, ServerFlow, is_ptr, close_flow, close_all, stale_flows, reap,
}
use xtaci_kcptun.Udptun.Server.Sockets.{IsSound, close_flow-IsSound, close_all-IsSound}

one_of : List ℕ → ℕ → Bool
one_of [] p = false
one_of (q ∷ qs) p = q == p || one_of qs p

gone : List ℕ → Option ℕ → Option ℕ
gone ps none = none
gone ps (some p) = if one_of ps p then none else some p

module _ {Addr : Type 0} where
  abbrev pub is_stale : ℕ → Server Addr → ℕ → Bool
  is_stale now s p = ltb_ℤ (seconds s.cfg.idle) (sub_ℕ now (s.flows p).last_active)

  -- A map's answer once the stale flows are gone.
  abbrev pub unless_stale : ℕ → Server Addr → Option ℕ → Option ℕ
  unless_stale now s none = none
  unless_stale now s (some p) = if is_stale now s p then none else some p

  stale_flows-stale :
      (ttl : ℤ) (now : ℕ) (flows : ℕ → ServerFlow Addr) (m : List (Text × ℕ)) (p : ℕ)
      → one_of (stale_flows ttl now flows m) p ≡ true
      → ltb_ℤ ttl (sub_ℕ now (flows p).last_active) ≡ true
  unfolding stale_flows one_of
  stale_flows-stale ttl now flows [] p h = absurd (ground arith)
  stale_flows-stale ttl now flows ((key, q) ∷ m) p h =
      ground (arith, stale_flows-stale ttl now flows m p)

  stale_flows-all :
      (ttl : ℤ) (now : ℕ) (flows : ℕ → ServerFlow Addr) (m : List (Text × ℕ)) (key : Text) (p : ℕ)
      → lookup key m ≡ some p
      → ltb_ℤ ttl (sub_ℕ now (flows p).last_active) ≡ true
      → one_of (stale_flows ttl now flows m) p ≡ true
  unfolding stale_flows one_of lookup
  stale_flows-all ttl now flows [] key p e h = absurd (ground arith)
  stale_flows-all ttl now flows ((k, q) ∷ m) key p e h =
      ground (arith, stale_flows-all ttl now flows m key p)

module _ {Addr : Type 0} (show : Addr → Text) where
  record Closed (ps : List ℕ) (s t : Server Addr) : Type 0 where
    table : (key : Text) → lookup key t.table ≡ gone ps (lookup key s.table)
    flows : t.flows ≡ s.flows
    allocated : t.allocated ≡ s.allocated
    pending : t.pending ≡ s.pending

  close_flow-Closed :
      (p : ℕ) (s : Server Addr) → IsSound show s → Closed (p ∷ []) s (close_flow p s)
  unfolding close_flow one_of gone
  close_flow-Closed p s v = record {
    table = λ key. ground (
      arith,
      v.listed key p,
      v.listed (s.flows p).key p,
      lookup-delete (s.flows p).key key s.table,
      text_eq.beq_iff (s.flows p).key key,
    );
    flows = ground arith;
    allocated = ground arith;
    pending = ground arith;
  }

  close_all-Closed : (ps : List ℕ) (s : Server Addr) → IsSound show s → Closed ps s (close_all ps s)
  unfolding close_all one_of gone
  close_all-Closed [] s v = record {
    table = λ key. ground arith;
    flows = refl;
    allocated = refl;
    pending = refl;
  }
  close_all-Closed (p ∷ ps) s v =
      let first = close_flow-Closed p s v in
      let rest = close_all-Closed ps (close_flow p s) (close_flow-IsSound show p s v) in
      record {
        table = λ key. ground (arith, first.table key, rest.table key);
        flows = ground (arith, first, rest);
        allocated = ground (arith, first, rest);
        pending = ground (arith, first, rest);
      }

  module _ (now : ℕ) (s : Server Addr) where
    gone_stale :
        (key : Text)
        → gone (stale_flows (seconds s.cfg.idle) now s.flows s.table) (lookup key s.table)
          ≡ unless_stale now s (lookup key s.table)
    unfolding gone
    gone_stale key = elim (Option-cases (lookup key s.table)) [
      | inl miss ↦ ground arith
      | inr (p, e) ↦ ground (
        arith,
        stale_flows-all (seconds s.cfg.idle) now s.flows s.table key p e,
        stale_flows-stale (seconds s.cfg.idle) now s.flows s.table p,
      )
    ]

    -- The server after a round of the reaper.
    pub record Reaped : Type 0 where
      pub sound : IsSound show (reap now s)
      pub table :
          (key : Text) → lookup key (reap now s).table ≡ unless_stale now s (lookup key s.table)
      pub flows : (reap now s).flows ≡ s.flows
      pub closes :
          (p : ℕ)
          → p < s.allocated
          → (reap now s).closes p ≡ (
              if is_ptr (lookup (s.flows p).key s.table) p && is_stale now s p
              then 1
              else s.closes p)

    reap_closes :
        (p : ℕ)
        → IsSound show s
        → IsSound show (reap now s)
        → Closed (stale_flows (seconds s.cfg.idle) now s.flows s.table) s (reap now s)
        → p < s.allocated
        → (reap now s).closes p ≡ (
            if is_ptr (lookup (s.flows p).key s.table) p && is_stale now s p then 1 else s.closes p)
    reap_closes p v v' c h = ground (
      arith,
      v.closed_once p,
      v.waiting p,
      v'.closed_once p,
      c,
      c.table (s.flows p).key,
      gone_stale (s.flows p).key,
    )

    -- In a server whose sockets are sound, a round of the reaper takes exactly the stale flows out of the
    -- table and closes their sockets, each once, and no other socket; the flows are not written to.
    pub reap-Reaped : IsSound show s → Reaped
    unfolding reap
    reap-Reaped v =
        let ps = stale_flows (seconds s.cfg.idle) now s.flows s.table in
        let c = close_all-Closed ps s v in
        let v' = close_all-IsSound show ps s v in
        record {
          sound = v';
          table = λ key. c.table key ∙ gone_stale key;
          flows = c.flows;
          closes = λ p h. reap_closes p v v' c h;
        }
