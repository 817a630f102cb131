-- ===== src/Udptun/Server/Sockets.antt =====
-- Every socket that the server dials is closed once, when its flow leaves the table, and not before.
use xtaci_kcptun.Prelude.{
  ℕ, ◌≤◌, ◌<◌, ◌≡◌, ◌≢◌, ◌^◌, List, [], ◌∷◌, none, some, Bool, ◌||◌, arith, if◌then◌else◌, lookup,
  assign, lookup-assign, lookup-delete, update, Option-cases, inl, inr,
}
use xtaci_kcptun.Udptun.FlowKey.{Text, text_eq, flow_key}
use xtaci_kcptun.Udptun.Server.{
  Server, is_ptr, touch, close_socket, dial, publish, close_flow, close_all,
}

module _ {Addr : Type 0} where
  -- The flow is in the table under its key, or the main loop is about to put it there.
  abbrev pub is_live : Server Addr → ℕ → Bool
  is_live s p = is_ptr (lookup (s.flows p).key s.table) p || is_ptr s.pending p

module _ {Addr : Type 0} (show : Addr → Text) where
  pub record IsSound (s : Server Addr) : Type 0 where
    -- a key of the table is its flow's
    pub listed :
        (key : Text) (p : ℕ)
        → lookup key s.table ≡ some p
        → (p < s.allocated) × ((s.flows p).key ≡ key)
    -- and that is made of the flow's client and id
    pub keyed :
        (p : ℕ)
        → p < s.allocated
        → ((s.flows p).key ≡ flow_key (show (s.flows p).client) (s.flows p).id)
          × ((s.flows p).id < 2 ^ 32)
    pub waiting :
        (p : ℕ) → s.pending ≡ some p → (p < s.allocated) × (lookup (s.flows p).key s.table ≢ some p)
    -- a flow that is gone has its socket closed once, any other never
    pub closed_once : (p : ℕ) → p < s.allocated → s.closes p ≡ (if is_live s p then 0 else 1)
    pub unused : (p : ℕ) → s.allocated ≤ p → s.closes p ≡ 0

  pub touch-IsSound : (now p : ℕ) (s : Server Addr) → IsSound s → IsSound (touch now p s)
  unfolding touch update
  touch-IsSound now p s v = record {
    listed = λ key q e. ground (arith, v.listed key q);
    keyed = λ q h. ground (arith, v.keyed q);
    waiting = λ q e. ground (arith, v.waiting q);
    closed_once = λ q h. ground (arith, v.closed_once q);
    unused = λ q h. v.unused q h;
  }

  pub dial-IsSound :
      (now : ℕ) (client : Addr) (id : ℕ) (s : Server Addr)
      → s.pending ≡ none
      → id < 2 ^ 32
      → IsSound s
      → IsSound (dial now client id (flow_key (show client) id) s)
  unfolding dial update
  dial-IsSound now client id s idle small v = record {
    listed = λ key q e. ground (arith, v.listed key q);
    keyed = λ q h. ground (arith, v.keyed q);
    waiting = λ q e. ground (arith, v.listed (flow_key (show client) id) q);
    closed_once = λ q h. ground (arith, v.closed_once q, v.unused q);
    unused = λ q h. ground (arith, v.unused q);
  }

  pub publish-IsSound :
      (p : ℕ) (s : Server Addr) → s.pending ≡ some p → IsSound s → IsSound (publish p s).1
  unfolding publish close_socket update
  publish-IsSound p s e v = elim (Option-cases (lookup (s.flows p).key s.table)) [
    | inr (other, taken) ↦ rw (taken, publish) (lost other taken)
    | inl free ↦ rw (free, publish) (won free)
  ]
    where
      lost :
          (other : ℕ)
          → lookup (s.flows p).key s.table ≡ some other
          → IsSound (close_socket p (record s { pending = none }))
      lost other taken = record {
        listed = λ key q h. ground (arith, v.listed key q);
        keyed = λ q h. ground (arith, v.keyed q);
        waiting = λ q h. ground arith;
        closed_once = λ q h. ground (arith, v.closed_once q, v.waiting p);
        unused = λ q h. ground (arith, v.unused q, v.waiting p);
      }

      won :
          lookup (s.flows p).key s.table ≡ none
          → IsSound (record s { table = assign (s.flows p).key p s.table; pending = none })
      won free = record {
        listed = λ key q h. ground (
          arith,
          v.listed key q,
          v.waiting p,
          lookup-assign (s.flows p).key key p s.table,
          text_eq.beq_iff (s.flows p).key key,
        );
        keyed = λ q h. ground (arith, v.keyed q);
        waiting = λ q h. ground arith;
        closed_once = λ q h. ground (
          arith,
          v.closed_once q,
          v.waiting p,
          v.listed (s.flows q).key q,
          lookup-assign (s.flows p).key (s.flows q).key p s.table,
          text_eq.beq_iff (s.flows p).key (s.flows q).key,
        );
        unused = λ q h. ground (arith, v.unused q);
      }

  pub close_flow-IsSound : (p : ℕ) (s : Server Addr) → IsSound s → IsSound (close_flow p s)
  unfolding close_flow update
  close_flow-IsSound p s v = record {
    listed = λ key q e. ground (arith, v.listed key q, lookup-delete (s.flows p).key key s.table);
    keyed = λ q h. ground (arith, v.keyed q);
    waiting =
        λ q e. ground (arith, v.waiting q, lookup-delete (s.flows p).key (s.flows q).key s.table);
    closed_once = λ q h. ground (
      arith,
      v.closed_once q,
      v.closed_once p,
      v.waiting q,
      v.waiting p,
      v.listed (s.flows p).key p,
      lookup-delete (s.flows p).key (s.flows q).key s.table,
      text_eq.beq_iff (s.flows p).key (s.flows q).key,
    );
    unused = λ q h. ground (arith, v.unused q, v.listed (s.flows p).key p);
  }

  pub close_all-IsSound : (ps : List ℕ) (s : Server Addr) → IsSound s → IsSound (close_all ps s)
  unfolding close_all
  close_all-IsSound [] s v = v
  close_all-IsSound (p ∷ ps) s v = close_all-IsSound ps (close_flow p s) (close_flow-IsSound p s v)
