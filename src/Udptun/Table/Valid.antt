-- ===== src/Udptun/Table/Valid.antt =====
-- The two maps of the flow table name the same flows, and the operations keep it so.
use xtaci_kcptun.Prelude.{
  ℕ, ◌+◌, ◌^◌, ◌≤◌, ◌<◌, ◌≡◌, refl, String, none, some, arith, inl, inr, Option-cases, lookup,
  lookup-assign, Distinct, Distinct-assign, update, nat_eq, string_eq, length, ◌⊎◌, subst,
}
use xtaci_kcptun.Udptun.Table.{
  ClientFlow, Table, flow_for, register, touch, next_free, tries, empty_table,
}
use xtaci_kcptun.Udptun.Table.Search.{next_free_lem, next_free_total}

module _ {Addr : Type 0} (show : Addr → String) where
  -- A key of `byAddr` is the text of its flow's address, and the flow is in `byID` too; an id of
  -- `byID` is its flow's, no keepalive, and the flow is in `byAddr` too.
  pub record IsValid (t : Table Addr) : Type 0 where
    pub addr_flow :
        (key : String) (p : ℕ)
        → lookup key t.by_addr ≡ some p
        → (p < t.allocated)
          × (show (t.flows p).addr ≡ key)
          × (lookup (t.flows p).id t.by_id ≡ some p)
    pub id_flow :
        (id p : ℕ)
        → lookup id t.by_id ≡ some p
        → ((t.flows p).id ≡ id)
          × (0 < id)
          × (id < 2 ^ 32)
          × (lookup (show (t.flows p).addr) t.by_addr ≡ some p)
    pub distinct : Distinct t.by_addr
    pub next_small : t.next_id < 2 ^ 32

  pub empty-IsValid : (blank : ClientFlow Addr) → IsValid (empty_table blank)
  unfolding lookup
  empty-IsValid blank = record {
    addr_flow = λ key p e. cc;
    id_flow = λ id p e. cc;
    distinct = tt;
    next_small = omega arith;
  }

  pub touch-IsValid : (now p : ℕ) (t : Table Addr) → IsValid t → IsValid (touch now p t)
  unfolding touch update
  touch-IsValid now p t v = record {
    addr_flow = λ key q e. ground (arith, v.addr_flow key q);
    id_flow = λ id q e. ground (arith, v.id_flow id q);
    distinct = v.distinct;
    next_small = v.next_small;
  }

  pub register-IsValid :
      (addr : Addr) (now id : ℕ) (t : Table Addr)
      → IsValid t
      → lookup (show addr) t.by_addr ≡ none
      → 0 < id
      → id < 2 ^ 32
      → lookup id t.by_id ≡ none
      → IsValid (register (show addr) addr now id t).1
  unfolding register update
  register-IsValid addr now id t v fresh pos small free = record {
    addr_flow = λ key q e. ground (
      arith,
      v.addr_flow key q,
      lookup-assign (show addr) key t.allocated t.by_addr,
      string_eq.beq_iff (show addr) key,
      lookup-assign id (t.flows q).id t.allocated t.by_id,
      lookup-assign id id t.allocated t.by_id,
    );
    id_flow = λ j q e. ground (
      arith,
      v.id_flow j q,
      v.addr_flow (show (t.flows q).addr) q,
      lookup-assign id j t.allocated t.by_id,
      lookup-assign (show addr) (show (t.flows q).addr) t.allocated t.by_addr,
      lookup-assign (show addr) (show addr) t.allocated t.by_addr,
      string_eq.beq_iff (show addr) (show (t.flows q).addr),
      string_eq.beq_iff (show addr) (show addr),
    );
    distinct = Distinct-assign (show addr) t.allocated t.by_addr v.distinct;
    next_small = small;
  }

  -- What registering a flow needs of the table: an address without a flow, and a free id.
  pub record IsNew (addr : Addr) (t : Table Addr) (id : ℕ) : Type 0 where
    pub no_flow : lookup (show addr) t.by_addr ≡ none
    pub positive : 0 < id
    pub small : id < 2 ^ 32
    pub free : lookup id t.by_id ≡ none

  -- The two ways in which `flowFor` returns.
  abbrev pub FlowFor : ℕ → Addr → Table Addr → ℕ → Table Addr → Type 0
  FlowFor now addr t p t' =
      ((lookup (show addr) t.by_addr ≡ some p) × (t ≡ t'))
      ⊎ ((id : ℕ) × IsNew addr t id × (register (show addr) addr now id t ≡ (p, t')))

  pub flow_for_cases :
      (now : ℕ) (addr : Addr) (t : Table Addr) {p : ℕ} {t' : Table Addr}
      → flow_for show now addr t ≡ some (p, t')
      → FlowFor now addr t p t'
  unfolding flow_for
  flow_for_cases now addr t {p} {t'} e = elim (Option-cases (lookup (show addr) t.by_addr)) [
    | inr (q, hit) ↦ inl (ground arith, ground arith)
    | inl miss ↦ elim (Option-cases (next_free (tries t.by_id) t.next_id t.by_id)) [
      | inl stuck ↦ absurd (ground arith)
      | inr (id, found) ↦
          let (pos, small, free) = next_free_lem (tries t.by_id) t.next_id t.by_id found in
          inr (
            id,
            record { no_flow = miss; positive = pos; small = small; free = free },
            ground arith,
          )
    ]
  ]

  -- A table with fewer than 2^32 - 2 flows: `flowFor` returns.
  pub flow_for_total :
      (now : ℕ) (addr : Addr) (t : Table Addr)
      → IsValid t
      → length t.by_id + 2 ≤ 2 ^ 32
      → (p : ℕ) × (t' : Table Addr) × (flow_for show now addr t ≡ some (p, t'))
  unfolding flow_for
  flow_for_total now addr t v room = elim (Option-cases (lookup (show addr) t.by_addr)) [
    | inr (q, hit) ↦ (q, t, rw (hit, flow_for))
    | inl miss ↦
        let (id, found) = next_free_total t.next_id t.by_id v.next_small room in
        let r = register (show addr) addr now id t in (r.0, r.1, rw (miss, found, flow_for))
  ]

  -- The address now has the flow, and the flows that were there keep their address, id and state.
  pub record Opened (addr : Addr) (t : Table Addr) (p : ℕ) (t' : Table Addr) : Type 0 where
    pub valid : IsValid t'
    pub by_its_addr : lookup (show addr) t'.by_addr ≡ some p
    pub by_its_id : lookup (t'.flows p).id t'.by_id ≡ some p
    pub addr_same : show (t'.flows p).addr ≡ show addr
    pub id_range : (0 < (t'.flows p).id) × ((t'.flows p).id < 2 ^ 32)
    pub kept :
        (key : String) (q : ℕ)
        → lookup key t.by_addr ≡ some q
        → (lookup key t'.by_addr ≡ some q) × (t'.flows q ≡ t.flows q)

  known-Opened :
      (addr : Addr) (t : Table Addr) {p : ℕ}
      → IsValid t
      → lookup (show addr) t.by_addr ≡ some p
      → Opened addr t p t
  known-Opened addr t {p} v hit =
      let (below, same, listed) = v.addr_flow (show addr) p hit in
      let (_, pos, small, _) = v.id_flow (t.flows p).id p listed in
      record {
        valid = v;
        by_its_addr = hit;
        by_its_id = listed;
        addr_same = same;
        id_range = (pos, small);
        kept = λ key q e. (e, refl);
      }

  register-Opened :
      (now : ℕ) (addr : Addr) (t : Table Addr) (id : ℕ)
      → IsValid t
      → IsNew addr t id
      → Opened addr t t.allocated (register (show addr) addr now id t).1
  unfolding register update
  register-Opened now addr t id v n = record {
    valid = register-IsValid addr now id t v n.no_flow n.positive n.small n.free;
    by_its_addr = ground (
      arith,
      lookup-assign (show addr) (show addr) t.allocated t.by_addr,
      string_eq.beq_iff (show addr) (show addr),
    );
    by_its_id = ground (arith, lookup-assign id id t.allocated t.by_id);
    addr_same = ground arith;
    id_range = ground arith;
    kept = λ key q e. ground (
      arith,
      v.addr_flow key q,
      lookup-assign (show addr) key t.allocated t.by_addr,
      string_eq.beq_iff (show addr) key,
    );
  }

  pub flow_for_lem :
      (now : ℕ) (addr : Addr) (t : Table Addr) {p : ℕ} {t' : Table Addr}
      → IsValid t
      → flow_for show now addr t ≡ some (p, t')
      → Opened addr t p t'
  unfolding register
  flow_for_lem now addr t {p} {t'} v e = go (flow_for_cases now addr t e)
    where
      go : FlowFor now addr t p t' → Opened addr t p t'
      go (inl (hit, same)) = subst (Opened addr t p) same (known-Opened addr t v hit)
      go (inr (id, n, eq)) =
          subst (λ (r : ℕ × Table Addr). Opened addr t r.0 r.1) eq
            (register-Opened now addr t id v n)

  -- A flow that `flowFor` returns is filed under the address's text and under its id, which is no
  -- keepalive's, stands for an address with that text, and the maps still agree.
  pub flow_for-IsValid :
      (now : ℕ) (addr : Addr) (t : Table Addr) {p : ℕ} {t' : Table Addr}
      → IsValid t
      → flow_for show now addr t ≡ some (p, t')
      → IsValid t'
        × (lookup (show addr) t'.by_addr ≡ some p)
        × (lookup (t'.flows p).id t'.by_id ≡ some p)
        × (show (t'.flows p).addr ≡ show addr)
        × (0 < (t'.flows p).id)
        × ((t'.flows p).id < 2 ^ 32)
  flow_for-IsValid now addr t v e =
      let o = flow_for_lem now addr t v e in
      (o.valid, o.by_its_addr, o.by_its_id, o.addr_same, o.id_range.0, o.id_range.1)

  -- Opening a flow leaves every flow of another address as it was, with the same id, in both maps.
  pub flow_for_kept :
      (now : ℕ) (addr : Addr) (t : Table Addr) (key : String) (q : ℕ) {p : ℕ} {t' : Table Addr}
      → IsValid t
      → flow_for show now addr t ≡ some (p, t')
      → lookup key t.by_addr ≡ some q
      → (lookup key t'.by_addr ≡ some q)
        × (lookup (t.flows q).id t'.by_id ≡ some q)
        × (t'.flows q ≡ t.flows q)
  flow_for_kept now addr t key q v e h =
      let o = flow_for_lem now addr t v e in
      let (kept, same) = o.kept key q h in
      let (_, _, listed) = o.valid.addr_flow key q kept in
      (kept, ground (arith, listed, same), same)
