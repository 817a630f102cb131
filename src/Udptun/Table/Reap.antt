-- ===== src/Udptun/Table/Reap.antt =====
-- What one round of reaping removes: the flows that are idle, from both maps, and nothing else.
use xtaci_kcptun.Prelude.{
  ℕ, ◌≡◌, refl, String, List, [], ◌∷◌, Option, none, some, arith, Bool, true, false, ◌&&◌, ◌||◌,
  ◌==◌, if◌then◌else◌, inl, inr, Option-cases, Bool-cases, lookup, lookup-delete, Distinct,
  Distinct-delete, nat_eq, string_eq,
}
use xtaci_kcptun.Prelude.Int.{ℤ}
use xtaci_kcptun.Udptun.Table.{ClientFlow, Table, reap_one, reap_each, reap, is_idle}
use xtaci_kcptun.Udptun.Table.Valid.{IsValid}

module _ {Addr : Type 0} (ttl : ℤ) (now : ℕ) where
  -- A map's answer once the idle flows are gone.
  abbrev pub unless_idle : Table Addr → Option ℕ → Option ℕ
  unless_idle t none = none
  unless_idle t (some p) = if is_idle ttl now (t.flows p) then none else some p

  -- Reaping writes to the maps alone.
  pub record SameFlows (t u : Table Addr) : Type 0 where
    pub flows : u.flows ≡ t.flows
    pub allocated : u.allocated ≡ t.allocated
    pub next_id : u.next_id ≡ t.next_id

  reap_each-SameFlows :
      (es : List (String × ℕ)) (t : Table Addr) → SameFlows t (reap_each ttl now es t)
  unfolding reap_each
  reap_each-SameFlows [] t = record { flows = refl; allocated = refl; next_id = refl }
  reap_each-SameFlows ((key, p) ∷ es) t =
      let r = reap_each-SameFlows es (reap_one ttl now key p t) in
      record {
        flows = ground (arith, r);
        allocated = ground (arith, r);
        next_id = ground (arith, r);
      }

  -- An entry of the list whose flow is idle, by key and by id.
  dead_key : (ℕ → ClientFlow Addr) → List (String × ℕ) → String → Bool
  dead_key flows [] key = false
  dead_key flows ((k, p) ∷ es) key =
      (is_idle ttl now (flows p) && string_eq.beq k key) || dead_key flows es key

  dead_id : (ℕ → ClientFlow Addr) → List (String × ℕ) → ℕ → Bool
  dead_id flows [] id = false
  dead_id flows ((k, p) ∷ es) id =
      (is_idle ttl now (flows p) && (flows p).id == id) || dead_id flows es id

  reap_each-by_addr :
      (es : List (String × ℕ)) (t : Table Addr) (key : String)
      → lookup key (reap_each ttl now es t).by_addr
        ≡ (if dead_key t.flows es key then none else lookup key t.by_addr)
  unfolding reap_each dead_key
  reap_each-by_addr [] t key = refl
  reap_each-by_addr ((k, p) ∷ es) t key =
      ground
        (arith, reap_each-by_addr es (reap_one ttl now k p t) key, lookup-delete k key t.by_addr)

  reap_each-by_id :
      (es : List (String × ℕ)) (t : Table Addr) (id : ℕ)
      → lookup id (reap_each ttl now es t).by_id
        ≡ (if dead_id t.flows es id then none else lookup id t.by_id)
  unfolding reap_each dead_id
  reap_each-by_id [] t id = refl
  reap_each-by_id ((k, p) ∷ es) t id = ground (
    arith,
    reap_each-by_id es (reap_one ttl now k p t) id,
    lookup-delete (t.flows p).id id t.by_id,
  )

  abbrev idle_at : (ℕ → ClientFlow Addr) → Option ℕ → Bool
  idle_at flows none = false
  idle_at flows (some p) = is_idle ttl now (flows p)

  -- The entries of a map without repeated keys are what it answers.
  dead_key-lookup :
      (flows : ℕ → ClientFlow Addr) (es : List (String × ℕ)) (key : String)
      → Distinct es
      → dead_key flows es key ≡ idle_at flows (lookup key es)
  unfolding dead_key lookup
  dead_key-lookup flows [] key d = refl
  dead_key-lookup flows ((k, p) ∷ es) key d = elim (Bool-cases (string_eq.beq k key)) [
    | inr miss ↦ rw (miss, dead_key-lookup flows es key d.1) (ground arith)
    | inl hit ↦
        rw (hit, dead_key-lookup flows es key d.1, ← (string_eq.beq_iff k key).0 hit, d.0)
          (ground arith)
  ]

  -- An entry whose flow is idle and has the id.
  record Dead (flows : ℕ → ClientFlow Addr) (es : List (String × ℕ)) (id : ℕ) : Type 0 where
    key : String
    flow : ℕ
    entry : lookup key es ≡ some flow
    its_id : (flows flow).id ≡ id
    idle : is_idle ttl now (flows flow) ≡ true

  dead_id-Dead :
      (flows : ℕ → ClientFlow Addr) (es : List (String × ℕ)) (id : ℕ)
      → Distinct es
      → dead_id flows es id ≡ true
      → Dead flows es id
  unfolding dead_id lookup
  dead_id-Dead flows [] id d h = absurd (ground arith)
  dead_id-Dead flows ((k, p) ∷ es) id d h =
      elim (Bool-cases (is_idle ttl now (flows p) && (flows p).id == id)) [
        | inl here ↦ record {
          key = k;
          flow = p;
          entry = ground (arith, string_eq.beq_iff k k);
          its_id = ground arith;
          idle = ground arith;
        }
        | inr later ↦ there (dead_id-Dead flows es id d.1 (ground arith))
      ]
    where
      there : Dead flows es id → Dead flows ((k, p) ∷ es) id
      there r = record {
        key = r.key;
        flow = r.flow;
        entry = ground (arith, r.entry, string_eq.beq_iff k r.key);
        its_id = r.its_id;
        idle = r.idle;
      }

  Dead-dead_id :
      (flows : ℕ → ClientFlow Addr) (es : List (String × ℕ)) (key : String) (p : ℕ)
      → lookup key es ≡ some p
      → is_idle ttl now (flows p) ≡ true
      → dead_id flows es (flows p).id ≡ true
  unfolding dead_id lookup
  Dead-dead_id flows [] key p e h = absurd (ground arith)
  Dead-dead_id flows ((k, q) ∷ es) key p e h = elim (Bool-cases (string_eq.beq k key)) [
    | inl hit ↦ ground arith
    | inr miss ↦ ground (arith, Dead-dead_id flows es key p)
  ]

  reap_each-Distinct :
      (es : List (String × ℕ)) (t : Table Addr)
      → Distinct t.by_addr
      → Distinct (reap_each ttl now es t).by_addr
  unfolding reap_each
  reap_each-Distinct [] t d = d
  reap_each-Distinct ((k, p) ∷ es) t d =
      reap_each-Distinct es (reap_one ttl now k p t) (ground (arith, Distinct-delete k t.by_addr d))

  module _ (show : Addr → String) (t : Table Addr) (v : IsValid show t) where
    by_addr-reap :
        (key : String) → lookup key (reap ttl now t).by_addr ≡ unless_idle t (lookup key t.by_addr)
    unfolding reap
    by_addr-reap key =
        ground (
          arith,
          reap_each-by_addr t.by_addr t key,
          dead_key-lookup t.flows t.by_addr key v.distinct,
        )

    dead_by_id :
        (id p : ℕ)
        → lookup id t.by_id ≡ some p
        → dead_id t.flows t.by_addr id ≡ is_idle ttl now (t.flows p)
    dead_by_id id p e = elim (Bool-cases (is_idle ttl now (t.flows p))) [
      | inl idle ↦
          ground (arith, v.id_flow id p, Dead-dead_id t.flows t.by_addr (show (t.flows p).addr) p)
      | inr awake ↦ elim (Bool-cases (dead_id t.flows t.by_addr id)) [
        | inr alive ↦ rw (alive, awake)
        | inl dead ↦ absurd (clash awake (dead_id-Dead t.flows t.by_addr id v.distinct dead))
      ]
    ]
      where
        clash : is_idle ttl now (t.flows p) ≡ false → Dead t.flows t.by_addr id → ⊥
        clash awake r = ground (arith, r, e, v.addr_flow r.key r.flow r.entry)

    by_id-reap : (id : ℕ) → lookup id (reap ttl now t).by_id ≡ unless_idle t (lookup id t.by_id)
    unfolding reap
    by_id-reap id = elim (Option-cases (lookup id t.by_id)) [
      | inl missing ↦ ground (arith, reap_each-by_id t.by_addr t id)
      | inr (p, e) ↦ ground (arith, reap_each-by_id t.by_addr t id, dead_by_id id p e)
    ]

    -- A round of reaping empties both maps of exactly the flows that are idle, and leaves the flows
    -- themselves, the counter and the agreement of the maps.
    pub record Reaped : Type 0 where
      pub valid : IsValid show (reap ttl now t)
      pub by_addr :
          (key : String)
          → lookup key (reap ttl now t).by_addr ≡ unless_idle t (lookup key t.by_addr)
      pub by_id : (id : ℕ) → lookup id (reap ttl now t).by_id ≡ unless_idle t (lookup id t.by_id)
      pub same : SameFlows t (reap ttl now t)

    reap-SameFlows : SameFlows t (reap ttl now t)
    unfolding reap
    reap-SameFlows = reap_each-SameFlows t.by_addr t

    reap-Distinct : Distinct (reap ttl now t).by_addr
    unfolding reap
    reap-Distinct = reap_each-Distinct t.by_addr t v.distinct

    reap-IsValid : SameFlows t (reap ttl now t) → IsValid show (reap ttl now t)
    reap-IsValid s = record {
      addr_flow = λ key p e.
          ground (arith, s, by_addr-reap key, by_id-reap (t.flows p).id, v.addr_flow key p);
      id_flow = λ id p e.
          ground (arith, s, by_id-reap id, by_addr-reap (show (t.flows p).addr), v.id_flow id p);
      distinct = reap-Distinct;
      next_small = ground (arith, s, v.next_small);
    }

    pub reap_lem : Reaped
    reap_lem = record {
      valid = reap-IsValid reap-SameFlows;
      by_addr = by_addr-reap;
      by_id = by_id-reap;
      same = reap-SameFlows;
    }
