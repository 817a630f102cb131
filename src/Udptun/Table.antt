-- ===== src/Udptun/Table.antt =====
-- udptun/client.go: the client's flow table. Flows are objects behind pointers, since both maps and
-- the relay loops share them; a pointer is an index into `flows`, and `allocated` is the next one.
-- Times are nanoseconds, and an address is known by its text.
pub mod Search
pub mod Valid
pub mod Reap
use xtaci_kcptun.Prelude.{
  ℕ, zero, suc, ◌+◌, ◌%◌, ◌^◌, String, List, [], ◌∷◌, Option, none, some, Bool, not, ◌&&◌, ◌==◌,
  if◌then◌else◌, Dict, lookup, assign, delete, update, length, nat_eq, string_eq,
}
use xtaci_kcptun.Prelude.Int.{ℤ, sub_ℕ, ltb_ℤ}
use xtaci_kcptun.Udptun.Codec.{keep_alive_flow}

pub record ClientFlow (Addr : Type 0) : Type 0 where
  pub id : ℕ
  pub addr : Addr
  pub last_active : ℕ

pub record Table (Addr : Type 0) : Type 0 where
  pub flows : ℕ → ClientFlow Addr
  pub allocated : ℕ
  pub by_addr : Dict String ℕ
  pub by_id : Dict ℕ ℕ
  pub next_id : ℕ

abbrev pub is_nil : Option ℕ → Bool
is_nil none = Bool.true
is_nil (some p) = Bool.false

-- `c.nextID++` until the id is no keepalive and not in use; the counter wraps at 2^32.
unfoldable pub next_free : ℕ → ℕ → Dict ℕ ℕ → Option ℕ
next_free zero next m = none
next_free (suc fuel) next m =
    let id = (next + 1) % 2 ^ 32 in
    let rest = next_free fuel id m in
    if not (id == keep_alive_flow) && is_nil (lookup id m) then some id else rest

-- One try more than there are ids that the loop can skip.
abbrev pub tries : Dict ℕ ℕ → ℕ
tries m = length m + 2

module _ {Addr : Type 0} where
  -- `f.touch()`
  unfoldable pub touch : ℕ → ℕ → Table Addr → Table Addr
  touch now p t = record t { flows = update flows p (record (flows p) { last_active = now }) }
    where
      open t use {flows}

  -- The flow that `flowFor` registers.
  unfoldable pub register : String → Addr → ℕ → ℕ → Table Addr → ℕ × Table Addr
  register key addr now id t = (
    p,
    record t {
      flows = update t.flows p (record { id = id; addr = addr; last_active = now });
      allocated = suc p;
      by_addr = assign key p t.by_addr;
      by_id = assign id p t.by_id;
      next_id = id;
    },
  )
    where
      p : ℕ
      p = t.allocated

  -- `flowFor`; `none` stands for a search that never ends.
  unfoldable pub flow_for : (Addr → String) → ℕ → Addr → Table Addr → Option (ℕ × Table Addr)
  unfolding register
  flow_for show now addr t = elim (lookup (show addr) t.by_addr) [
    | some p ↦ some (p, t)
    | none ↦ elim (next_free (tries t.by_id) t.next_id t.by_id) [
      | some id ↦ some (register (show addr) addr now id t)
      | none ↦ none
    ]
  ]

  -- `lookup`; a nil flow is `none`.
  abbrev pub lookup_flow : ℕ → Table Addr → Option ℕ
  lookup_flow id t = lookup id t.by_id

  -- `f.idle() > idleTTL`, where a clock that went back gives a negative time.
  abbrev pub is_idle : ℤ → ℕ → ClientFlow Addr → Bool
  is_idle ttl now f = ltb_ℤ ttl (sub_ℕ now f.last_active)

  -- The body of `maintain`'s loop over `byAddr`, and the loop over its entries.
  unfoldable pub reap_one : ℤ → ℕ → String → ℕ → Table Addr → Table Addr
  reap_one ttl now key p t =
      if is_idle ttl now (t.flows p)
      then record t { by_addr = delete key t.by_addr; by_id = delete (t.flows p).id t.by_id }
      else t

  unfoldable pub reap_each : ℤ → ℕ → List (String × ℕ) → Table Addr → Table Addr
  unfolding reap_one
  reap_each ttl now [] t = t
  reap_each ttl now ((key, p) ∷ rest) t = reap_each ttl now rest (reap_one ttl now key p t)

  unfoldable pub reap : ℤ → ℕ → Table Addr → Table Addr
  unfolding reap_each
  reap ttl now t = reap_each ttl now t.by_addr t

-- The maps that `RunClient` makes; no pointer is in use, so any flow fills the store.
abbrev pub empty_table : {Addr : Type 0} → ClientFlow Addr → Table Addr
empty_table blank = record {
  flows = λ _. blank;
  allocated = 0;
  by_addr = [];
  by_id = [];
  next_id = 0;
}
