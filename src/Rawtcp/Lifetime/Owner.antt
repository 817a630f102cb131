-- ===== src/Rawtcp/Lifetime/Owner.antt =====
-- rawtcp/conn_linux.go: which peers' payloads reach ReadFrom, whatever the goroutines of a connection
-- do between each other.
use xtaci_kcptun.Prelude.{
  ℕ, ◌≡◌, refl, String, List, [], ◌∷◌, ◌++◌, Option, none, some, Bool, true, false, Dict, lookup,
  delete, assign, string_eq, arith,
}
use xtaci_kcptun.Rawtcp.{
  Segment, Flow, Conn, Message, Target, new_flow, flow_at, lock_flow, is_orphan, track, capture,
  advance, write_flow, write_resolved, write_to,
}
use xtaci_kcptun.Rawtcp.Lifetime.{
  clean, clean_flows, close, close_side, remove_elem, accept, returns, panics, Outcome,
}

-- A critical section of one of the goroutines, with what its system calls answer.
pub data Event : Type 0 where
  captures : ℕ → ℕ → String → Segment → Event
  writes : (String → Option Target) → ℕ → Bool → Bool → Bool → List ℕ → String → Event
  accepts : ℕ → Bool → String → ℕ → Event
  cleans : ℕ → Event
  closes : Event

abbrev pub after_close : Conn → Outcome Conn → Conn
after_close c (returns d effects) = d
after_close c (panics effects) = record c { died = true }

unfoldable pub run_event : Event → Conn → Conn × List Message
run_event (captures now handle src s) c = capture now handle src s c
run_event (writes resolve now expired serialized written p addr) c =
    ((write_to resolve now expired serialized written p addr c).conn, [])
run_event (accepts now kept key t) c = ((accept now kept key t c).0, [])
run_event (cleans now) c = ((clean now c).0, [])
run_event closes c = (after_close c (close c), [])

abbrev pub run_all : List Event → Conn → Conn × List Message
run_all [] c = (c, [])
run_all (e ∷ es) c =
    let (c, here) = run_event e c in let (c, there) = run_all es c in (c, here ++ there)

module _ (known : String → Bool) where
  -- Every peer whose connection is accepted is known.
  abbrev pub AcceptsKnown : List Event → Type 0
  AcceptsKnown [] = Unit {0}
  AcceptsKnown (captures now handle src s ∷ es) = AcceptsKnown es
  AcceptsKnown (writes resolve now expired serialized written p addr ∷ es) = AcceptsKnown es
  AcceptsKnown (accepts now kept key t ∷ es) = (kept ≡ true → known key ≡ true) × AcceptsKnown es
  AcceptsKnown (cleans now ∷ es) = AcceptsKnown es
  AcceptsKnown (closes ∷ es) = AcceptsKnown es

  abbrev pub FromKnown : List Message → Type 0
  FromKnown [] = Unit {0}
  FromKnown (m ∷ ms) = (known m.addr ≡ true) × FromKnown ms

  -- A flow with a connection is a known peer's.
  abbrev pub Owned : Dict String Flow → Type 0
  Owned [] = Unit {0}
  Owned ((key, e) ∷ m) = (is_orphan e ≡ false → known key ≡ true) × Owned m

  Owned-lookup :
      (key : String) (e : Flow) (m : Dict String Flow)
      → Owned m
      → lookup key m ≡ some e
      → is_orphan e ≡ false
      → known key ≡ true
  unfolding lookup
  Owned-lookup key e [] o held owned = ground arith
  Owned-lookup key e ((k, f) ∷ m) o held owned =
      ground (arith, string_eq.beq_iff k key, o.0, Owned-lookup key e m o.1)

  Owned-delete : (key : String) (m : Dict String Flow) → Owned m → Owned (delete key m)
  unfolding delete
  Owned-delete key [] o = tt
  Owned-delete key ((k, f) ∷ m) o = ground (arith, Owned-delete key m o.1, o.0)

  Owned-flow_at :
      (now : ℕ) (key : String) (c : Conn)
      → Owned c.flows
      → is_orphan (flow_at now key c) ≡ false
      → known key ≡ true
  Owned-flow_at now key c o owned = split (lookup key c.flows) refl owned
    where
      split :
          (found : Option Flow)
          → lookup key c.flows ≡ found
          → is_orphan (elim found [ some e ↦ e | none ↦ new_flow now ]) ≡ false
          → known key ≡ true
      split none held owned = ground arith
      split (some e) held owned = Owned-lookup key e c.flows o held owned

  lock_flow-Owned :
      (now : ℕ) (key : String) (f : Flow → Flow) (c : Conn)
      → (is_orphan (f (flow_at now key c)) ≡ false → known key ≡ true)
      → Owned c.flows
      → Owned (lock_flow now key f c).flows
  unfolding lock_flow assign
  lock_flow-Owned now key f c h o = (h, Owned-delete key c.flows o)

  clean_flows-Owned : (now : ℕ) (m : Dict String Flow) → Owned m → Owned (clean_flows now m).0
  unfolding clean_flows
  clean_flows-Owned now [] o = tt
  clean_flows-Owned now ((k, e) ∷ m) o = ground (arith, clean_flows-Owned now m o.1, o.0)

  write_flow-Owned :
      (now : ℕ) (serialized written : Bool) (p : List ℕ) (addr : String) (to : Target) (c : Conn)
      (e : Flow) (handle : Option ℕ)
      → Owned c.flows
      → Owned (write_flow now serialized written p addr to c e handle).conn.flows
  unfolding write_flow advance
  write_flow-Owned now serialized written p addr to c e none o =
      lock_flow-Owned now addr (λ e. e) c (Owned-flow_at now addr c o) o
  write_flow-Owned now serialized written p addr to c e (some handle) o = ground (
    arith,
    lock_flow-Owned now addr (λ e. e) c (Owned-flow_at now addr c o) o,
    lock_flow-Owned now addr (advance p) c (Owned-flow_at now addr c o) o,
  )

  write_resolved-Owned :
      (now : ℕ) (serialized written : Bool) (p : List ℕ) (addr : String) (c : Conn)
      (to : Option Target)
      → Owned c.flows
      → Owned (write_resolved now serialized written p addr c to).conn.flows
  unfolding write_resolved
  write_resolved-Owned now serialized written p addr c none o = o
  write_resolved-Owned now serialized written p addr c (some to) o =
      write_flow-Owned now serialized written p addr to c (flow_at now addr c)
        (flow_at now addr c).handle o

  write_to-Owned :
      (resolve : String → Option Target) (now : ℕ) (expired serialized written : Bool) (p : List ℕ)
      (addr : String) (c : Conn)
      → Owned c.flows
      → Owned (write_to resolve now expired serialized written p addr c).conn.flows
  unfolding write_to
  write_to-Owned resolve now expired serialized written p addr c o =
      ground (arith, write_resolved-Owned now serialized written p addr c (resolve addr) o)

  capture-Owned :
      (now handle : ℕ) (src : String) (s : Segment) (c : Conn)
      → Owned c.flows
      → Owned (capture now handle src s c).0.flows × FromKnown (capture now handle src s c).1
  unfolding capture track
  capture-Owned now handle src s c o = ground (
    arith,
    lock_flow-Owned now src (track now handle s) c (Owned-flow_at now src c o) o,
    Owned-flow_at now src c o,
  )

  accept-Owned :
      (now : ℕ) (kept : Bool) (key : String) (t : ℕ) (c : Conn)
      → (kept ≡ true → known key ≡ true)
      → Owned c.flows
      → Owned (accept now kept key t c).0.flows
  unfolding accept
  accept-Owned now true key t c h o =
      lock_flow-Owned now key (λ e. record e { conn = some t }) c (λ owned. h refl) o
  accept-Owned now false key t c h o = o

  close-Owned : (c : Conn) → Owned c.flows → Owned (after_close c (close c)).flows
  unfolding close close_side remove_elem
  close-Owned c o = ground (arith, o)

  run_event-Owned :
      (e : Event) (es : List Event) (c : Conn)
      → AcceptsKnown (e ∷ es)
      → Owned c.flows
      → Owned (run_event e c).0.flows × FromKnown (run_event e c).1
  unfolding run_event clean
  run_event-Owned (captures now handle src s) es c h o = capture-Owned now handle src s c o
  run_event-Owned (writes resolve now expired serialized written p addr) es c h o =
      (write_to-Owned resolve now expired serialized written p addr c o, tt)
  run_event-Owned (accepts now kept key t) es c h o = (accept-Owned now kept key t c h.0 o, tt)
  run_event-Owned (cleans now) es c h o = (clean_flows-Owned now c.flows o, tt)
  run_event-Owned closes es c h o = (close-Owned c o, tt)

  AcceptsKnown-rest : (e : Event) (es : List Event) → AcceptsKnown (e ∷ es) → AcceptsKnown es
  AcceptsKnown-rest (captures now handle src s) es h = h
  AcceptsKnown-rest (writes resolve now expired serialized written p addr) es h = h
  AcceptsKnown-rest (accepts now kept key t) es h = h.1
  AcceptsKnown-rest (cleans now) es h = h
  AcceptsKnown-rest closes es h = h

  FromKnown-++ : (ms ns : List Message) → FromKnown ms → FromKnown ns → FromKnown (ms ++ ns)
  FromKnown-++ [] ns h k = k
  FromKnown-++ (m ∷ ms) ns h k = (h.0, FromKnown-++ ms ns h.1 k)

  -- If the flows with a TCP connection are peers' that a test knows, and it knows every peer whose
  -- connection the accept loop keeps, then whatever the goroutines of the connection do, in any order,
  -- only such peers' payloads are handed to ReadFrom.
  pub run_all-FromKnown :
      (es : List Event) (c : Conn) → AcceptsKnown es → Owned c.flows → FromKnown (run_all es c).1
  run_all-FromKnown [] c h o = tt
  run_all-FromKnown (e ∷ es) c h o =
      let (owned, here) = run_event-Owned e es c h o in
      FromKnown-++ _ _ here (run_all-FromKnown es _ (AcceptsKnown-rest e es h) owned)
