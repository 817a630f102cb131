-- ===== src/Kcptun/Snmp/Logged.antt =====
-- What snmpLogger does to the files over time.
use mathlib.Core.List.{append_assoc, append-nil}
use xtaci_kcptun.Prelude.{
  ℕ, ◌≡◌, refl, sym, ◌∙◌, ap, String, List, [], ◌∷◌, ◌++◌, Bool, true, false, ◌&&◌, Dict, assign,
  lookup-assign, string_eq, arith, Bool-cases, inl, inr, if◌then◌else◌,
}
use xtaci_kcptun.Kcptun.Snmp.{
  Snmp, Row, Tick, Log, LogEvent, counts, ticks, contents, header_row, rows, on_tick, handle, run,
}

module _ (snmp : Snmp) (name_at unix_at : ℕ → String) where
  -- A file that is empty or begins with the names of the columns.
  abbrev pub IsHeaded : List Row → Type 0
  IsHeaded [] = Unit {0}
  IsHeaded (r ∷ rs) = r ≡ header_row snmp name_at unix_at

  abbrev pub AllHeaded : Log snmp → Type 0
  AllHeaded l = (name : String) → IsHeaded (contents l.files name)

  -- At every tick the size of the file is known.
  abbrev pub AllStat : List (LogEvent snmp) → Type 0
  AllStat [] = Unit {0}
  AllStat (counts v ∷ es) = AllStat es
  AllStat (ticks t ∷ es) = (t.stats ≡ true) × AllStat es

  -- A log that goes on from another: every file is what it was, and what was appended to it.
  abbrev pub Appended : Log snmp → Log snmp → Type 0
  Appended l m =
      (name : String) → (more : List Row) × (contents m.files name ≡ contents l.files name ++ more)

  rows-IsHeaded :
      (t : Tick) (old : List Row) (v : Snmp.Value snmp)
      → t.stats ≡ true
      → IsHeaded old
      → IsHeaded (old ++ rows snmp name_at unix_at t old v)
  rows-IsHeaded t [] v s h = rw s refl
  rows-IsHeaded t (r ∷ rs) v s h = h

  contents-assign :
      (name other : String) (new : List Row) (files : Dict String (List Row))
      → contents (assign name new files) other
        ≡ (if string_eq.beq name other then new else contents files other)
  contents-assign name other new files = ground (arith, lookup-assign name other new files)

  -- What a tick writes to its file.
  abbrev appended : Tick → Log snmp → List Row
  appended t l =
      if t.opens && t.flushes
      then rows snmp name_at unix_at t (contents l.files (name_at t.now)) l.counters
      else []

  on_tick-contents :
      (t : Tick) (l : Log snmp) (other : String)
      → contents (on_tick snmp name_at unix_at t l).files other ≡ (
          if string_eq.beq (name_at t.now) other
          then contents l.files other ++ appended t l
          else contents l.files other)
  unfolding on_tick
  on_tick-contents t l other = elim (Bool-cases t.opens) [
    | inr shut ↦ rw shut (ground (arith, append-nil (contents l.files other)))
    | inl there ↦ rw there (
        ground (
          arith,
          append-nil (contents l.files other),
          contents-assign (name_at t.now) other
              (if t.flushes
                then contents l.files (name_at t.now)
                  ++ rows snmp name_at unix_at t (contents l.files (name_at t.now)) l.counters
                else contents l.files (name_at t.now))
              l.files,
          string_eq.beq_iff (name_at t.now) other,
        ))
  ]

  on_tick-Appended : (t : Tick) (l : Log snmp) → Appended l (on_tick snmp name_at unix_at t l)
  on_tick-Appended t l other = elim (Bool-cases (string_eq.beq (name_at t.now) other)) [
    | inl hit ↦ (appended t l, ground (arith, on_tick-contents t l other))
    | inr miss ↦
        ([], ground (arith, on_tick-contents t l other, append-nil (contents l.files other)))
  ]

  on_tick-AllHeaded :
      (t : Tick) (l : Log snmp)
      → t.stats ≡ true
      → AllHeaded l
      → AllHeaded (on_tick snmp name_at unix_at t l)
  unfolding on_tick
  on_tick-AllHeaded t l s h other = elim (Bool-cases t.opens) [
    | inr shut ↦ rw shut (h other)
    | inl there ↦ rw there (
        rw (contents-assign _ _ _ _) (elim (Bool-cases (string_eq.beq (name_at t.now) other)) [
          | inr miss ↦ rw miss (h other)
          | inl hit ↦ rw hit (elim (Bool-cases t.flushes) [
            | inr lost ↦ rw lost (h (name_at t.now))
            | inl written ↦ rw written (
                rows-IsHeaded t (contents l.files (name_at t.now)) l.counters s (h (name_at t.now)))
          ])
        ]))
  ]

  either : (P : Log snmp → Type 0) (b : Bool) {l m : Log snmp} → P l → P m → P (if b then l else m)
  either P true x y = x
  either P false x y = y

  handle-Appended :
      (e : LogEvent snmp) (l : Log snmp) → Appended l (handle snmp name_at unix_at e l)
  unfolding handle
  handle-Appended (counts v) l other = ([], sym (append-nil (contents l.files other)))
  handle-Appended (ticks t) l other =
      either (Appended l) l.running (on_tick-Appended t l)
        (λ name. ([], sym (append-nil (contents l.files name)))) other

  -- However the counters change between the ticks and whatever fails at them, a file that the logger
  -- cannot open, one whose size is not known, a write that does not arrive: every file holds the rows it
  -- had, in their order, and after them what was appended.
  pub run-Appended :
      (es : List (LogEvent snmp)) (l : Log snmp) → Appended l (run snmp name_at unix_at es l)
  unfolding run
  run-Appended [] l other = ([], sym (append-nil (contents l.files other)))
  run-Appended (e ∷ es) l other =
      let (first, h) = handle-Appended e l other in
      let (rest, j) = run-Appended es (handle snmp name_at unix_at e l) other in
      (
        first ++ rest,
        j ∙ (ap (λ (x : List Row). x ++ rest) h ∙ append_assoc (contents l.files other) first rest),
      )

  handle-AllHeaded :
      (t : Tick) (l : Log snmp)
      → t.stats ≡ true
      → AllHeaded l
      → AllHeaded (handle snmp name_at unix_at (ticks t) l)
  unfolding handle
  handle-AllHeaded t l s h = either AllHeaded l.running (on_tick-AllHeaded t l s h) h

  -- When the size of the file is known at every tick, and every file is empty or begins with the names of
  -- the columns at first, every file is empty or begins with these names afterwards, however the counters
  -- change and whatever else fails.
  pub run-AllHeaded :
      (es : List (LogEvent snmp)) (l : Log snmp)
      → AllStat es
      → AllHeaded l
      → AllHeaded (run snmp name_at unix_at es l)
  unfolding run
  run-AllHeaded [] l s h = h
  run-AllHeaded (counts v ∷ es) l s h =
      run-AllHeaded es (handle snmp name_at unix_at (counts v) l) s (unfold handle in h)
  run-AllHeaded (ticks t ∷ es) l s h =
      run-AllHeaded es (handle snmp name_at unix_at (ticks t) l) s.1 (handle-AllHeaded t l s.0 h)
