-- ===== src/Kcptun/Snmp.antt =====
-- client/main.go and server/main.go: snmpLogger, which appends a row of counters to a file at each tick.
-- The counters, their names and the name of the file at a time are the libraries'. A row is shorter
-- than the writer's buffer, so it reaches the file when the writer is flushed, or not at all.
pub mod Logged
use xtaci_kcptun.Prelude.{
  ℕ, ◌≡◌, refl, sym, ◌∙◌, ap, String, List, [], ◌∷◌, ◌++◌, Option, none, some, Bool, true, false,
  not, ◌||◌, ◌&&◌, if◌then◌else◌, Dict, lookup, assign, lookup-assign, string_eq, arith,
  Option-cases, Bool-cases, inl, inr,
}
use xtaci_kcptun.Prelude.Int.{ℤ, pos, ltb_ℤ}

-- kcp.DefaultSnmp.
pub record Snmp : Type 1 where
  pub Value : Type 0
  pub reset : Value
  pub snmp_header : List String
  pub to_slice : Value → List String

abbrev pub Row : Type 0
Row = List String

-- What a tick meets: whether the file opens, whether its size is known, whether the flush writes.
pub record Tick : Type 0 where
  pub now : ℕ
  pub opens : Bool
  pub stats : Bool
  pub flushes : Bool

-- What a call of snmpLogger comes to: it returns, NewTicker panics, or it logs.
pub data Call : Type 0 where
  returned panicked logging : Call

unfoldable pub snmp_logger : String → ℤ → Call
snmp_logger path interval =
    if string_eq.beq path "" || not (ltb_ℤ interval (pos 0) || ltb_ℤ (pos 0) interval)
    then returned
    else if ltb_ℤ interval (pos 0)
    then panicked
    else logging

-- A file that is not there is opened empty.
abbrev pub contents : Dict String (List Row) → String → List Row
contents files name = elim (lookup name files) [ none ↦ [] | some rows ↦ rows ]

abbrev pub is_empty : List Row → Bool
is_empty [] = true
is_empty (r ∷ rs) = false

module _ (snmp : Snmp) where
  open snmp use {Value}

  -- The files, the counters, and whether the logger goes on.
  pub record Log : Type 0 where
    pub files : Dict String (List Row)
    pub counters : Value
    pub running : Bool

  -- Between ticks the counters change; at a tick the logger runs.
  pub data LogEvent : Type 0 where
    counts : Value → LogEvent
    ticks : Tick → LogEvent

module _ (snmp : Snmp) (name_at unix_at : ℕ → String) where
  abbrev pub header_row : Row
  header_row = "Unix" ∷ snmp.snmp_header

  -- The rows that the writer is given.
  abbrev pub rows : Tick → List Row → Snmp.Value snmp → List Row
  rows t old v =
      (if t.stats && is_empty old then header_row ∷ [] else [])
      ++ ((unix_at t.now ∷ snmp.to_slice v) ∷ [])

  unfoldable pub on_tick : Tick → Log snmp → Log snmp
  on_tick t l =
      let old = contents l.files (name_at t.now) in
      if t.opens
      then record l {
        files =
            assign (name_at t.now) (if t.flushes then old ++ rows t old l.counters else old)
              l.files;
        counters = snmp.reset;
      }
      else record l { running = false }

  unfoldable pub handle : LogEvent snmp → Log snmp → Log snmp
  unfolding on_tick
  handle (counts v) l = record l { counters = v }
  handle (ticks t) l = if l.running then on_tick t l else l

  unfoldable pub run : List (LogEvent snmp) → Log snmp → Log snmp
  unfolding handle
  run [] l = l
  run (e ∷ es) l = run es (handle e l)
