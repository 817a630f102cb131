-- ===== src/Kcptun/Examples/Snmps.antt =====
-- snmpLogger with two counters: a day's file, a tick at which nothing is written, and the next day's.
use xtaci_kcptun.Prelude.{
  ℕ, ◌≡◌, refl, String, List, [], ◌∷◌, ◌++◌, true, false, lookup, assign, delete, if◌then◌else◌,
  ltb,
}
use xtaci_kcptun.Kcptun.Snmp.{
  Snmp, Row, Tick, Log, LogEvent, counts, ticks, run, handle, on_tick, contents,
}
use xtaci_kcptun.Kcptun.Snmp.Logged.{IsHeaded, run-Appended, run-AllHeaded}

abbrev two : Snmp
two = record {
  Value = String × String;
  reset = ("0", "0");
  snmp_header = "BytesSent" ∷ "BytesReceived" ∷ [];
  to_slice = λ v. v.0 ∷ v.1 ∷ [];
}

abbrev day : ℕ → String
day t = if ltb t 100 then "monday.csv" else "tuesday.csv"

abbrev unix : ℕ → String
unix t = if ltb t 100 then "60" else "120"

abbrev silent : Log two
silent = record { files = []; counters = ("0", "0"); running = true }

abbrev tick : ℕ → Tick
tick t = record { now = t; opens = true; stats = true; flushes = true }

abbrev history : List (LogEvent two)
history =
    counts ("7", "9")
    ∷ ticks (tick 60)
    ∷ ticks (record (tick 90) { flushes = false })
    ∷ counts ("1", "2")
    ∷ ticks (tick 120)
    ∷ []

tuesday_rows :
    contents (run two day unix history silent).files "tuesday.csv"
    ≡ ("Unix" ∷ "BytesSent" ∷ "BytesReceived" ∷ []) ∷ ("120" ∷ "1" ∷ "2" ∷ []) ∷ []
unfolding run handle on_tick lookup assign delete
tuesday_rows = refl

run-Appended_example :
    (more : List Row) × (contents (run two day unix history silent).files "monday.csv"
      ≡ contents silent.files "monday.csv" ++ more)
run-Appended_example = run-Appended two day unix history silent "monday.csv"

run-AllHeaded_example :
    IsHeaded two day unix (contents (run two day unix history silent).files "monday.csv")
run-AllHeaded_example =
    run-AllHeaded two day unix history silent (refl, (refl, (refl, tt)))
      (λ name. unfold lookup in tt) "monday.csv"
