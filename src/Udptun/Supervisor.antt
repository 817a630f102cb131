-- ===== src/Udptun/Supervisor.antt =====
-- udptun/client.go: `supervise`, which keeps one transport up, and the `watchdog` that it starts for
-- each. They run beside each other and beside the relay loops, so they are steps on a shared state;
-- a connection is the number of the dial that made it.
pub mod Safety
use xtaci_kcptun.Prelude.{
  ℕ, suc, ◌*◌, ◌≡◌, Option, none, some, Bool, true, false, ◌==◌, ltb, if◌then◌else◌, update,
}
use xtaci_kcptun.Prelude.Int.{ℤ, pos, negsuc, sub_ℕ, ltb_ℤ}
use xtaci_kcptun.Udptun.Client.{second}

-- Where `supervise` stands: before a dial, in `transportLoop`, after `conn.Close()`, or returned.
pub data Phase : Type 0 where
  dialling stopped : Phase
  serving : ℕ → Phase
  closing : ℕ → Phase

pub record Link : Type 0 where
  pub keep_alive : ℤ
  -- `c.conn`
  pub conn : Option ℕ
  pub last_recv : ℕ
  pub phase : Phase
  -- dials that succeeded so far, the connections that were closed, and the watchdogs that run
  pub dialled : ℕ
  pub closed : ℕ → Bool
  pub watched : ℕ → Bool
  pub die : Bool

abbrev pub is_positive : ℤ → Bool
is_positive z = ltb_ℤ (pos 0) z

-- `time.Duration(3*c.cfg.KeepAlive) * time.Second`, of a positive interval.
abbrev pub dead : ℤ → ℕ
dead (pos n) = 3 * n * second
dead (negsuc n) = 0

-- A dial that succeeded: the connection is published, and its watchdog started.
unfoldable pub connect : ℕ → Link → Link
connect now s = record s {
  conn = some s.dialled;
  last_recv = now;
  phase = serving s.dialled;
  dialled = suc s.dialled;
  watched = update s.watched s.dialled (is_positive s.keep_alive);
}

-- `transportLoop` has returned: the connection is closed.
unfoldable pub lose : ℕ → Link → Link
lose n s = record s { closed = update s.closed n true; phase = closing n }

-- The connection is no longer handed out; `supervise` dials again, or returns.
unfoldable pub forget : Link → Link
forget s = record s { conn = none; phase = if s.die then stopped else dialling }

abbrev pub is_conn : Option ℕ → ℕ → Bool
is_conn none n = false
is_conn (some m) n = m == n

-- The watchdog of connection `n` on a tick.
unfoldable pub watch : ℕ → ℕ → Link → Link
watch now n s =
    if is_conn s.conn n
    then (if ltb_ℤ (pos (dead s.keep_alive)) (sub_ℕ now s.last_recv)
        then record s { closed = update s.closed n true; watched = update s.watched n false }
        else s)
    else record s { watched = update s.watched n false }

unfoldable pub received : ℕ → Link → Link
received now s = record s { last_recv = now }

-- The client starts with nothing dialled.
abbrev pub unconnected : ℤ → Link
unconnected keep_alive = record {
  keep_alive = keep_alive;
  conn = none;
  last_recv = 0;
  phase = dialling;
  dialled = 0;
  closed = λ _. false;
  watched = λ _. false;
  die = false;
}

-- A dial that fails leaves the state, and ends `supervise` only once the client dies. A read may fail
-- for the network's reasons, and fails on a closed connection; a datagram arrives on an open one.
pub data Step (s : Link) : Link → Type 0 where
  dial_succeeds : (now : ℕ) → s.phase ≡ dialling → Step s (connect now s)
  dial_stops : s.phase ≡ dialling → s.die ≡ true → Step s (record s { phase = stopped })
  arrives : (now n : ℕ) → s.phase ≡ serving n → s.closed n ≡ false → Step s (received now s)
  read_fails : (n : ℕ) → s.phase ≡ serving n → Step s (lose n s)
  unpublishes : (n : ℕ) → s.phase ≡ closing n → Step s (forget s)
  watchdog_ticks : (now n : ℕ) → s.watched n ≡ true → Step s (watch now n s)
  watchdog_stops : (n : ℕ) → s.die ≡ true → Step s (record s { watched = update s.watched n false })
  dies : Step s (record s { die = true })

pub data Reach (keep_alive : ℤ) : Link → Type 0 where
  start : Reach keep_alive (unconnected keep_alive)
  later : {s t : Link} → Reach keep_alive s → Step s t → Reach keep_alive t
