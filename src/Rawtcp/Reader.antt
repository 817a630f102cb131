-- ===== src/Rawtcp/Reader.antt =====
-- rawtcp/conn_linux.go: ReadFrom, the deadlines, the socket options, and Cleanup over the list of live
-- connections. A deadline is a time, and zero is none.
use xtaci_kcptun.Prelude.{
  ℕ, ◌≡◌, ◌≤◌, refl, sym, subst, String, List, [], ◌∷◌, take, Option, some, Bool, true, false,
  if◌then◌else◌, arith, Bool-cases, inl, inr,
}
use xtaci_kcptun.Rawtcp.{Conn, Message, Side, dialled, listening}
use xtaci_kcptun.Rawtcp.Lifetime.{Outcome, returns, panics, close}
use xtaci_kcptun.Rawtcp.Lifetime.Ending.{close_lem, closes_tcp, owns_tcp}

pub data ReadError : Type 0 where
  timeout eof : ReadError

-- `readDeadline` and `writeDeadline`; `none` is a value that was never stored, or the zero time.
pub record Deadlines : Type 0 where
  pub read : Option ℕ
  pub write : Option ℕ

abbrev pub set_read_deadline : Option ℕ → Deadlines → Deadlines
set_read_deadline t d = record d { read = t }

abbrev pub set_write_deadline : Option ℕ → Deadlines → Deadlines
set_write_deadline t d = record d { write = t }

-- `SetDeadline`; neither call fails.
abbrev pub set_deadline : Option ℕ → Deadlines → Deadlines
set_deadline t d = set_write_deadline t (set_read_deadline t d)

-- Which branch of the `select` is taken, and when that can be.
pub data Ready (c : Conn) (d : Deadlines) (now : ℕ) : Type 0 where
  deadline_passed : (t : ℕ) → d.read ≡ some t → t ≤ now → Ready c d now
  connection_died : c.died ≡ true → Ready c d now
  message_came : Message → Ready c d now

pub data Read : Type 0 where
  fails : ReadError → Read
  -- what is copied into `p`, and the sender
  delivers : List ℕ → String → Read

-- `ReadFrom`, with `size` as `len(p)`.
unfoldable pub read_from : {c : Conn} {d : Deadlines} {now : ℕ} → ℕ → Ready c d now → Read
read_from size (deadline_passed t e h) = fails timeout
read_from size (connection_died e) = fails eof
read_from size (message_came m) = delivers (take size m.bts) m.addr

-- `SetDSCP`, `SetReadBuffer` and `SetWriteBuffer`: the handles that the call is made on, up to the first
-- that fails, and whether one has.
unfoldable pub each_handle : (ℕ → Bool) → List ℕ → List ℕ × Bool
each_handle works [] = ([], true)
each_handle works (h ∷ hs) =
    let (made, all) = each_handle works hs in if works h then (h ∷ made, all) else (h ∷ [], false)

-- `LocalAddr`, of the socket that the connection has.
abbrev pub local_addr : Side → (ℕ → String) → String
local_addr (dialled t) addr = addr t
local_addr (listening l) addr = addr l

-- `Cleanup`: every connection of the list is closed, each by a goroutine.
unfoldable pub cleanup : List Conn → List (Outcome Conn)
unfolding close
cleanup [] = []
cleanup (c ∷ cs) = close c ∷ cleanup cs

-- A connection as it stands in the list: it has its element, and has not been closed or was.
pub record IsListed (c : Conn) : Type 0 where
  pub elem : ℕ
  pub listed : c.elem_in_list ≡ some elem

abbrev pub AllListed : List Conn → Type 0
AllListed [] = Unit {0}
AllListed (c ∷ cs) = IsListed c × AllListed cs

-- What a close of `c` in a cleanup comes to.
abbrev pub IsShut : Conn → Outcome Conn → Type 0
IsShut c (panics effects) = ⊥
IsShut c (returns d effects) =
    (d.died ≡ true)
    × ((t : ℕ) → closes_tcp t effects ≡ (if c.died then false else owns_tcp t c.side c.flows))

abbrev pub AllShut : List Conn → List (Outcome Conn) → Type 0
AllShut [] [] = Unit {0}
AllShut [] (o ∷ os) = ⊥
AllShut (c ∷ cs) [] = ⊥
AllShut (c ∷ cs) (o ∷ os) = IsShut c o × AllShut cs os

close-IsShut : (c : Conn) → IsListed c → IsShut c (close c)
unfolding close
close-IsShut c v = elim (Bool-cases c.died) [
  | inl over ↦ rw over (refl, λ t. refl)
  | inr alive ↦
      let (d, effects, closed, r) = close_lem c v.elem alive v.listed in
      subst (IsShut c) (sym closed) (r.dead, λ t. ground (arith, r.tcp_closed t, alive))
]

-- Cleanup closes every connection of the list without a panic: afterwards each is dead, and exactly the
-- TCP connections that the live ones own have been closed.
pub cleanup-AllShut : (cs : List Conn) → AllListed cs → AllShut cs (cleanup cs)
unfolding cleanup
cleanup-AllShut [] h = tt
cleanup-AllShut (c ∷ cs) (h, hs) = (close-IsShut c h, cleanup-AllShut cs hs)
