-- ===== src/Kcptun/Sessions/Life.antt =====
-- client/main.go: the accept loop and the scavenger beside each other. The loop sends a spent session
-- to `chScavenger` and then puts a new one in its place; the scavenger may run in between. A session is
-- in the pool, in the channel, on the scavenger's list, or closed by it.
pub mod Accounted
pub mod Handing
pub mod Closing
use xtaci_kcptun.Prelude.{
  ℕ, suc, ◌+◌, ◌%◌, ◌^◌, ◌≡◌, ◌<◌, List, [], ◌∷◌, ◌++◌, map, length, get_elem?, set, some, Bool,
  true, false, ◌==◌, if◌then◌else◌,
}
use xtaci_kcptun.Prelude.Int.{ℤ}
use xtaci_kcptun.Kcptun.Sessions.{
  Mux, Sessions, Expired, num_conn, new_mux, is_spent, mark, scavenge,
}

-- Where the loop stands: at `AcceptTCP`, or in `waitConn` for the mux at an index, whose old session it
-- has sent.
pub data Phase : Type 0 where
  accepting : Phase
  renewing : ℕ → Mux → Phase

pub record Life : Type 0 where
  pub sessions : Sessions
  pub phase : Phase
  -- `chScavenger`, first in first out
  pub queue : List ℕ
  -- `sessionList`
  pub session_list : List Expired
  -- the sessions that `waitConn` has returned, those that a connection was given to, and those that the
  -- scavenger has closed
  pub started : List ℕ
  pub handed : List ℕ
  pub closed : List ℕ

abbrev pub channel_size : ℕ
channel_size = 128

-- `muxes` once it is filled, from the sessions of `waitConn` with the times at which they came.
abbrev pub fill_muxes : ℤ → List (ℕ × ℕ) → List Mux
fill_muxes auto_expire [] = []
fill_muxes auto_expire ((session, made) ∷ ups) =
    new_mux made auto_expire session ∷ fill_muxes auto_expire ups

unfoldable pub begin : ℤ → List (ℕ × ℕ) → Life
begin auto_expire ups = record {
  sessions = record { auto_expire = auto_expire; muxes = fill_muxes auto_expire ups; rr = 0 };
  phase = accepting;
  queue = [];
  session_list = [];
  started = map (λ up. up.0) ups;
  handed = [];
  closed = [];
}

-- `go handleClient(muxes[idx].session, ...)` and `rr++`
unfoldable pub hand : ℕ → Life → Life
hand session s = record s {
  sessions = record s.sessions { rr = (s.sessions.rr + 1) % 2 ^ 16 };
  phase = accepting;
  handed = session ∷ s.handed;
}

-- `chScavenger <- muxes[idx].session`
unfoldable pub retire : ℕ → Mux → Life → Life
retire idx mux s = record s { phase = renewing idx mux; queue = s.queue ++ mux.session ∷ [] }

-- `waitConn` has returned `session`; it takes the place of the old one.
unfoldable pub renew : ℕ → ℕ → ℕ → Life → Life
unfolding hand
renew made session idx s = hand session (record s {
  sessions = record s.sessions {
    muxes = set s.sessions.muxes idx (new_mux made s.sessions.auto_expire session);
  };
  started = session ∷ s.started;
})

-- The scavenger receives a session.
unfoldable pub take_expired : ℕ → ℕ → List ℕ → Life → Life
take_expired now session rest s = record s {
  queue = rest;
  session_list = mark now session s.session_list;
}

-- A tick of the scavenger.
unfoldable pub scavenge_tick : (ℕ → Bool) → (ℕ → ℕ) → ℕ → ℤ → Life → Life
scavenge_tick is_closed streams now ttl s =
    let (kept, closed) = scavenge is_closed streams now ttl s.session_list in
    record s { session_list = kept; closed = closed ++ s.closed }

abbrev pub count : ℕ → List ℕ → ℕ
count x [] = 0
count x (y ∷ ys) = (if x == y then 1 else 0) + count x ys

-- What the loop and the scavenger do next; which sessions are closed and how many streams they have is
-- the network's. A send waits while the channel is full, and each session that comes up is a new one.
pub data Step (ttl : ℤ) (s : Life) : Life → Type 0 where
  serves :
      (is_closed : ℕ → Bool) (now : ℕ) (mux : Mux)
      → s.phase ≡ accepting
      → get_elem? s.sessions.muxes (s.sessions.rr % length s.sessions.muxes) ≡ some mux
      → is_spent is_closed now s.sessions.auto_expire mux ≡ false
      → Step ttl s (hand mux.session s)
  retires :
      (is_closed : ℕ → Bool) (now : ℕ) (mux : Mux)
      → s.phase ≡ accepting
      → get_elem? s.sessions.muxes (s.sessions.rr % length s.sessions.muxes) ≡ some mux
      → is_spent is_closed now s.sessions.auto_expire mux ≡ true
      → length s.queue < channel_size
      → Step ttl s (retire (s.sessions.rr % length s.sessions.muxes) mux s)
  renews :
      (idx : ℕ) (mux : Mux) (made session : ℕ)
      → s.phase ≡ renewing idx mux
      → count session s.started ≡ 0
      → Step ttl s (renew made session idx s)
  receives :
      (now session : ℕ) (rest : List ℕ)
      → s.queue ≡ session ∷ rest
      → Step ttl s (take_expired now session rest s)
  ticks :
      (is_closed : ℕ → Bool) (streams : ℕ → ℕ) (now : ℕ)
      → Step ttl s (scavenge_tick is_closed streams now ttl s)

pub data Steps (ttl : ℤ) (s : Life) : Life → Type 0 where
  here : Steps ttl s s
  later : {t u : Life} → Steps ttl s t → Step ttl t u → Steps ttl s u
