-- ===== src/Kcptun/Sessions.antt =====
-- client/main.go: the sessions of the client, which are handed out round robin, replaced when they are
-- closed or expire, and then scavenged. A session is a handle, whose state the network decides; times
-- are nanoseconds, and a `time.Time` is one of them.
pub mod Life
pub mod Pool
pub mod Scavenged
pub mod Start
use xtaci_kcptun.Prelude.{
  ℕ, suc, ◌+◌, ◌-◌, ◌%◌, ◌^◌, List, [], ◌∷◌, ◌++◌, length, get_elem?, set, Option, none, some, Bool,
  true, false, not, ◌&&◌, ◌||◌, ◌==◌, if◌then◌else◌,
}
use xtaci_kcptun.Prelude.Int.{ℤ, pos, negsuc, sub_ℕ, ltb_ℤ}
use xtaci_kcptun.Udptun.Client.{seconds}

pub record Mux : Type 0 where
  pub session : ℕ
  pub ttl : ℤ

pub record Sessions : Type 0 where
  pub auto_expire : ℤ
  pub muxes : List Mux
  pub rr : ℕ

-- `uint16(config.Conn)`
unfoldable pub num_conn : ℤ → ℕ
num_conn (pos n) = n % 2 ^ 16
num_conn (negsuc n) = 2 ^ 16 - 1 - n % 2 ^ 16

-- `now.Add(d)`
abbrev pub add_time : ℕ → ℤ → ℤ
add_time now (pos d) = pos (now + d)
add_time now (negsuc d) = sub_ℕ now (suc d)

abbrev pub new_mux : ℕ → ℤ → ℕ → Mux
new_mux now auto_expire session = record {
  session = session;
  ttl = add_time now (seconds auto_expire);
}

abbrev pub is_spent : (ℕ → Bool) → ℕ → ℤ → Mux → Bool
is_spent is_closed now auto_expire mux =
    is_closed mux.session || (ltb_ℤ (pos 0) auto_expire && ltb_ℤ mux.ttl (pos now))

-- What an accepted connection is given: its session, and the session sent to the scavenger, if any.
pub record Handed : Type 0 where
  pub session : ℕ
  pub scavenged : Option ℕ
  pub sessions : Sessions

-- The loop's body on the mux at `idx`; `fresh` is the session that `waitConn` would
-- return, and `made` the time when it does.
unfoldable pub hand_out : (ℕ → Bool) → ℕ → ℕ → ℕ → ℕ → Mux → Sessions → Handed
hand_out is_closed now made fresh idx mux s =
    let next = record s { rr = (s.rr + 1) % 2 ^ 16 } in
    if is_spent is_closed now s.auto_expire mux
    then record {
      session = fresh;
      scavenged = some mux.session;
      sessions = record next { muxes = set s.muxes idx (new_mux made s.auto_expire fresh) };
    }
    else record { session = mux.session; scavenged = none; sessions = next }

-- One pass of the accept loop; `none` is a panic, for a division by zero or an index out of range.
unfoldable pub accept : (ℕ → Bool) → ℕ → ℕ → ℕ → Sessions → Option Handed
unfolding hand_out
accept is_closed now made fresh s =
    if length s.muxes == 0
    then none
    else (let idx = s.rr % length s.muxes in
        elim (get_elem? s.muxes idx) [
          | none ↦ none
          | some mux ↦ some (hand_out is_closed now made fresh idx mux s)
        ])

-- `scavengeSession`
pub record Expired : Type 0 where
  pub session : ℕ
  pub ts : ℕ

abbrev pub is_done : (ℕ → Bool) → (ℕ → ℕ) → ℕ → ℤ → Expired → Bool
is_done is_closed streams now ttl s =
    (streams s.session == 0)
    || is_closed s.session
    || (not (ltb_ℤ ttl (pos 0)) && not (ltb_ℤ (sub_ℕ now s.ts) (seconds ttl)))

-- `scavenger` on a session that it is sent.
unfoldable pub mark : ℕ → ℕ → List Expired → List Expired
mark now session ss = ss ++ record { session = session; ts = now } ∷ []

-- `scavenger` on a tick: the sessions kept, and those that are closed.
unfoldable pub scavenge : (ℕ → Bool) → (ℕ → ℕ) → ℕ → ℤ → List Expired → List Expired × List ℕ
scavenge is_closed streams now ttl [] = ([], [])
scavenge is_closed streams now ttl (s ∷ ss) =
    let (kept, closed) = scavenge is_closed streams now ttl ss in
    if is_done is_closed streams now ttl s then (kept, s.session ∷ closed) else (s ∷ kept, closed)
