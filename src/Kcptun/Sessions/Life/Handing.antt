-- ===== src/Kcptun/Sessions/Life/Handing.antt =====
-- client/main.go: the sessions that connections are given, while the accept loop and the scavenger run.
use xtaci_kcptun.Prelude.{
  ℕ, zero, suc, ◌+◌, ◌≤◌, ◌<◌, ◌≡◌, refl, ◌∙◌, ap, subst, List, [], ◌∷◌, map, length, get_elem?,
  set, some, Bool, Bool-cases, inl, inr, arith,
}
use xtaci_kcptun.Prelude.Int.{ℤ}
use xtaci_kcptun.Kcptun.Sessions.{Mux, Handed, new_mux, is_spent, hand_out, accept}
use xtaci_kcptun.Kcptun.Sessions.Pool.{turn, accept-IsServed, accept-found}
use xtaci_kcptun.Kcptun.Sessions.Life.{
  Life, accepting, serves, retires, renews, receives, ticks, here, later, begin, hand, retire,
  renew, take_expired, scavenge_tick, count, channel_size, Step, Steps,
}
use xtaci_kcptun.Kcptun.Sessions.Life.Accounted.{
  mux_sessions, listed_sessions, AllNew, IsHeld, IsAccounted, Steps-IsAccounted,
}

-- In the pool, and not with the scavenger.
pub record IsUsable (x : ℕ) (s : Life) : Type 0 where
  pub pooled : count x (mux_sessions s.sessions.muxes) ≡ 1
  pub unsent : count x s.queue ≡ 0
  pub not_listed : count x (listed_sessions s.session_list) ≡ 0
  pub unclosed : count x s.closed ≡ 0

count-found :
    (ms : List Mux) (i : ℕ) (mux : Mux)
    → get_elem? ms i ≡ some mux
    → 1 ≤ count mux.session (mux_sessions ms)
count-found [] i mux e = absurd (cc e)
count-found (m ∷ ms) zero mux e = grind (arith, e)
count-found (m ∷ ms) (suc i) mux e = omega (arith, count-found ms i mux e)

found-set :
    (ms : List Mux) (i : ℕ) (old new : Mux)
    → get_elem? ms i ≡ some old
    → get_elem? (set ms i new) i ≡ some new
found-set [] i old new e = absurd (cc e)
found-set (m ∷ ms) zero old new e = refl
found-set (m ∷ ms) (suc i) old new e = found-set ms i old new e

usable :
    (size i : ℕ) (mux : Mux) (s : Life)
    → IsAccounted size s
    → s.phase ≡ accepting
    → get_elem? s.sessions.muxes i ≡ some mux
    → IsUsable mux.session s
usable size i mux s a free found =
    let pooled = count-found s.sessions.muxes i mux found in
    record {
      pooled = omega (arith, pooled, one, a.once mux.session);
      unsent = omega (arith, pooled, one, a.once mux.session);
      not_listed = omega (arith, pooled, one, a.once mux.session);
      unclosed = omega (arith, pooled, one, a.once mux.session);
    }
  where
    one :
        count mux.session (mux_sessions s.sessions.muxes)
          + count mux.session s.queue
          + count mux.session (listed_sessions s.session_list)
          + count mux.session s.closed
        ≡ count mux.session s.started
    one = a.placed mux.session ∙ rw free (omega arith)

grows : (x : ℕ) (xs : List ℕ) → xs ≡ x ∷ xs → ⊥
grows x xs e = let longer : length xs ≡ length (x ∷ xs) = ap length e in omega (arith, longer)

first_same : {x y : ℕ} {xs : List ℕ} → x ∷ xs ≡ y ∷ xs → x ≡ y
first_same e = cc e

module _ (ttl : ℤ) (size : ℕ) where
  Step-hands :
      (s t : Life) (session : ℕ)
      → IsAccounted size s
      → IsAccounted size t
      → Step ttl s t
      → t.handed ≡ session ∷ s.handed
      → IsUsable session t
  unfolding hand retire renew take_expired scavenge_tick
  Step-hands s t session a b (serves is_closed now mux free found live) e =
      subst (λ x. IsUsable x t) (first_same e) (usable size (turn s.sessions) mux t b refl found)
  Step-hands s t session a b (retires is_closed now mux free found spent room) e =
      absurd (grows session s.handed e)
  Step-hands s t session a b (renews idx mux made new busy fresh) e =
      let next = new_mux made s.sessions.auto_expire new in
      let placed =
        found-set s.sessions.muxes idx mux next (subst (IsHeld s.sessions.muxes) busy a.held) in
      subst (λ x. IsUsable x t) (first_same e) (usable size idx next t b refl placed)
  Step-hands s t session a b (receives now taken rest queued) e = absurd (grows session s.handed e)
  Step-hands s t session a b (ticks is_closed streams now) e = absurd (grows session s.handed e)

-- Whenever a connection is given a session, that session is in the pool exactly once, and neither in
-- the channel nor with the scavenger, which has not closed it.
pub handed_lem :
    (ttl auto_expire : ℤ) (ups : List (ℕ × ℕ)) (s t : Life) (session : ℕ)
    → AllNew (map (λ up. up.0) ups)
    → Steps ttl (begin auto_expire ups) s
    → Step ttl s t
    → t.handed ≡ session ∷ s.handed
    → IsUsable session t
handed_lem ttl auto_expire ups s t session new r step e =
    Step-hands ttl (length ups) s t session (Steps-IsAccounted ttl auto_expire ups s new r)
      (Steps-IsAccounted ttl auto_expire ups t new (later r step)) step e

-- What the steps come to when the scavenger does not run in between.
pub record Passed (ttl : ℤ) (is_closed : ℕ → Bool) (now made fresh : ℕ) (s : Life) : Type 0 where
  pub after : Life
  pub steps : Steps ttl s after
  pub handed : Handed
  pub accepted : accept is_closed now made fresh s.sessions ≡ some handed
  pub same : after.sessions ≡ handed.sessions
  pub given : after.handed ≡ handed.session ∷ s.handed
  pub ready : after.phase ≡ accepting

-- A pass of the accept loop, with the scavenger at rest, room in the channel and a new session at hand,
-- is one or two of the steps, and gives the connection the session that `accept` hands out.
pub accept-Steps :
    (ttl : ℤ) (is_closed : ℕ → Bool) (now made fresh : ℕ) (s : Life)
    → 0 < length s.sessions.muxes
    → s.phase ≡ accepting
    → length s.queue < channel_size
    → count fresh s.started ≡ 0
    → Passed ttl is_closed now made fresh s
unfolding hand retire renew hand_out
accept-Steps ttl is_closed now made fresh s size free room new =
    let (h, accepted, served) = accept-IsServed is_closed now made fresh s.sessions size in
    let mux = served.mux in
    let found = served.in_turn in
    let made_out = accept-found is_closed now made fresh s.sessions mux size found in
    elim (Bool-cases (is_spent is_closed now s.sessions.auto_expire mux)) [
      | inl spent ↦ record {
        after = renew made fresh (turn s.sessions) (retire (turn s.sessions) mux s);
        steps =
            later (later here (retires is_closed now mux free found spent room))
              (renews (turn s.sessions) mux made fresh refl new);
        handed = hand_out is_closed now made fresh (turn s.sessions) mux s.sessions;
        accepted = made_out;
        same = rw spent refl;
        given = rw spent refl;
        ready = refl;
      }
      | inr live ↦ record {
        after = hand mux.session s;
        steps = later here (serves is_closed now mux free found live);
        handed = hand_out is_closed now made fresh (turn s.sessions) mux s.sessions;
        accepted = made_out;
        same = rw live refl;
        given = rw live refl;
        ready = refl;
      }
    ]
