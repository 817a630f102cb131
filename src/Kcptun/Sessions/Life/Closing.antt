-- ===== src/Kcptun/Sessions/Life/Closing.antt =====
-- client/main.go: that the scavenger closes what it is sent.
use xtaci_kcptun.Prelude.{
  ℕ, zero, suc, ◌+◌, ◌*◌, ◌≤◌, ◌≡◌, refl, ◌⊎◌, inl, inr, List, [], ◌∷◌, ◌++◌, map, length,
  get_elem?, some, Bool, true, false, if◌then◌else◌, arith,
}
use xtaci_kcptun.Prelude.Int.{ℤ, pos}
use xtaci_kcptun.Udptun.Client.{second}
use xtaci_kcptun.Kcptun.Sessions.{Mux, Expired, is_done, mark, scavenge}
use xtaci_kcptun.Kcptun.Sessions.Scavenged.{is_done-false}
use xtaci_kcptun.Kcptun.Sessions.Life.{
  Life, Phase, accepting, renewing, serves, retires, renews, receives, ticks, here, later, begin,
  hand, retire, renew, take_expired, scavenge_tick, count, Step, Steps,
}
use xtaci_kcptun.Kcptun.Sessions.Life.Accounted.{
  AllNew, mux_sessions, listed_sessions, leaving, IsHeld, count-append, IsAccounted,
  Steps-IsAccounted,
}

-- On the scavenger's list since this time.
abbrev pub Listed : ℕ → ℕ → List Expired → Type 0
Listed x since [] = ⊥
Listed x since (e ∷ es) = ((e.session ≡ x) × (e.ts ≡ since)) ⊎ Listed x since es

Listed-mark :
    (x since now session : ℕ) (es : List Expired)
    → Listed x since es
    → Listed x since (mark now session es)
unfolding mark
Listed-mark x since now session [] l = absurd l
Listed-mark x since now session (e ∷ es) (inl this) = inl this
Listed-mark x since now session (e ∷ es) (inr more) = inr (Listed-mark x since now session es more)

marked-Listed : (x since : ℕ) (es : List Expired) → Listed x since (mark since x es)
unfolding mark
marked-Listed x since [] = inl (refl, refl)
marked-Listed x since (e ∷ es) = inr (marked-Listed x since es)

-- What a tick makes of a list and of the closed, from what it makes of the rest.
abbrev after_one : Bool → Expired → List Expired → List ℕ → List Expired × List ℕ
after_one done e kept closed = if done then (kept, e.session ∷ closed) else (e ∷ kept, closed)

abbrev Stays : ℕ → ℕ → List Expired × List ℕ → Type 0
Stays x since r = Listed x since r.0 ⊎ (1 ≤ count x r.1)

one-Stays :
    (x since : ℕ) (e : Expired) (kept : List Expired) (closed : List ℕ) (done : Bool)
    → ((e.session ≡ x) × (e.ts ≡ since)) ⊎ Stays x since (kept, closed)
    → Stays x since (after_one done e kept closed)
one-Stays x since e kept closed true (inl (same, old)) = inr (ground (arith, same))
one-Stays x since e kept closed true (inr (inl l)) = inl l
one-Stays x since e kept closed true (inr (inr c)) = inr (omega (arith, c))
one-Stays x since e kept closed false (inl this) = inl (inl this)
one-Stays x since e kept closed false (inr (inl l)) = inl (inr l)
one-Stays x since e kept closed false (inr (inr c)) = inr c

module _ (is_closed : ℕ → Bool) (streams : ℕ → ℕ) (now : ℕ) where
  -- A tick leaves it on the list or closes it.
  scavenge-Stays :
      (ttl : ℤ) (x since : ℕ) (es : List Expired)
      → Listed x since es
      → Stays x since (scavenge is_closed streams now ttl es)
  unfolding scavenge
  scavenge-Stays ttl x since [] l = absurd l
  scavenge-Stays ttl x since (e ∷ es) (inl this) =
      let r = scavenge is_closed streams now ttl es in
      one-Stays x since e r.0 r.1 (is_done is_closed streams now ttl e) (inl this)
  scavenge-Stays ttl x since (e ∷ es) (inr more) =
      let r = scavenge is_closed streams now ttl es in
      one-Stays x since e r.0 r.1 (is_done is_closed streams now ttl e)
        (inr (scavenge-Stays ttl x since es more))

  one_due :
      (limit x since : ℕ) (e : Expired) (kept : List Expired) (closed : List ℕ)
      → since + limit * second ≤ now
      → ((e.session ≡ x) × (e.ts ≡ since)) ⊎ (1 ≤ count x closed)
      → 1 ≤ count x (after_one (is_done is_closed streams now (pos limit) e) e kept closed).1
  one_due limit x since e kept closed due h =
      decide (is_done is_closed streams now (pos limit) e) refl h
    where
      decide :
          (done : Bool)
          → is_done is_closed streams now (pos limit) e ≡ done
          → ((e.session ≡ x) × (e.ts ≡ since)) ⊎ (1 ≤ count x closed)
          → 1 ≤ count x (after_one done e kept closed).1
      decide true d (inl (same, old)) = ground (arith, same)
      decide true d (inr c) = omega (arith, c)
      decide false d (inl (same, old)) =
          let young = (is_done-false is_closed streams now limit e d).young in
          absurd (omega (arith, young, old, due))
      decide false d (inr c) = c

  -- A tick at its time closes it.
  scavenge_due :
      (limit x since : ℕ) (es : List Expired)
      → since + limit * second ≤ now
      → Listed x since es
      → 1 ≤ count x (scavenge is_closed streams now (pos limit) es).1
  unfolding scavenge
  scavenge_due limit x since [] due l = absurd l
  scavenge_due limit x since (e ∷ es) due (inl this) =
      let r = scavenge is_closed streams now (pos limit) es in
      one_due limit x since e r.0 r.1 due (inl this)
  scavenge_due limit x since (e ∷ es) due (inr more) =
      let r = scavenge is_closed streams now (pos limit) es in
      one_due limit x since e r.0 r.1 due (inr (scavenge_due limit x since es due more))

-- With the scavenger since this time, or closed by it.
abbrev IsWith : ℕ → ℕ → Life → Type 0
IsWith x since s = Listed x since s.session_list ⊎ (1 ≤ count x s.closed)

tick_with :
    (x since : ℕ) (r : List Expired × List ℕ) (closed : List ℕ)
    → Stays x since r
    → Listed x since r.0 ⊎ (1 ≤ count x (r.1 ++ closed))
tick_with x since r closed (inl l) = inl l
tick_with x since r closed (inr c) = inr (omega (arith, c, count-append x r.1 closed))

module _ (ttl : ℤ) (x since : ℕ) where
  Step-IsWith : {s t : Life} → Step ttl s t → IsWith x since s → IsWith x since t
  unfolding hand retire renew take_expired scavenge_tick
  Step-IsWith (serves is_closed now mux free found live) w = w
  Step-IsWith (retires is_closed now mux free found spent room) w = w
  Step-IsWith (renews idx mux made session busy new) w = w
  Step-IsWith {s} (receives now session rest queued) (inl l) =
      inl (Listed-mark x since now session s.session_list l)
  Step-IsWith (receives now session rest queued) (inr c) = inr c
  Step-IsWith {s} (ticks is_closed streams now) (inl l) =
      tick_with x since (scavenge is_closed streams now ttl s.session_list) s.closed
        (scavenge-Stays is_closed streams now ttl x since s.session_list l)
  Step-IsWith {s} (ticks is_closed streams now) (inr c) = inr (
      omega
        (arith, c, count-append x (scavenge is_closed streams now ttl s.session_list).1 s.closed))

  Steps-IsWith : {s t : Life} → Steps ttl s t → IsWith x since s → IsWith x since t
  Steps-IsWith here w = w
  Steps-IsWith (later r step) w = Step-IsWith step (Steps-IsWith r w)

Steps-append : {ttl : ℤ} {s t u : Life} → Steps ttl s t → Steps ttl t u → Steps ttl s u
Steps-append r here = r
Steps-append r (later q step) = later (Steps-append r q) step

count-in :
    (x : ℕ) (ms : List Mux) (i : ℕ) (mux : Mux)
    → get_elem? ms i ≡ some mux
    → count x (mux.session ∷ []) ≤ count x (mux_sessions ms)
count-in x [] i mux e = absurd (cc e)
count-in x (m ∷ ms) zero mux e = grind (arith, e)
count-in x (m ∷ ms) (suc i) mux e = omega (arith, count-in x ms i mux e)

leaving-in :
    (x : ℕ) (ms : List Mux) (phase : Phase)
    → IsHeld ms phase
    → count x (leaving phase) ≤ count x (mux_sessions ms)
leaving-in x ms accepting held = omega arith
leaving-in x ms (renewing idx mux) held = count-in x ms idx mux held

-- Closed by the scavenger once, and neither on its list nor in the channel.
pub record IsGone (x : ℕ) (s : Life) : Type 0 where
  pub closed_once : count x s.closed ≡ 1
  pub off_list : count x (listed_sessions s.session_list) ≡ 0
  pub unsent : count x s.queue ≡ 0

closed-IsGone : (size x : ℕ) (s : Life) → IsAccounted size s → 1 ≤ count x s.closed → IsGone x s
closed-IsGone size x s a c =
    let placed = a.placed x in
    let inside = leaving-in x s.sessions.muxes s.phase a.held in
    record {
      closed_once = omega (arith, c, placed, inside, a.once x);
      off_list = omega (arith, c, placed, inside, a.once x);
      unsent = omega (arith, c, placed, inside, a.once x);
    }

-- With a limit of zero or more, a session that the scavenger has received is, after a tick at least the
-- limit later, whatever happened in between, closed by it once, and neither on
-- its list nor in the channel.
pub received_closes :
    (limit : ℕ) (auto_expire : ℤ) (ups : List (ℕ × ℕ)) (s t : Life) (x since : ℕ) (rest : List ℕ)
    (is_closed : ℕ → Bool) (streams : ℕ → ℕ) (now : ℕ)
    → AllNew (map (λ up. up.0) ups)
    → Steps (pos limit) (begin auto_expire ups) s
    → s.queue ≡ x ∷ rest
    → Steps (pos limit) (take_expired since x rest s) t
    → since + limit * second ≤ now
    → IsGone x (scavenge_tick is_closed streams now (pos limit) t)
unfolding take_expired scavenge_tick
received_closes limit auto_expire ups s t x since rest is_closed streams now new r queued q due =
    let whole =
      later (Steps-append (later r (receives since x rest queued)) q)
        (ticks is_closed streams now) in
    closed-IsGone (length ups) x (scavenge_tick is_closed streams now (pos limit) t)
      (Steps-IsAccounted (pos limit) auto_expire ups _ new whole)
      (closes (Steps-IsWith (pos limit) x since q (inl (marked-Listed x since s.session_list))))
  where
    closes :
        IsWith x since t → 1 ≤ count x (scavenge_tick is_closed streams now (pos limit) t).closed
    closes (inl l) = omega (
      arith,
      scavenge_due is_closed streams now limit x since t.session_list due l,
      count-append x (scavenge is_closed streams now (pos limit) t.session_list).1 t.closed,
    )
    closes (inr c) = omega (
      arith,
      c,
      count-append x (scavenge is_closed streams now (pos limit) t.session_list).1 t.closed,
    )
