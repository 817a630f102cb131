-- ===== src/Kcptun/Sessions/Life/Accounted.antt =====
-- client/main.go: where each session of the client is, while the accept loop and the scavenger run.
use xtaci_kcptun.Prelude.{
  ℕ, zero, suc, ◌+◌, ◌≤◌, ◌≡◌, refl, ◌∙◌, subst, List, [], ◌∷◌, ◌++◌, map, length, length-set,
  get_elem?, set, some, Bool, Bool-cases, inl, inr, arith,
}
use xtaci_kcptun.Prelude.Int.{ℤ}
use xtaci_kcptun.Kcptun.Sessions.{Mux, Expired, new_mux, is_done, mark, scavenge}
use xtaci_kcptun.Kcptun.Sessions.Life.{
  Life, Phase, accepting, renewing, begin, serves, retires, renews, receives, ticks, here, later,
  fill_muxes, hand, retire, renew, take_expired, scavenge_tick, count, Step, Steps,
}

abbrev pub mux_sessions : List Mux → List ℕ
mux_sessions ms = map (λ m. m.session) ms

abbrev pub listed_sessions : List Expired → List ℕ
listed_sessions es = map (λ e. e.session) es

-- The session that is on its way out of the pool.
abbrev pub leaving : Phase → List ℕ
leaving accepting = []
leaving (renewing idx mux) = mux.session ∷ []

-- It still stands in its place.
abbrev pub IsHeld : List Mux → Phase → Type 0
IsHeld ms accepting = Unit {0}
IsHeld ms (renewing idx mux) = get_elem? ms idx ≡ some mux

-- How often a session is in the pool, in the channel, on the scavenger's list and among the closed.
abbrev pub places : ℕ → Life → ℕ
places x s =
    count x (mux_sessions s.sessions.muxes)
    + count x s.queue
    + count x (listed_sessions s.session_list)
    + count x s.closed

pub record IsAccounted (size : ℕ) (s : Life) : Type 0 where
  pub once : (x : ℕ) → count x s.started ≤ 1
  pub placed : (x : ℕ) → places x s ≡ count x s.started + count x (leaving s.phase)
  pub held : IsHeld s.sessions.muxes s.phase
  pub sized : length s.sessions.muxes ≡ size

pub count-append : (x : ℕ) (xs ys : List ℕ) → count x (xs ++ ys) ≡ count x xs + count x ys
count-append x [] ys = omega arith
count-append x (y ∷ xs) ys = omega (arith, count-append x xs ys)

count-set :
    (x : ℕ) (ms : List Mux) (i : ℕ) (old new : Mux)
    → get_elem? ms i ≡ some old
    → count x (mux_sessions (set ms i new)) + count x (old.session ∷ [])
      ≡ count x (mux_sessions ms) + count x (new.session ∷ [])
count-set x [] i old new e = absurd (cc e)
count-set x (m ∷ ms) zero old new e = grind (arith, e)
count-set x (m ∷ ms) (suc i) old new e = omega (arith, count-set x ms i old new e)

count-mark :
    (x now session : ℕ) (es : List Expired)
    → count x (listed_sessions (mark now session es))
      ≡ count x (listed_sessions es) + count x (session ∷ [])
unfolding mark
count-mark x now session [] = omega arith
count-mark x now session (e ∷ es) = omega (arith, count-mark x now session es)

pub count-scavenge :
    (x : ℕ) (is_closed : ℕ → Bool) (streams : ℕ → ℕ) (now : ℕ) (ttl : ℤ) (es : List Expired)
    → count x (listed_sessions (scavenge is_closed streams now ttl es).0)
        + count x (scavenge is_closed streams now ttl es).1
      ≡ count x (listed_sessions es)
unfolding scavenge
count-scavenge x is_closed streams now ttl [] = refl
count-scavenge x is_closed streams now ttl (e ∷ es) =
    elim (Bool-cases (is_done is_closed streams now ttl e)) [
      | inl done ↦ ground (arith, done, count-scavenge x is_closed streams now ttl es)
      | inr kept ↦ ground (arith, kept, count-scavenge x is_closed streams now ttl es)
    ]

mux_sessions-fill_muxes :
    (auto_expire : ℤ) (ups : List (ℕ × ℕ))
    → mux_sessions (fill_muxes auto_expire ups) ≡ map (λ up. up.0) ups
mux_sessions-fill_muxes auto_expire [] = refl
mux_sessions-fill_muxes auto_expire (up ∷ ups) = rw (mux_sessions-fill_muxes auto_expire ups)

length-fill_muxes :
    (auto_expire : ℤ) (ups : List (ℕ × ℕ)) → length (fill_muxes auto_expire ups) ≡ length ups
length-fill_muxes auto_expire [] = refl
length-fill_muxes auto_expire (up ∷ ups) = rw (length-fill_muxes auto_expire ups)

-- Sessions that are all different.
abbrev pub AllNew : List ℕ → Type 0
AllNew xs = (x : ℕ) → count x xs ≤ 1

begin-IsAccounted :
    (auto_expire : ℤ) (ups : List (ℕ × ℕ))
    → AllNew (map (λ up. up.0) ups)
    → IsAccounted (length ups) (begin auto_expire ups)
unfolding begin
begin-IsAccounted auto_expire ups new = record {
  once = new;
  placed = λ x. rw (mux_sessions-fill_muxes auto_expire ups) (omega arith);
  held = tt;
  sized = length-fill_muxes auto_expire ups;
}

module _ (ttl : ℤ) (size : ℕ) where
  hand-IsAccounted :
      (session : ℕ) (s : Life)
      → s.phase ≡ accepting
      → IsAccounted size s
      → IsAccounted size (hand session s)
  unfolding hand
  hand-IsAccounted session s free a = record {
    once = a.once;
    placed = λ x. a.placed x ∙ rw free refl;
    held = tt;
    sized = a.sized;
  }

  retire-IsAccounted :
      (idx : ℕ) (mux : Mux) (s : Life)
      → s.phase ≡ accepting
      → get_elem? s.sessions.muxes idx ≡ some mux
      → IsAccounted size s
      → IsAccounted size (retire idx mux s)
  unfolding retire
  retire-IsAccounted idx mux s free found a = record {
    once = a.once;
    placed = λ x. omega (arith, a.placed x, retired x, count-append x s.queue (mux.session ∷ []));
    held = found;
    sized = a.sized;
  }
    where
      retired : (x : ℕ) → places x s ≡ count x s.started
      retired x = a.placed x ∙ rw free (omega arith)

  renew-IsAccounted :
      (idx : ℕ) (mux : Mux) (made session : ℕ) (s : Life)
      → s.phase ≡ renewing idx mux
      → count session s.started ≡ 0
      → IsAccounted size s
      → IsAccounted size (renew made session idx s)
  unfolding renew hand
  renew-IsAccounted idx mux made session s busy new a = record {
    once = λ x. ground (arith, a.once x, new);
    placed = λ x. omega (
      arith,
      left x,
      count-set x s.sessions.muxes idx mux (new_mux made s.sessions.auto_expire session) there,
    );
    held = tt;
    sized = length-set s.sessions.muxes idx (new_mux made s.sessions.auto_expire session) ∙ a.sized;
  }
    where
      left : (x : ℕ) → places x s ≡ count x s.started + count x (mux.session ∷ [])
      left x = a.placed x ∙ rw busy refl

      there : get_elem? s.sessions.muxes idx ≡ some mux
      there = subst (IsHeld s.sessions.muxes) busy a.held

  take_expired-IsAccounted :
      (now session : ℕ) (rest : List ℕ) (s : Life)
      → s.queue ≡ session ∷ rest
      → IsAccounted size s
      → IsAccounted size (take_expired now session rest s)
  unfolding take_expired
  take_expired-IsAccounted now session rest s queued a = record {
    once = a.once;
    placed = λ x. omega (arith, moved x, a.placed x, count-mark x now session s.session_list);
    held = a.held;
    sized = a.sized;
  }
    where
      moved : (x : ℕ) → count x s.queue ≡ count x (session ∷ []) + count x rest
      moved x = rw queued (omega arith)

  scavenge_tick-IsAccounted :
      (is_closed : ℕ → Bool) (streams : ℕ → ℕ) (now : ℕ) (s : Life)
      → IsAccounted size s
      → IsAccounted size (scavenge_tick is_closed streams now ttl s)
  unfolding scavenge_tick
  scavenge_tick-IsAccounted is_closed streams now s a =
      let closed = (scavenge is_closed streams now ttl s.session_list).1 in
      record {
        once = a.once;
        placed = λ x. omega (
          arith,
          a.placed x,
          count-append x closed s.closed,
          count-scavenge x is_closed streams now ttl s.session_list,
        );
        held = a.held;
        sized = a.sized;
      }

  Step-IsAccounted : {s t : Life} → Step ttl s t → IsAccounted size s → IsAccounted size t
  Step-IsAccounted {s} (serves is_closed now mux free found live) a =
      hand-IsAccounted mux.session s free a
  Step-IsAccounted {s} (retires is_closed now mux free found spent room) a =
      retire-IsAccounted _ mux s free found a
  Step-IsAccounted {s} (renews idx mux made session busy new) a =
      renew-IsAccounted idx mux made session s busy new a
  Step-IsAccounted {s} (receives now session rest queued) a =
      take_expired-IsAccounted now session rest s queued a
  Step-IsAccounted {s} (ticks is_closed streams now) a =
      scavenge_tick-IsAccounted is_closed streams now s a

-- While the accept loop and the scavenger run, each session that came up stands in one place: in the
-- pool, in the channel, on the scavenger's list, or among the closed; only the session that is being
-- replaced stands in the pool and in one other place. So none is lost, and none is closed twice. The pool
-- keeps its size.
pub Steps-IsAccounted :
    (ttl auto_expire : ℤ) (ups : List (ℕ × ℕ)) (s : Life)
    → AllNew (map (λ up. up.0) ups)
    → Steps ttl (begin auto_expire ups) s
    → IsAccounted (length ups) s
Steps-IsAccounted ttl auto_expire ups s new here = begin-IsAccounted auto_expire ups new
Steps-IsAccounted ttl auto_expire ups s new (later r step) =
    Step-IsAccounted ttl (length ups) step (Steps-IsAccounted ttl auto_expire ups _ new r)
