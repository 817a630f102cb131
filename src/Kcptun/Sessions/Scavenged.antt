-- ===== src/Kcptun/Sessions/Scavenged.antt =====
-- client/main.go: what a tick of the scavenger closes.
use xtaci_kcptun.Prelude.{
  ℕ, ◌≡◌, refl, List, [], ◌∷◌, ◌<◌, ◌≤◌, ◌*◌, ◌+◌, ◌⊎◌, if◌then◌else◌, Bool, true, false, arith,
}
use xtaci_kcptun.Prelude.Int.{pos}
use xtaci_kcptun.Udptun.Client.{second}
use xtaci_kcptun.Kcptun.Sessions.{Expired, is_done, scavenge}

module _ (is_closed : ℕ → Bool) (streams : ℕ → ℕ) (now : ℕ) where
  -- Open, in use, and marked less than `limit` seconds ago.
  pub record IsLive (limit : ℕ) (s : Expired) : Type 0 where
    pub used : 0 < streams s.session
    pub opened : is_closed s.session ≡ false
    pub young : now < s.ts + limit * second

  -- Closed, without streams, or marked at least `limit` seconds ago.
  abbrev pub IsOver : ℕ → Expired → Type 0
  IsOver limit s =
      (streams s.session ≡ 0) ⊎ (is_closed s.session ≡ true) ⊎ (s.ts + limit * second ≤ now)

  -- The sessions split into those kept, which are live, and those closed, which are over, in order.
  pub data Split (limit : ℕ) : List Expired → List Expired → List ℕ → Type 0 where
    none_left : Split limit [] [] []
    keeps :
        {s : Expired} {ss kept : List Expired} {closed : List ℕ}
        → IsLive limit s
        → Split limit ss kept closed
        → Split limit (s ∷ ss) (s ∷ kept) closed
    closes :
        {s : Expired} {ss kept : List Expired} {closed : List ℕ}
        → IsOver limit s
        → Split limit ss kept closed
        → Split limit (s ∷ ss) kept (s.session ∷ closed)

  pub is_done-false :
      (limit : ℕ) (s : Expired)
      → is_done is_closed streams now (pos limit) s ≡ false
      → IsLive limit s
  is_done-false limit s e = record {
    used = ground arith;
    opened = ground arith;
    young = ground arith;
  }

  is_done-true :
      (limit : ℕ) (s : Expired)
      → is_done is_closed streams now (pos limit) s ≡ true
      → IsOver limit s
  is_done-true limit s e = ground arith

  -- With a limit of zero or more, a tick of the scavenger keeps exactly the sessions that are open, have
  -- streams and were marked less than the limit ago, and closes all others.
  pub scavenge-Split :
      (limit : ℕ) (ss : List Expired)
      → Split limit ss
          (scavenge is_closed streams now (pos limit) ss).0
          (scavenge is_closed streams now (pos limit) ss).1
  unfolding scavenge
  scavenge-Split limit [] = none_left
  scavenge-Split limit (s ∷ ss) =
      decide (is_done is_closed streams now (pos limit) s) refl (scavenge-Split limit ss)
    where
      decide :
          (done : Bool)
          → is_done is_closed streams now (pos limit) s ≡ done
          → Split limit ss
              (scavenge is_closed streams now (pos limit) ss).0
              (scavenge is_closed streams now (pos limit) ss).1
          → (let (kept, closed) = scavenge is_closed streams now (pos limit) ss in
              let r : List Expired × List ℕ =
                if done then (kept, s.session ∷ closed) else (s ∷ kept, closed) in
              Split limit (s ∷ ss) r.0 r.1)
      decide true e rest = closes (is_done-true limit s e) rest
      decide false e rest = keeps (is_done-false limit s e) rest
