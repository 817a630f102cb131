-- ===== src/Kcptun/Sessions/Start.antt =====
-- client/main.go: the sessions with which the client begins, one `waitConn` for each, and the client
-- from there on.
use xtaci_kcptun.Prelude.{
  ℕ, zero, suc, ◌+◌, ◌<◌, ◌≡◌, refl, sym, ◌∙◌, ap, subst, List, [], ◌∷◌, length, Option, none, some,
  arith,
}
use xtaci_kcptun.Kcptun.Config.Client.{ClientConfig}
use xtaci_kcptun.Kcptun.Connect.{Answers, Up, wait_conn}
use xtaci_kcptun.Kcptun.Sessions.{num_conn}
use xtaci_kcptun.Kcptun.Sessions.Life.{Life, begin, Steps}
use xtaci_kcptun.Kcptun.Sessions.Life.Accounted.{AllNew, IsAccounted, Steps-IsAccounted}

abbrev pub fill_one : Option Up → ℕ → Option (List (ℕ × ℕ)) → Option (List (ℕ × ℕ))
fill_one none made rest = none
fill_one (some up) made none = none
fill_one (some up) made (some ups) = some ((up.session, made) ∷ ups)

-- `for k := range muxes`, from `k` on, with `n` left: the sessions and the times at which they came, or
-- `none` as long as one of them is waited for. `answers` is what the attempts for each are answered.
unfoldable pub fill_waited :
    ClientConfig → (ℕ → List Answers) → (ℕ → ℕ) → ℕ → ℕ → Option (List (ℕ × ℕ))
fill_waited c answers made k zero = some []
fill_waited c answers made k (suc n) =
    let rest = fill_waited c answers made (suc k) n in
    fill_one (wait_conn c (answers k)).up (made k) rest

abbrev pub life_of : ClientConfig → Option (List (ℕ × ℕ)) → Option Life
life_of c none = none
life_of c (some ups) = some (begin c.auto_expire ups)

-- The client before its first `AcceptTCP`.
unfoldable pub start : ClientConfig → (ℕ → List Answers) → (ℕ → ℕ) → Option Life
unfolding fill_waited
start c answers made = life_of c (fill_waited c answers made 0 (num_conn c.conn))

fill_one-length :
    (o : Option Up) (made n : ℕ) (rest : Option (List (ℕ × ℕ))) (ups : List (ℕ × ℕ))
    → ((more : List (ℕ × ℕ)) → rest ≡ some more → length more ≡ n)
    → fill_one o made rest ≡ some ups
    → length ups ≡ suc n
fill_one-length none made n rest ups h e = absurd (cc e)
fill_one-length (some up) made n none ups h e = absurd (cc e)
fill_one-length (some up) made n (some more) [] h e = absurd (cc e)
fill_one-length (some up) made n (some more) (u ∷ ups) h e =
    let same : ups ≡ more = cc e in ap suc (ap length same ∙ h more refl)

fill_waited-length :
    (c : ClientConfig) (answers : ℕ → List Answers) (made : ℕ → ℕ) (k n : ℕ) (ups : List (ℕ × ℕ))
    → fill_waited c answers made k n ≡ some ups
    → length ups ≡ n
unfolding fill_waited
fill_waited-length c answers made k zero [] e = refl
fill_waited-length c answers made k zero (u ∷ ups) e = absurd (cc e)
fill_waited-length c answers made k (suc n) ups e =
    fill_one-length (wait_conn c (answers k)).up (made k) n (fill_waited c answers made (suc k) n)
      ups (fill_waited-length c answers made (suc k) n) e

fill_one-blocked : (o : Option Up) (made : ℕ) → fill_one o made none ≡ none
fill_one-blocked none made = refl
fill_one-blocked (some up) made = refl

fill_waited-blocked :
    (c : ClientConfig) (answers : ℕ → List Answers) (made : ℕ → ℕ) (k n i : ℕ)
    → i < n
    → (wait_conn c (answers (k + i))).up ≡ none
    → fill_waited c answers made k n ≡ none
unfolding fill_waited
fill_waited-blocked c answers made k zero i h e = absurd (omega (arith, h))
fill_waited-blocked c answers made k (suc n) zero h e =
    let same : k + 0 ≡ k = omega arith in
    ap (λ o. fill_one o (made k) (fill_waited c answers made (suc k) n))
      (subst (λ m. (wait_conn c (answers m)).up ≡ none) same e)
fill_waited-blocked c answers made k (suc n) (suc i) h e =
    let moved : k + suc i ≡ suc k + i = omega arith in
    ap (λ rest. fill_one (wait_conn c (answers k)).up (made k) rest)
      (fill_waited-blocked c answers made (suc k) n i (omega (arith, h))
        (subst (λ m. (wait_conn c (answers m)).up ≡ none) moved e))
    ∙ fill_one-blocked (wait_conn c (answers k)).up (made k)

-- As long as one of the sessions is waited for, the client accepts nothing.
pub start-blocked :
    (c : ClientConfig) (answers : ℕ → List Answers) (made : ℕ → ℕ) (i : ℕ)
    → i < num_conn c.conn
    → (wait_conn c (answers i)).up ≡ none
    → start c answers made ≡ none
unfolding start
start-blocked c answers made i h e = ap (life_of c) (
    fill_waited-blocked c answers made 0 (num_conn c.conn) i h
      (subst (λ m. (wait_conn c (answers m)).up ≡ none) (omega arith) e))

life_of-begin :
    (c : ClientConfig) (o : Option (List (ℕ × ℕ))) (s : Life)
    → life_of c o ≡ some s
    → (ups : List (ℕ × ℕ)) × (o ≡ some ups) × (begin c.auto_expire ups ≡ s)
life_of-begin c none s e = absurd (cc e)
life_of-begin c (some ups) s e = (ups, refl, cc e)

-- While the accept loop and the scavenger of a client run that has come to its sessions, all of them
-- different, each session that came up stands in one place: in the pool, in the channel, on the
-- scavenger's list, or among the closed; only the session that is being replaced stands in the pool and
-- in one other place. So none is lost, and none is closed twice. The pool has as many sessions as
-- `uint16` makes of the setting.
pub start-IsAccounted :
    (c : ClientConfig) (answers : ℕ → List Answers) (made : ℕ → ℕ) (s t : Life)
    → start c answers made ≡ some s
    → AllNew s.started
    → Steps c.scavenge_ttl s t
    → IsAccounted (num_conn c.conn) t
unfolding start begin
start-IsAccounted c answers made s t e new r =
    let filled = fill_waited c answers made 0 (num_conn c.conn) in
    let (ups, came, begun) = life_of-begin c filled s e in
    let sized = fill_waited-length c answers made 0 (num_conn c.conn) ups came in
    subst (λ n. IsAccounted n t) sized
      (Steps-IsAccounted c.scavenge_ttl c.auto_expire ups t
        (subst (λ u. AllNew u.started) (sym begun) new)
        (subst (λ u. Steps c.scavenge_ttl u t) (sym begun) r))
