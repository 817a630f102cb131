-- ===== src/Udptun/Supervisor/Safety.antt =====
-- What holds in every state that the supervisor and its watchdogs reach.
use xtaci_kcptun.Prelude.{
  ℕ, ◌+◌, ◌≤◌, ◌<◌, ◌≡◌, ◌↔◌, refl, Option, none, some, true, false, arith, update,
}
use xtaci_kcptun.Prelude.Int.{ℤ, pos, sub_ℕ, ltb_ℤ}
use xtaci_kcptun.Udptun.Supervisor.{
  Phase, dialling, stopped, serving, closing, Link, is_positive, dead, connect, lose, forget, watch,
  received, unconnected, Step, dial_succeeds, dial_stops, arrives, read_fails, unpublishes,
  watchdog_ticks, watchdog_stops, dies, Reach, start, later,
}

-- The connection of a phase.
abbrev pub phase_conn : Phase → Option ℕ
phase_conn dialling = none
phase_conn stopped = none
phase_conn (serving n) = some n
phase_conn (closing n) = some n

pub record IsSafe (s : Link) : Type 0 where
  -- what is handed out is the connection that `supervise` is at
  pub published : s.conn ≡ phase_conn s.phase
  -- what is not dialled yet is neither closed nor watched
  pub fresh : (n : ℕ) → s.dialled ≤ n → (s.closed n ≡ false) × (s.watched n ≡ false)
  -- a connection that is still open is the one that is served
  pub one_open : (n : ℕ) → n < s.dialled → s.closed n ≡ false → s.phase ≡ serving n
  pub served_dialled : (n : ℕ) → phase_conn s.phase ≡ some n → n < s.dialled
  -- and while the client lives and pings it has its watchdog
  pub guarded :
      (n : ℕ)
      → s.phase ≡ serving n
      → s.closed n ≡ false
      → s.die ≡ false
      → is_positive s.keep_alive ≡ true
      → s.watched n ≡ true

unconnected-IsSafe : (keep_alive : ℤ) → IsSafe (unconnected keep_alive)
unconnected-IsSafe keep_alive = record {
  published = refl;
  fresh = λ n h. (refl, refl);
  one_open = λ n h e. absurd (omega arith);
  served_dialled = λ n e. ground arith;
  guarded = λ n e f g h. ground arith;
}

connect-IsSafe : (now : ℕ) (s : Link) → s.phase ≡ dialling → IsSafe s → IsSafe (connect now s)
unfolding connect update
connect-IsSafe now s e v = record {
  published = refl;
  fresh = λ n h. ground (arith, v.fresh n);
  one_open = λ n h f. ground (arith, v.one_open n);
  served_dialled = λ n f. ground (arith, v.served_dialled n);
  guarded = λ n f g h i. ground (arith, v.guarded n);
}

lose-IsSafe : (n : ℕ) (s : Link) → s.phase ≡ serving n → IsSafe s → IsSafe (lose n s)
unfolding lose update
lose-IsSafe n s e v = record {
  published = ground arith;
  fresh = λ m h. ground (arith, v.fresh m, v.served_dialled n);
  one_open = λ m h f. ground (arith, v.one_open m);
  served_dialled = λ m f. ground (arith, v.served_dialled m);
  guarded = λ m f g h i. ground arith;
}

forget-IsSafe : (n : ℕ) (s : Link) → s.phase ≡ closing n → IsSafe s → IsSafe (forget s)
unfolding forget
forget-IsSafe n s e v = record {
  published = ground arith;
  fresh = λ m h. ground (arith, v.fresh m);
  one_open = λ m h f. ground (arith, v.one_open m);
  served_dialled = λ m f. ground arith;
  guarded = λ m f g h i. ground arith;
}

watch-IsSafe : (now n : ℕ) (s : Link) → s.watched n ≡ true → IsSafe s → IsSafe (watch now n s)
unfolding watch update
watch-IsSafe now n s e v = record {
  published = ground arith;
  fresh = λ m h. ground (arith, v.fresh m, v.fresh n);
  one_open = λ m h f. ground (arith, v.one_open m);
  served_dialled = λ m f. ground (arith, v.served_dialled m);
  guarded = λ m f g h i. ground (arith, v.guarded m);
}

stop-IsSafe : (s : Link) → s.phase ≡ dialling → IsSafe s → IsSafe (record s { phase = stopped })
stop-IsSafe s e v = record {
  published = ground arith;
  fresh = v.fresh;
  one_open = λ n h f. ground (arith, v.one_open n);
  served_dialled = λ n f. ground arith;
  guarded = λ n f g h i. ground arith;
}

unwatch-IsSafe :
    (n : ℕ) (s : Link)
    → s.die ≡ true
    → IsSafe s
    → IsSafe (record s { watched = update s.watched n false })
unfolding update
unwatch-IsSafe n s d v = record {
  published = v.published;
  fresh = λ m h. ground (arith, v.fresh m);
  one_open = v.one_open;
  served_dialled = v.served_dialled;
  guarded = λ m f g h i. ground arith;
}

-- Every step keeps the state safe.
pub Step-IsSafe : {s t : Link} → Step s t → IsSafe s → IsSafe t
unfolding received
Step-IsSafe {s} (dial_succeeds now e) v = connect-IsSafe now s e v
Step-IsSafe {s} (dial_stops e d) v = stop-IsSafe s e v
Step-IsSafe (arrives now n e o) v = record {
  published = v.published;
  fresh = v.fresh;
  one_open = v.one_open;
  served_dialled = v.served_dialled;
  guarded = v.guarded;
}
Step-IsSafe {s} (read_fails n e) v = lose-IsSafe n s e v
Step-IsSafe {s} (unpublishes n e) v = forget-IsSafe n s e v
Step-IsSafe {s} (watchdog_ticks now n e) v = watch-IsSafe now n s e v
Step-IsSafe {s} (watchdog_stops n d) v = unwatch-IsSafe n s d v
Step-IsSafe dies v = record {
  published = v.published;
  fresh = v.fresh;
  one_open = v.one_open;
  served_dialled = v.served_dialled;
  guarded = λ m f g h i. ground arith;
}

-- In every state that the supervisor and its watchdogs reach, what is handed out for writing is the
-- connection that `supervise` is at: the one it serves, or, until it is unpublished, the closed one that
-- it no longer serves. At most one connection is open, and it is the served one; and while the client
-- lives and its keepalive is positive, a served connection that is open has its watchdog.
pub Reach-IsSafe : {keep_alive : ℤ} {s : Link} → Reach keep_alive s → IsSafe s
Reach-IsSafe {keep_alive} start = unconnected-IsSafe keep_alive
Reach-IsSafe (later r st) = Step-IsSafe st (Reach-IsSafe r)

-- A watchdog that closes a connection closes the one that is handed out and served, and only after
-- nothing was received for more than three keepalive intervals.
pub watch_only_silent :
    {keep_alive : ℤ} {s : Link} (now n : ℕ)
    → Reach keep_alive s
    → n < s.dialled
    → s.closed n ≡ false
    → (watch now n s).closed n ≡ true
    → (s.conn ≡ some n)
      × (s.phase ≡ serving n)
      × (ltb_ℤ (pos (dead s.keep_alive)) (sub_ℕ now s.last_recv) ≡ true)
unfolding watch update
watch_only_silent now n r below was_open shut =
    let v = Reach-IsSafe r in ground (arith, v.one_open n, v.published)

-- While the client lives and pings, an open connection that is served and was silent for more than
-- three keepalive intervals has a watchdog, and its next tick closes the connection.
pub watch_closes_silent :
    {keep_alive : ℤ} {s : Link} (now n : ℕ)
    → Reach keep_alive s
    → s.phase ≡ serving n
    → s.closed n ≡ false
    → s.die ≡ false
    → is_positive s.keep_alive ≡ true
    → s.last_recv + dead s.keep_alive < now
    → (s.watched n ≡ true) × ((watch now n s).closed n ≡ true)
unfolding watch update
watch_closes_silent now n r e was_open alive pings silent =
    let v = Reach-IsSafe r in (v.guarded n e was_open alive pings, ground (arith, v.published))

-- While the client lives and pings, the next tick of a watchdog closes the open connection `n` exactly
-- when `n` is served and nothing was received for more than three keepalive intervals; and a served
-- connection has its watchdog.
pub watch_lem :
    {keep_alive : ℤ} {s : Link} (now n : ℕ)
    → Reach keep_alive s
    → n < s.dialled
    → s.closed n ≡ false
    → s.die ≡ false
    → is_positive s.keep_alive ≡ true
    → ((watch now n s).closed n ≡ true)
      ↔ ((s.phase ≡ serving n) × (s.watched n ≡ true) × (s.last_recv + dead s.keep_alive < now))
watch_lem now n r below was_open alive pings = (
  λ shut.
      let (_, serves, silent) = watch_only_silent now n r below was_open shut in
      (serves, (Reach-IsSafe r).guarded n serves was_open alive pings, ground (arith, silent)),
  λ (serves, _, silent). (watch_closes_silent now n r serves was_open alive pings silent).1,
)
