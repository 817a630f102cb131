-- ===== src/Kcptun/Tunnel/Count.antt =====
-- client/main.go and server/main.go: how much a tunnel has left to do alone once bytes and peers stop.
use xtaci_kcptun.Prelude.{ℕ, suc, ◌+◌, ◌≤◌, ◌≡◌, refl, Bool, true, false, arith}
use xtaci_kcptun.Kcptun.Tunnel.{
  Dir, up, down, set_dir, Phase, selecting, deferring, half_closed, returned, Tunnel, end_copy,
  close, Step, reads, writes, ends, selects, closes_second, closes_first, source_stops,
  target_stops, IsAlone, Alone, rests, goes,
}

-- How many statements the handler has before it, and how many copies are not over.
abbrev phase_rank : Phase → ℕ
phase_rank selecting = 3
phase_rank deferring = 2
phase_rank half_closed = 1
phase_rank returned = 0

abbrev live_rank : Bool → ℕ
live_rank true = 0
live_rank false = 1

abbrev pub rank : Tunnel → ℕ
rank t = phase_rank t.phase + (live_rank (t.ended up) + live_rank (t.ended down))

abbrev pub count : {s t : Tunnel} → Alone s t → ℕ
count rests = 0
count (goes a st alone) = suc (count a)

rank-end_copy : (d : Dir) (t : Tunnel) → t.ended d ≡ false → suc (rank (end_copy d t)) ≡ rank t
unfolding end_copy set_dir
rank-end_copy up t live = rw live (omega arith)
rank-end_copy down t live = rw live (omega arith)

rank-Step : {t u : Tunnel} (st : Step t u) → IsAlone st → suc (rank u) ≡ rank t
unfolding close
rank-Step {t} (reads d bs live empty more opened) alone = absurd alone
rank-Step {t} (writes d n live takes opened) alone = absurd alone
rank-Step {t} (ends d live why) alone = rank-end_copy d t live
rank-Step {t} (selects d at ended) alone = rw at (omega arith)
rank-Step {t} (closes_second at) alone = rw at (omega arith)
rank-Step {t} (closes_first at) alone = rw at (omega arith)
rank-Step {t} (source_stops e) alone = absurd alone
rank-Step {t} (target_stops e) alone = absurd alone

pub count-rank : {s t : Tunnel} (a : Alone s t) → count a + rank t ≡ rank s
count-rank rests = omega arith
count-rank (goes a st alone) = omega (arith, count-rank a, rank-Step st alone)

pub rank_bound : (t : Tunnel) → rank t ≤ 5
rank_bound t = bound t.phase (t.ended up) (t.ended down)
  where
    live : (b : Bool) → live_rank b ≤ 1
    live true = omega arith
    live false = omega arith

    left : (p : Phase) → phase_rank p ≤ 3
    left selecting = omega arith
    left deferring = omega arith
    left half_closed = omega arith
    left returned = omega arith

    bound : (p : Phase) (b c : Bool) → phase_rank p + (live_rank b + live_rank c) ≤ 5
    bound p b c = omega (arith, left p, live b, live c)

step-ended :
    (d : Dir) {t u : Tunnel} (st : Step t u) → IsAlone st → t.ended d ≡ true → u.ended d ≡ true
unfolding end_copy set_dir close
step-ended d (reads i bs live empty more opened) alone e = absurd alone
step-ended d (writes i n live takes opened) alone e = absurd alone
step-ended up (ends up live why) alone e = refl
step-ended up (ends down live why) alone e = e
step-ended down (ends up live why) alone e = e
step-ended down (ends down live why) alone e = refl
step-ended d (selects i at ended) alone e = e
step-ended d (closes_second at) alone e = e
step-ended d (closes_first at) alone e = e
step-ended d (source_stops i) alone e = absurd alone
step-ended d (target_stops i) alone e = absurd alone

pub still_ended : (d : Dir) {s t : Tunnel} → s.ended d ≡ true → Alone s t → t.ended d ≡ true
still_ended d e rests = e
still_ended d e (goes a st alone) = step-ended d st alone (still_ended d e a)
