-- ===== src/Kcptun/Examples/Lives.antt =====
-- A client with two sessions, the first of which the network closes.
use xtaci_kcptun.Prelude.{ℕ, ◌<◌, ◌≡◌, refl, List, [], ◌∷◌, map, length, Bool, false, ◌==◌, arith}
use xtaci_kcptun.Prelude.Int.{pos}
use xtaci_kcptun.Kcptun.Sessions.{new_mux, mark, scavenge}
use xtaci_kcptun.Kcptun.Sessions.Life.{
  Life, accepting, begin, hand, retire, renew, take_expired, scavenge_tick, count, Step, Steps,
  serves, retires, renews, receives, here, later,
}
use xtaci_kcptun.Kcptun.Sessions.Life.Accounted.{AllNew}
use xtaci_kcptun.Kcptun.Sessions.Life.Closing.{IsGone, received_closes}
use xtaci_kcptun.Kcptun.Sessions.Life.Handing.{IsUsable, handed_lem, Passed, accept-Steps}

abbrev ups : List (ℕ × ℕ)
ups = (20, 0) ∷ (21, 0) ∷ []

ups-AllNew : AllNew (map (λ up. up.0) ups)
ups-AllNew x = ground arith

abbrev first_closed : ℕ → Bool
first_closed session = session == 20

abbrev no_streams : ℕ → ℕ
no_streams session = 0

abbrev start : Life
start = begin (pos 10) ups

abbrev retired : Life
retired = retire 0 (new_mux 0 (pos 10) 20) start

abbrev received : Life
received = take_expired 6 20 [] retired

abbrev renewed : Life
renewed = renew 7 22 0 received

-- The first connection finds the first session closed; the scavenger has it before a new one is up.
run : Steps (pos 600) start renewed
unfolding begin retire take_expired renew hand
run =
    later
      (later
        (later here (retires first_closed 5 (new_mux 0 (pos 10) 20) refl refl refl (omega arith)))
        (receives 6 20 [] refl))
      (renews 0 (new_mux 0 (pos 10) 20) 7 22 refl refl)

renewal : Step (pos 600) received renewed
unfolding begin retire take_expired renew hand
renewal = renews 0 (new_mux 0 (pos 10) 20) 7 22 refl refl

run_to_retired : Steps (pos 600) start retired
unfolding begin retire
run_to_retired =
    later here (retires first_closed 5 (new_mux 0 (pos 10) 20) refl refl refl (omega arith))

retired_queue : retired.queue ≡ 20 ∷ []
unfolding begin retire
retired_queue = refl

-- In use at a tick a thousand seconds later.
received_closes_example :
    IsGone 20 (scavenge_tick (λ session. false) (λ session. 2) 1_000_000_000_000 (pos 600) renewed)
received_closes_example =
    received_closes 600 (pos 10) ups retired renewed 20 6 [] (λ session. false) (λ session. 2)
      1_000_000_000_000 ups-AllNew run_to_retired retired_queue (later here renewal) (omega arith)

-- The tick closes the old session.
run_on_closed : (scavenge_tick first_closed no_streams 9 (pos 600) renewed).closed ≡ 20 ∷ []
unfolding begin retire take_expired renew hand scavenge_tick mark scavenge
run_on_closed = refl

-- The second connection is given the second session.
second_step : Step (pos 600) renewed (hand 21 renewed)
unfolding begin retire take_expired renew hand
second_step = serves first_closed 8 (new_mux 0 (pos 10) 21) refl refl refl

second_handed : (hand 21 renewed).handed ≡ 21 ∷ renewed.handed
unfolding hand
second_handed = refl

handed_lem_example : IsUsable 21 (hand 21 renewed)
handed_lem_example =
    handed_lem (pos 600) (pos 10) ups renewed (hand 21 renewed) 21 ups-AllNew run second_step
      second_handed

start_size : 0 < length start.sessions.muxes
unfolding begin
start_size = omega arith

start_phase : start.phase ≡ accepting
unfolding begin
start_phase = refl

start_room : length start.queue < 128
unfolding begin
start_room = omega arith

start_new : count 22 start.started ≡ 0
unfolding begin
start_new = refl

accept-Steps_example : Passed (pos 600) first_closed 5 7 22 start
accept-Steps_example =
    accept-Steps (pos 600) first_closed 5 7 22 start start_size start_phase start_room start_new
