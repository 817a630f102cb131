-- ===== src/Kcptun/Examples/Starting.antt =====
-- A client with one session, which comes up at its second attempt.
use xtaci_kcptun.Prelude.{ℕ, ◌≡◌, refl, List, [], ◌∷◌, some, Bool, ◌==◌, lookup, arith}
use xtaci_kcptun.Prelude.Int.{pos}
use xtaci_kcptun.Prelude.Switch.{contains}
use xtaci_kcptun.Kcptun.Config.Client.{client_mode}
use xtaci_kcptun.Kcptun.Connect
use xtaci_kcptun.Kcptun.Connect.{create_conn, wait_conn}
use xtaci_kcptun.Kcptun.Sessions.{num_conn, new_mux}
use xtaci_kcptun.Kcptun.Sessions.Life.{
  Life, begin, hand, retire, renew, Steps, here, later, retires, renews,
}
use xtaci_kcptun.Kcptun.Sessions.Life.Accounted.{AllNew, IsAccounted}
use xtaci_kcptun.Kcptun.Sessions.Start.{start, fill_waited, start-IsAccounted}
use xtaci_kcptun.Kcptun.Examples.Settings.{client_settled, refused, granted}

abbrev attempts : ℕ → List Connect.Answers
attempts k = refused ∷ granted ∷ []

abbrev first : Life
first = begin (pos 0) ((9, 3) ∷ [])

started : start client_settled attempts (λ k. 3) ≡ some first
unfolding start fill_waited wait_conn create_conn Connect.dial num_conn client_mode lookup contains
started = refl

first-AllNew : AllNew first.started
unfolding begin
first-AllNew x = ground arith

abbrev is_closed : ℕ → Bool
is_closed session = session == 9

-- The session is closed when the first connection comes.
first_run :
    Steps client_settled.scavenge_ttl first (renew 7 10 0 (retire 0 (new_mux 3 (pos 0) 9) first))
unfolding begin retire renew hand
first_run =
    later (later here (retires is_closed 5 (new_mux 3 (pos 0) 9) refl refl refl (omega arith)))
      (renews 0 (new_mux 3 (pos 0) 9) 7 10 refl refl)

start-IsAccounted_example :
    IsAccounted (num_conn client_settled.conn) (renew 7 10 0 (retire 0 (new_mux 3 (pos 0) 9) first))
start-IsAccounted_example =
    start-IsAccounted client_settled attempts (λ k. 3) first
      (renew 7 10 0 (retire 0 (new_mux 3 (pos 0) 9) first)) started first-AllNew first_run
