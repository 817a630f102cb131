-- ===== src/Kcptun/Examples/Pools.antt =====
-- A client with two sessions, the first of which is closed.
use xtaci_kcptun.Prelude.{ℕ, ◌≡◌, ◌↔◌, refl, [], length, none, Bool, ◌==◌, ◌%◌}
use xtaci_kcptun.Prelude.Int.{pos}
use xtaci_kcptun.Kcptun.Sessions.{Sessions, accept, num_conn}
use xtaci_kcptun.Kcptun.Sessions.Pool.{accept-num_conn}

abbrev no_sessions : Sessions
no_sessions = record { auto_expire = pos 10; muxes = []; rr = 0 }

abbrev is_closed : ℕ → Bool
is_closed session = session == 20

no_sessions-length : length no_sessions.muxes ≡ num_conn (pos 65_536)
unfolding num_conn
no_sessions-length = refl

accept-num_conn_example : (accept is_closed 5 6 22 no_sessions ≡ none) ↔ (65_536 % 65536 ≡ 0)
accept-num_conn_example = accept-num_conn is_closed 5 6 22 65_536 no_sessions no_sessions-length
