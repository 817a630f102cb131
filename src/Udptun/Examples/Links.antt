-- ===== src/Udptun/Examples/Links.antt =====
-- The theorems on the supervisor at concrete inputs.
use xtaci_kcptun.Prelude.{◌+◌, ◌<◌, ◌≡◌, ◌↔◌, refl, true, arith}
use xtaci_kcptun.Prelude.Int.{pos}
use xtaci_kcptun.Udptun.Supervisor.{
  Link, Reach, start, later, dial_succeeds, dead, connect, unconnected, watch, serving,
}
use xtaci_kcptun.Udptun.Supervisor.Safety.{IsSafe, Reach-IsSafe, watch_lem}

-- A client with a ping every second, connected at time 0.
abbrev connected : Link
connected = connect 0 (unconnected (pos 1))

connected-Reach : Reach (pos 1) connected
connected-Reach = later start (dial_succeeds 0 refl)

Reach-IsSafe_example : IsSafe connected
Reach-IsSafe_example = Reach-IsSafe connected-Reach

watch_lem_example : ((watch 4_000_000_000 0 connected).closed 0 ≡ true) ↔ (
    (connected.phase ≡ serving 0)
    × (connected.watched 0 ≡ true)
    × (connected.last_recv + dead connected.keep_alive < 4_000_000_000))
unfolding connect
watch_lem_example = watch_lem 4_000_000_000 0 connected-Reach (omega arith) refl refl refl
