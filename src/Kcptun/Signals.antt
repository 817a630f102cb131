-- ===== src/Kcptun/Signals.antt =====
-- client/signal.go and server/signal.go, which are the same: sigHandler over the live connections of
-- rawtcp. A signal that comes while the handler's channel is full is lost, so the signals here are
-- those that reach it.
use xtaci_kcptun.Prelude.{
  ℕ, suc, ◌≡◌, refl, sym, ap, subst, List, [], ◌∷◌, ◌++◌, Option, none, some,
}
use xtaci_kcptun.Rawtcp.{Conn}
use xtaci_kcptun.Rawtcp.Lifetime.{Outcome}
use xtaci_kcptun.Rawtcp.Reader.{cleanup, AllListed, AllShut, cleanup-AllShut}

pub data Signal : Type 0 where
  sigusr1 interrupt sigterm sighup sigpipe other_signal : Signal

-- What a signal does to the process: SIGPIPE is ignored, a signal that is not notified has its default.
pub data Reaction : Type 0 where
  prints leaves ignored default_action : Reaction

abbrev pub reaction : Signal → Reaction
reaction sigusr1 = prints
reaction interrupt = leaves
reaction sigterm = leaves
reaction sighup = leaves
reaction sigpipe = ignored
reaction other_signal = default_action

-- How the process has ended: with this code, or by the default of a signal.
pub data Ending : Type 0 where
  exited : ℕ → Ending
  by_default : Ending

pub record Handled : Type 0 where
  pub printed : ℕ
  pub closed : List (Outcome Conn)
  pub ended : Option Ending

abbrev pub waiting : Handled
waiting = record { printed = 0; closed = []; ended = none }

abbrev pub print_once : Handled → Handled
print_once h = record h { printed = suc h.printed }

abbrev pub react : Reaction → List Conn → Handled → Handled
react prints live rest = print_once rest
react leaves live rest = record { printed = 0; closed = cleanup live; ended = some (exited 0) }
react ignored live rest = rest
react default_action live rest = record { printed = 0; closed = []; ended = some by_default }

-- `sigHandler` on the signals that come, while these connections are live.
unfoldable pub sig_handler : List Signal → List Conn → Handled
sig_handler [] live = waiting
sig_handler (s ∷ signals) live = react (reaction s) live (sig_handler signals live)

-- Signals that do not end the process, and how many of them are printed.
abbrev pub GoesOn : Reaction → Type 0
GoesOn prints = Unit {0}
GoesOn leaves = ⊥
GoesOn ignored = Unit {0}
GoesOn default_action = ⊥

abbrev pub AllGoOn : List Signal → Type 0
AllGoOn [] = Unit {0}
AllGoOn (s ∷ signals) = GoesOn (reaction s) × AllGoOn signals

abbrev pub prints_of : List Signal → ℕ
prints_of [] = 0
prints_of (sigusr1 ∷ signals) = suc (prints_of signals)
prints_of (s ∷ signals) = prints_of signals

-- Left by a signal, with every live connection closed.
pub record Left (live : List Conn) (printed : ℕ) (h : Handled) : Type 0 where
  pub ended : h.ended ≡ some (exited 0)
  pub shut : AllShut live h.closed
  pub counted : h.printed ≡ printed

-- After any signals that do not end the process, the first of SIGINT, SIGTERM and SIGHUP makes it leave
-- with code 0 once every live connection of rawtcp is closed without a panic, whatever follows; each
-- SIGUSR1 before it has printed the statistics.
pub sig_handler-Left :
    (quiet : List Signal) (s : Signal) (rest : List Signal) (live : List Conn)
    → AllGoOn quiet
    → reaction s ≡ leaves
    → AllListed live
    → Left live (prints_of quiet) (sig_handler (quiet ++ s ∷ rest) live)
unfolding sig_handler
sig_handler-Left [] s rest live go r listed =
    subst (λ x. Left live 0 (react x live (sig_handler rest live))) (sym r)
      (record { ended = refl; shut = cleanup-AllShut live listed; counted = refl })
sig_handler-Left (sigusr1 ∷ quiet) s rest live (g, go) r listed =
    let left = sig_handler-Left quiet s rest live go r listed in
    record { ended = left.ended; shut = left.shut; counted = ap suc left.counted }
sig_handler-Left (sigpipe ∷ quiet) s rest live (g, go) r listed =
    sig_handler-Left quiet s rest live go r listed
sig_handler-Left (interrupt ∷ quiet) s rest live (g, go) r listed = absurd g
sig_handler-Left (sigterm ∷ quiet) s rest live (g, go) r listed = absurd g
sig_handler-Left (sighup ∷ quiet) s rest live (g, go) r listed = absurd g
sig_handler-Left (other_signal ∷ quiet) s rest live (g, go) r listed = absurd g
