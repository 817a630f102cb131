-- ===== src/Kcptun/Config/Modes.antt =====
-- client/main.go and server/main.go: what `-mode` is documented to set.
use xtaci_kcptun.Prelude.{
  ◌≡◌, ◌≢◌, refl, String, true, false, string_eq, Bool-cases, inl, inr, arith,
}
use xtaci_kcptun.Prelude.Int.{ℤ, pos}
use xtaci_kcptun.Prelude.Switch.{switch}
use xtaci_kcptun.Kcptun.Config.{Tuning}
use xtaci_kcptun.Kcptun.Config.Client.{
  ClientConfig, client_tune, client_modes, client_tuning, client_mode,
}
use xtaci_kcptun.Kcptun.Config.Server.{ServerConfig, server_tune, server_tuning, server_mode}

abbrev pub tuned : ℤ → ℤ → Tuning
tuned no_delay interval = record {
  no_delay = no_delay;
  interval = interval;
  resend = pos 2;
  no_congestion = pos 1;
}

-- The tuning of a mode: the modes go from 40 milliseconds down to 10, the two fast ones without delay; any
-- other name leaves what was set.
pub data Tunes (name : String) (old : Tuning) : Tuning → Type 0 where
  normal : name ≡ "normal" → Tunes name old (tuned (pos 0) (pos 40))
  fast : name ≡ "fast" → Tunes name old (tuned (pos 0) (pos 30))
  fast2 : name ≡ "fast2" → Tunes name old (tuned (pos 1) (pos 20))
  fast3 : name ≡ "fast3" → Tunes name old (tuned (pos 1) (pos 10))
  manual : name ≢ "normal" → name ≢ "fast" → name ≢ "fast2" → name ≢ "fast3" → Tunes name old old

equal : (label name : String) → string_eq.beq label name ≡ true → name ≡ label
equal label name e = ground (arith, e, string_eq.beq_iff label name)

differs : (label name : String) → string_eq.beq label name ≡ false → name ≢ label
differs label name e same = ground (arith, e, same, string_eq.beq_iff label name)

switch-Tunes : (name : String) (old : Tuning) → Tunes name old (switch name client_modes old)
unfolding switch
switch-Tunes name old = elim (Bool-cases (string_eq.beq "normal" name)) [
  | inl a ↦ rw (a) (normal (equal _ name a))
  | inr a ↦ rw (a) (elim (Bool-cases (string_eq.beq "fast" name)) [
    | inl b ↦ rw (b) (fast (equal _ name b))
    | inr b ↦ rw (b) (elim (Bool-cases (string_eq.beq "fast2" name)) [
      | inl c ↦ rw (c) (fast2 (equal _ name c))
      | inr c ↦ rw (c) (elim (Bool-cases (string_eq.beq "fast3" name)) [
        | inl d ↦ rw (d) (fast3 (equal _ name d))
        | inr d ↦
            rw (d)
              (manual (differs _ name a) (differs _ name b) (differs _ name c) (differs _ name d))
      ])
    ])
  ])
]

-- A configuration with its mode applied: the tuning is the mode's, all else is as it was.
pub record ClientTuned (a b : ClientConfig) : Type 0 where
  pub tunes : Tunes a.mode (client_tuning a) (client_tuning b)
  pub others : client_tune (client_tuning a) b ≡ a

pub record ServerTuned (a b : ServerConfig) : Type 0 where
  pub tunes : Tunes a.mode (server_tuning a) (server_tuning b)
  pub others : server_tune (server_tuning a) b ≡ a

pub client_mode-ClientTuned : (a : ClientConfig) → ClientTuned a (client_mode a)
unfolding client_mode
client_mode-ClientTuned a = record { tunes = switch-Tunes a.mode (client_tuning a); others = refl }

pub server_mode-ServerTuned : (a : ServerConfig) → ServerTuned a (server_mode a)
unfolding server_mode
server_mode-ServerTuned a = record { tunes = switch-Tunes a.mode (server_tuning a); others = refl }
