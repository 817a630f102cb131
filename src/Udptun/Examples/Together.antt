-- ===== src/Udptun/Examples/Together.antt =====
-- The two udptun programs with nothing on their command lines, and "hi" through both relays.
use xtaci_kcptun.Prelude.{ℕ, refl, String, List, [], length, some, true, arith, replicate}
use xtaci_kcptun.Udptun.Codec.{Crypto}
use xtaci_kcptun.Udptun.FlowKey.{Text}
use xtaci_kcptun.Udptun.Start.{run_client, start_server}
use xtaci_kcptun.Udptun.EndToEnd.{Working, programs_exchange}
use xtaci_kcptun.Udptun.Examples.Data.{plain, hello, uplink, local_flow, sender}
use xtaci_kcptun.Udptun.Examples.Sockets.{peer, blank}
use xtaci_kcptun.Udptun.Examples.Programs.{
  named, nothing, no_file, client_runs, server_runs, client_starts, server_starts, nothing_loads,
  same_words,
}

-- One cipher, and nonces that depend on the AES key.
abbrev crypto : String × List ℕ → List ℕ → Crypto
crypto block key = record plain { aes = λ x. replicate 16 (length key); length-aes = λ x h. refl }

programs_exchange_example :
    Working
      (crypto client_runs.block (replicate 16 1))
      (crypto server_runs.block (replicate 16 2))
      (λ (a : String). a)
      (λ (a : Text). a)
      5
      (replicate 1350 0)
      (replicate 1350 0)
      (replicate 24 0)
      hello
      hello
      sender
      peer
      uplink
      (run_client true
        (some (replicate 16 1))
        (some (replicate 16 7))
        client_runs.max_packet
        client_runs.idle
        client_runs.keep_alive
        local_flow)
      (start_server true
        (some (replicate 16 2))
        (some (replicate 16 8))
        server_runs.max_packet
        server_runs.idle
        blank)
programs_exchange_example =
    programs_exchange named crypto (λ a. a) (λ a. a)
      (λ b key key'. record { decrypt = refl; crc32 = refl }) (λ path. true) (λ path. true)
      (λ address. true) nothing nothing "secret" no_file no_file [] [] client_runs server_runs
      (replicate 16 1) (replicate 16 2) (replicate 16 7) (replicate 16 8) 1350 5 local_flow blank
      (replicate 1350 0) (replicate 1350 0) (replicate 24 0) hello hello sender peer uplink
      nothing_loads nothing_loads same_words client_starts server_starts refl refl refl refl refl
      (omega arith) (omega arith)
