-- ===== src/Udptun/Examples/Talk.antt =====
-- The server's handlers, and a reply that comes late, at concrete inputs.
use xtaci_kcptun.Prelude.{
  ℕ, ◌+◌, ◌≡◌, refl, sym, ◌∙◌, [], ◌∷◌, String, none, some, true, false, replicate, arith, lookup,
}
use xtaci_kcptun.Udptun.FlowKey.{Text, text_eq}
use xtaci_kcptun.Udptun.Client.{Client}
use xtaci_kcptun.Udptun.Server.{Server, run_server, pump, reap, touch, close_flow, to_target}
use xtaci_kcptun.Udptun.Server.Steps.{Step, Steps, Reach-IsSound}
use xtaci_kcptun.Udptun.Client.Steps.{Step as ClientStep, Steps as ClientSteps}
use xtaci_kcptun.Udptun.Server.Handlers.{handlers-Steps}
use xtaci_kcptun.Udptun.Server.Serve.{run_server_forwards}
use xtaci_kcptun.Udptun.Server.Reap.{Reaped, reap-Reaped}
use xtaci_kcptun.Udptun.KeepAlive
use xtaci_kcptun.Udptun.KeepAlive.{ping-Answered}
use xtaci_kcptun.Udptun.Conversation.{Answered, reply_returns}
use xtaci_kcptun.Udptun.Examples.Data.{
  plain, hello, hello_packet, open_hello, uplink, client0, client0-IsRunning, sender, out,
}
use xtaci_kcptun.Udptun.Examples.Flows.{relayed, relayed_hello}
use xtaci_kcptun.Udptun.Examples.Sockets.{
  peer, server0, server0-IsSound, far, published, published-Reach,
}
use xtaci_kcptun.Udptun.Exchange.{SameCipher, open_packet-same}
use xtaci_kcptun.Udptun.Server.Sockets.{IsSound}
use xtaci_kcptun.Udptun.Server.{publish, dial}

published_rests : published.pending ≡ none
unfolding publish dial lookup
published_rests = refl

handlers-Steps_example :
    Steps
      (λ (a : Text). a)
      published
      (run_server plain
        (λ (a : Text). a)
        61_000_000_006
        true
        false
        (replicate 24 0)
        hello_packet
        peer
        published).0
    × Steps
        (λ (a : Text). a)
        published
        (pump plain (λ (a : Text). a) 61_000_000_006 false (replicate 40 0) hello 0 published).0
    × Steps (λ (a : Text). a) published (reap 61_000_000_006 published)
handlers-Steps_example =
    handlers-Steps plain (λ a. a) 61_000_000_006 true false (replicate 24 0) hello_packet
      (replicate 40 0) hello peer 0 published published_rests (ground arith)

published-IsSound : IsSound (λ (a : Text). a) published
published-IsSound = Reach-IsSound (λ (a : Text). a) published-Reach

-- The one flow, made at 5, is stale.
reap-Reaped_example : Reaped (λ (a : Text). a) 61_000_000_006 published
reap-Reaped_example = reap-Reaped (λ a. a) 61_000_000_006 published published-IsSound

same_cipher : SameCipher plain far
same_cipher = record { decrypt = refl; crc32 = refl }

forwards :
    (p : ℕ) × (t : Server Text) × (run_server far
        (λ (a : Text). a)
        5
        true
        true
        (replicate 24 0)
        hello_packet
        peer
        server0
      ≡ (t, to_target p hello ∷ []))
forwards =
    let (p, t, ran, _, _) =
      run_server_forwards far (λ a. a) 5 (replicate 24 0) hello_packet peer server0
        (record { flow_id = 1; payload = hello }) server0-IsSound refl
        (sym (open_packet-same plain far hello_packet same_cipher) ∙ open_hello) (omega arith)
        (omega arith) in
    (p, t, ran)

-- Before the reply is sent the flow is touched and closed.
abbrev closed : Server Text
closed = close_flow forwards.0 (touch 6 forwards.0 forwards.1)

-- Before it comes, a packet that does not open has come, a datagram over the limit was dropped, and the
-- connection was lost and published again.
abbrev again : Client String
again = record relayed.0 {
  transport = some uplink;
  last_recv = 10;
  oversize = relayed.0.oversize + 1;
}

reconnects : ClientSteps plain (λ (a : String). a) 1 relayed.0 again
reconnects =
    ClientSteps.more
      (ClientSteps.more
        (ClientSteps.more (ClientSteps.more ClientSteps.done ClientStep.counts) ClientStep.forgets)
        (ClientStep.connects uplink))
      (ClientStep.hears 10)

-- The server sees every connection of the client under the address of `peer`.
abbrev seen : ℕ → Text
seen conn = peer

reply_returns_example :
    Answered plain far
      (λ (a : String). a)
      (λ (a : Text). a)
      seen
      true
      7
      11
      (replicate 40 0)
      hello
      sender
      forwards.0
      closed
      again
reply_returns_example =
    reply_returns plain far (λ a. a) (λ a. a) 9 true out hello sender client0 uplink relayed.0
      relayed.1 hello_packet 1 again 5 (replicate 24 0) peer forwards.0 server0 forwards.1 closed 7
      11 true (replicate 40 0) hello seen same_cipher client0-IsRunning (omega arith) refl
      (omega arith) refl relayed.2 relayed_hello open_hello server0-IsSound refl refl refl
      forwards.2 reconnects
      (Steps.more (Steps.more Steps.done (Step.touches 6 forwards.0)) (Step.closes forwards.0)) refl
      refl (omega arith)

ping-Answered_example :
    KeepAlive.Answered plain far
      (λ (a : String). a)
      (λ (a : Text). a)
      5
      6
      true
      true
      true
      (replicate 24 0)
      (replicate 24 0)
      peer
      uplink
      client0
      server0
ping-Answered_example =
    ping-Answered plain far (λ a. a) (λ a. a) 5 6 true true true (replicate 24 0) (replicate 24 0)
      peer uplink client0 server0 same_cipher client0-IsRunning refl refl refl refl refl refl
