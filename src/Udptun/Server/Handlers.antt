-- ===== src/Udptun/Server/Handlers.antt =====
-- udptun/server.go: what the main loop, a pump and the reaper do in one pass, as critical sections.
use xtaci_kcptun.Prelude.{
  ℕ, ◌^◌, ◌<◌, ◌≡◌, refl, subst, List, [], ◌∷◌, none, some, Bool, true, false, arith, lookup,
  Option-cases, Bool-cases, inl, inr, Result, ok, err, ◌==◌, if◌then◌else◌,
}
use xtaci_kcptun.Prelude.Bytes.{AllBytes}
use xtaci_kcptun.Udptun.Codec.{
  keep_alive_flow, Crypto, Codec, CodecError, Datagram, IsSeeded, seal, open_packet,
}
use xtaci_kcptun.Udptun.Codec.Frame.{seal-IsSeeded}
use xtaci_kcptun.Udptun.Codec.RoundTrip.{open_packet_sound}
use xtaci_kcptun.Udptun.FlowKey.{Text, text_eq, flow_key}
use xtaci_kcptun.Udptun.Server.{
  Server, touch, dial, publish, close_flow, close_all, reap, stale_flows, flow_for, forward, answer,
  relay, dispatch, run_server, pump,
}
use xtaci_kcptun.Udptun.Client.{seconds}
use xtaci_kcptun.Udptun.Codec.{header_size}
use xtaci_kcptun.Prelude.{ltb, length, ◌+◌}
use xtaci_kcptun.Udptun.Server.Steps.{Step, Steps}

module _ {Addr : Type 0} (k : Crypto) (show : Addr → Text) where
  one : {s t : Server Addr} → Step show s t → Steps show s t
  one st = Steps.more Steps.done st

  close_unless :
      (written : Bool) (p : ℕ) (s : Server Addr)
      → Steps show s (if written then s else close_flow p s)
  close_unless true p s = Steps.done
  close_unless false p s = one (Step.closes p)

  then_close :
      {s t : Server Addr} (written : Bool) (p : ℕ)
      → Steps show s t
      → Steps show s (if written then t else close_flow p t)
  then_close true p h = h
  then_close false p h = Steps.more h (Step.closes p)

  answer-Steps :
      (from : Addr) (s : Server Addr) (r : Codec × Result CodecError (List ℕ))
      → (IsSeeded s.codec → IsSeeded r.0)
      → Steps show s (answer from s r).0
  unfolding answer
  answer-Steps from s (codec, ok pkt) h = one (Step.seals codec h)
  answer-Steps from s (codec, err e) h = one (Step.seals codec h)

  relay-Steps :
      (written : Bool) (p : ℕ) {s t : Server Addr} (r : Codec × Result CodecError (List ℕ))
      → Steps show s t
      → (IsSeeded t.codec → IsSeeded r.0)
      → Steps show s (relay written p t r).0
  unfolding relay
  relay-Steps written p (codec, ok pkt) st h =
      then_close written p (Steps.more st (Step.seals codec h))
  relay-Steps written p (codec, err e) st h = Steps.more st (Step.seals codec h)

  publish-dial-Steps :
      (now : ℕ) (client : Addr) (id : ℕ) (s : Server Addr)
      → s.pending ≡ none
      → id < 2 ^ 32
      → Steps show s (publish s.allocated (dial now client id (flow_key (show client) id) s)).1
  publish-dial-Steps now client id s idle small =
      Steps.more (one (Step.dials now client id idle small))
        (Step.publishes s.allocated (unfold dial in refl))

  flow_for-Steps :
      (now : ℕ) (dials : Bool) (client : Addr) (id p : ℕ) (s t : Server Addr)
      → s.pending ≡ none
      → id < 2 ^ 32
      → flow_for show now dials client id s ≡ some (p, t)
      → Steps show s t
  unfolding flow_for
  flow_for-Steps now dials client id p s t idle small e =
      elim (Option-cases (lookup (flow_key (show client) id) s.table)) [
        | inr (q, hit) ↦ subst (Steps show s) (ground arith) Steps.done
        | inl miss ↦
            subst (Steps show s) (ground arith) (publish-dial-Steps now client id s idle small)
      ]

  forward-Steps :
      (now : ℕ) (written : Bool) (payload : List ℕ) (p : ℕ) {s t : Server Addr}
      → Steps show s t
      → Steps show s (forward now written payload p t).0
  unfolding forward
  forward-Steps now written payload p st = then_close written p (Steps.more st (Step.touches now p))

  dispatch-Steps :
      (now : ℕ) (dials written : Bool) (out : List ℕ) (from : Addr) (s : Server Addr) (d : Datagram)
      → s.pending ≡ none
      → d.flow_id < 2 ^ 32
      → Steps show s (dispatch k show now dials written out from s (ok d)).0
  unfolding dispatch
  dispatch-Steps now dials written out from s d idle small =
      elim (Bool-cases (d.flow_id == keep_alive_flow)) [
        | inl ping ↦
            rw (ping, if◌then◌else◌)
              (answer-Steps from s (seal k s.codec out keep_alive_flow [])
                (seal-IsSeeded k s.codec out keep_alive_flow []))
        | inr other ↦ elim (Option-cases (flow_for show now dials from d.flow_id s)) [
          | inl failed ↦ rw (other, failed, if◌then◌else◌) Steps.done
          | inr ((p, t), found) ↦
              rw (other, found, if◌then◌else◌)
                (forward-Steps now written d.payload p
                  (flow_for-Steps now dials from d.flow_id p s t idle small found))
        ]
      ]

  run_server-Steps :
      (now : ℕ) (dials written : Bool) (out buf : List ℕ) (from : Addr) (s : Server Addr)
      (r : Result CodecError Datagram)
      → s.pending ≡ none
      → AllBytes (k.decrypt buf)
      → open_packet k buf ≡ r
      → Steps show s (run_server k show now dials written out buf from s).0
  unfolding run_server
  run_server-Steps now dials written out buf from s (err e) idle bytes opens =
      rw opens (unfold dispatch in Steps.done)
  run_server-Steps now dials written out buf from s (ok d) idle bytes opens =
      let (_, _, _, small) = open_packet_sound k buf bytes opens in
      rw opens (dispatch-Steps now dials written out from s d idle small)

  pump-Steps :
      (now : ℕ) (written : Bool) (out reply : List ℕ) (p : ℕ) (s : Server Addr)
      → Steps show s (pump k show now written out reply p s).0
  unfolding pump
  pump-Steps now written out reply p s =
      elim (Bool-cases (ltb s.cfg.max_packet (header_size + length reply))) [
        | inl long ↦ rw (long, if◌then◌else◌) Steps.done
        | inr fits ↦
            rw (fits, if◌then◌else◌)
              (relay-Steps written p (seal k s.codec out ((touch now p s).flows p).id reply)
                (one (Step.touches now p))
                (unfold touch in seal-IsSeeded k s.codec out ((touch now p s).flows p).id reply))
      ]

  close_all-Steps :
      (ps : List ℕ) {s t : Server Addr} → Steps show s t → Steps show s (close_all ps t)
  unfolding close_all
  close_all-Steps [] st = st
  close_all-Steps (p ∷ ps) st = close_all-Steps ps (Steps.more st (Step.closes p))

  -- When the main loop has no flow waiting, a pass of it on a packet whose plain text is bytes, a pass
  -- of a pump and a round of the reaper are sequences of the critical sections that interleave.
  pub handlers-Steps :
      (now : ℕ) (dials written : Bool) (out buf out' reply : List ℕ) (from : Addr) (p : ℕ)
      (s : Server Addr)
      → s.pending ≡ none
      → AllBytes (k.decrypt buf)
      → Steps show s (run_server k show now dials written out buf from s).0
        × Steps show s (pump k show now written out' reply p s).0
        × Steps show s (reap now s)
  unfolding reap
  handlers-Steps now dials written out buf out' reply from p s idle bytes = (
    run_server-Steps now dials written out buf from s (open_packet k buf) idle bytes refl,
    pump-Steps now written out' reply p s,
    close_all-Steps (stale_flows (seconds s.cfg.idle) now s.flows s.table) Steps.done,
  )
