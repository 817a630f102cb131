-- ===== src/Udptun/Server/Serve.antt =====
-- A datagram's way through the server to the target.
use xtaci_kcptun.Prelude.{
  ℕ, ◌^◌, ◌<◌, ◌≡◌, refl, sym, ap, ◌∙◌, subst, List, [], ◌∷◌, length, none, some, Bool, true, arith,
  ok, err, lookup, assign, lookup-assign, update, Option-cases, inl, inr,
}
use xtaci_kcptun.Udptun.Codec.{
  header_size, keep_alive_flow, Crypto, CodecError, Datagram, IsSeeded, open_packet,
}
use xtaci_kcptun.Udptun.Codec.RoundTrip.{open_packet-seal}
use xtaci_kcptun.Udptun.FlowKey.{Text, text_eq, flow_key, flow_key_inj}
use xtaci_kcptun.Udptun.Server.{
  Server, to_target, to_client, touch, dial, publish, flow_for, forward, answer, dispatch,
  run_server,
}
use xtaci_kcptun.Udptun.Server.Sockets.{IsSound, touch-IsSound, dial-IsSound, publish-IsSound}

module _ {Addr : Type 0} (k : Crypto) (show : Addr → Text) where
  -- A flow that the table holds for a client and an id.
  pub record FlowOf (client : Addr) (id : ℕ) (p : ℕ) (s : Server Addr) : Type 0 where
    pub sound : IsSound show s
    pub made : p < s.allocated
    pub filed : lookup (flow_key (show client) id) s.table ≡ some p
    pub client_same : show (s.flows p).client ≡ show client
    pub id_same : (s.flows p).id ≡ id
    pub idle : s.pending ≡ none

  listed-FlowOf :
      (client : Addr) (id p : ℕ) (s : Server Addr)
      → IsSound show s
      → s.pending ≡ none
      → id < 2 ^ 32
      → lookup (flow_key (show client) id) s.table ≡ some p
      → FlowOf client id p s
  listed-FlowOf client id p s v idle small e =
      let (below, filed) = v.listed _ p e in
      let (made_of, small') = v.keyed p below in
      let (same_client, same_id) = flow_key_inj _ _ _ _ small' small (sym made_of ∙ filed) in
      record {
        sound = v;
        made = below;
        filed = e;
        client_same = same_client;
        id_same = same_id;
        idle = idle;
      }

  -- The state when a new flow has entered the table.
  abbrev entered : ℕ → Server Addr → Server Addr
  entered p s = record s { table = assign (s.flows p).key p s.table; pending = none }

  publish_wins :
      (p : ℕ) (s : Server Addr)
      → lookup (s.flows p).key s.table ≡ none
      → publish p s ≡ (p, entered p s)
  unfolding publish
  publish_wins p s e = rw (e, publish)

  flow_for_hit :
      (now : ℕ) (client : Addr) (id p : ℕ) (s : Server Addr)
      → lookup (flow_key (show client) id) s.table ≡ some p
      → flow_for show now true client id s ≡ some (p, s)
  unfolding flow_for
  flow_for_hit now client id p s e = rw (e, flow_for)

  flow_for_miss :
      (now : ℕ) (client : Addr) (id : ℕ) (s : Server Addr)
      → lookup (flow_key (show client) id) s.table ≡ none
      → flow_for show now true client id s
        ≡ some (publish s.allocated (dial now client id (flow_key (show client) id) s))
  unfolding flow_for
  flow_for_miss now client id s e = rw (e, flow_for)

  dial_wins :
      (now : ℕ) (client : Addr) (id : ℕ) (s : Server Addr)
      → let key = flow_key (show client) id in
        let d = dial now client id key s in
        lookup key s.table ≡ none
        → ((d.flows s.allocated).key ≡ key)
          × (lookup (d.flows s.allocated).key d.table ≡ none)
          × (d.pending ≡ some s.allocated)
  unfolding dial update
  dial_wins now client id s e = ground arith

  opened-FlowOf :
      (client : Addr) (id p : ℕ) (d : Server Addr)
      → IsSound show d
      → d.pending ≡ some p
      → id < 2 ^ 32
      → (d.flows p).key ≡ flow_key (show client) id
      → lookup (d.flows p).key d.table ≡ none
      → FlowOf client id p (entered p d)
  opened-FlowOf client id p d v e small key free =
      listed-FlowOf client id p (entered p d)
        (subst (λ (r : ℕ × Server Addr). IsSound show r.1) (publish_wins p d free)
          (publish-IsSound show p d e v))
        refl small
        (ground (
          arith,
          lookup-assign (d.flows p).key (flow_key (show client) id) p d.table,
          text_eq.beq_iff (d.flows p).key (flow_key (show client) id),
        ))

  pub flow_for-FlowOf :
      (now : ℕ) (client : Addr) (id : ℕ) (s : Server Addr)
      → IsSound show s
      → s.pending ≡ none
      → id < 2 ^ 32
      → (p : ℕ) × (t : Server Addr) × (flow_for show now true client id s ≡ some (p, t))
        × FlowOf client id p t
        × ((t.cfg ≡ s.cfg) × (t.codec ≡ s.codec))
  flow_for-FlowOf now client id s v idle small =
      elim (Option-cases (lookup (flow_key (show client) id) s.table)) [
        | inr (p, e) ↦ (
          p,
          s,
          flow_for_hit now client id p s e,
          listed-FlowOf client id p s v idle small e,
          (refl, refl),
        )
        | inl miss ↦
            let d = dial now client id (flow_key (show client) id) s in
            let (key, free, waiting) = dial_wins now client id s miss in
            (
              s.allocated,
              entered s.allocated d,
              flow_for_miss now client id s miss ∙ ap some (publish_wins s.allocated d free),
              opened-FlowOf client id s.allocated d (dial-IsSound show now client id s idle small v)
                  waiting small key free,
              unfold dial in (refl, refl),
            )
      ]

  -- The flow to which a datagram was forwarded, in the state after it.
  touched-FlowOf :
      (now p : ℕ) (client : Addr) (id : ℕ) (s : Server Addr)
      → FlowOf client id p s
      → FlowOf client id p (touch now p s)
  touched-FlowOf now p client id s f = record {
    sound = touch-IsSound show now p s f.sound;
    made = unfold touch in f.made;
    filed = unfold touch in f.filed;
    client_same = unfold touch update in ground (arith, f.client_same);
    id_same = unfold touch update in ground (arith, f.id_same);
    idle = unfold touch in f.idle;
  }

  dispatch_flow :
      (now : ℕ) (out buf : List ℕ) (from : Addr) (s : Server Addr) (d : Datagram) (p : ℕ)
      (t : Server Addr)
      → open_packet k buf ≡ ok d
      → 0 < d.flow_id
      → flow_for show now true from d.flow_id s ≡ some (p, t)
      → run_server k show now true true out buf from s ≡ (touch now p t, to_target p d.payload ∷ [])
  unfolding run_server dispatch forward
  dispatch_flow now out buf from s d p t opens pos found = rw (opens, dispatch) (ground arith)

  -- A datagram that opens under a flow id is forwarded: its payload is the one thing sent, on the
  -- socket of a flow that is filed under the sender and the id, opened if need be, and the sockets
  -- stay sound.
  pub run_server_forwards :
      (now : ℕ) (out buf : List ℕ) (from : Addr) (s : Server Addr) (d : Datagram)
      → IsSound show s
      → s.pending ≡ none
      → open_packet k buf ≡ ok d
      → 0 < d.flow_id
      → d.flow_id < 2 ^ 32
      → (p : ℕ) × (t : Server Addr) × (run_server k show now true true out buf from s
          ≡ (t, to_target p d.payload ∷ []))
        × FlowOf from d.flow_id p t
        × ((t.cfg ≡ s.cfg) × (t.codec ≡ s.codec))
  run_server_forwards now out buf from s d v idle opens pos small =
      let (p, t, found, f, same) = flow_for-FlowOf now from d.flow_id s v idle small in
      (
        p,
        touch now p t,
        dispatch_flow now out buf from s d p t opens pos found,
        touched-FlowOf now p from d.flow_id t f,
        unfold touch in same,
      )

  -- A keepalive is answered with a keepalive to its sender, one packet with no payload, and opens no
  -- flow.
  pub run_server_pong :
      (now : ℕ) (dials written : Bool) (out buf : List ℕ) (from : Addr) (s : Server Addr)
      (payload : List ℕ)
      → IsSeeded s.codec
      → length out ≡ header_size
      → open_packet k buf ≡ ok (record { flow_id = keep_alive_flow; payload = payload })
      → (pkt : List ℕ) × (t : Server Addr) × (run_server k show now dials written out buf from s
          ≡ (t, to_client from pkt ∷ []))
        × (open_packet k pkt ≡ ok (record { flow_id = keep_alive_flow; payload = [] }))
        × (t.table ≡ s.table)
        × (t.allocated ≡ s.allocated)
  unfolding run_server dispatch answer
  run_server_pong now dials written out buf from s payload seeded size opens =
      let (codec, pkt, sealed, pong, _, _) =
        open_packet-seal k s.codec out keep_alive_flow [] seeded (omega arith) (omega arith) in
      (pkt, record s { codec = codec }, rw (opens, dispatch, sealed), pong, refl, refl)

  -- What does not open leaves the server as it is, and nothing is sent.
  pub run_server_drops :
      (now : ℕ) (dials written : Bool) (out buf : List ℕ) (from : Addr) (s : Server Addr)
      (e : CodecError)
      → open_packet k buf ≡ err e
      → run_server k show now dials written out buf from s ≡ (s, [])
  unfolding run_server dispatch
  run_server_drops now dials written out buf from s e failed = rw failed
