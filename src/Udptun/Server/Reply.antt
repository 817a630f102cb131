-- ===== src/Udptun/Server/Reply.antt =====
-- The way of a target's reply through the server.
use xtaci_kcptun.Prelude.{
  ℕ, ◌+◌, ◌^◌, ◌≤◌, ◌<◌, ◌≡◌, List, [], ◌∷◌, length, true, arith, ltb-eq-false, ok, update,
}
use xtaci_kcptun.Udptun.Codec.{header_size, Crypto, Codec, IsSeeded, seal, open_packet}
use xtaci_kcptun.Udptun.Codec.RoundTrip.{open_packet-seal}
use xtaci_kcptun.Udptun.FlowKey.{Text, text_eq}
use xtaci_kcptun.Udptun.Server.{Server, to_client, touch, relay, pump}
use xtaci_kcptun.Udptun.Server.Serve.{FlowOf}

module _ {Addr : Type 0} (k : Crypto) (show : Addr → Text) where
  pump_sealed :
      (now : ℕ) (out reply : List ℕ) (id p : ℕ) (s : Server Addr) (codec : Codec) (pkt : List ℕ)
      → header_size + length reply ≤ s.cfg.max_packet
      → ((touch now p s).flows p).id ≡ id
      → seal k s.codec out id reply ≡ (codec, ok pkt)
      → pump k show now true out reply p s ≡ (
        record (touch now p s) { codec = codec },
        to_client ((touch now p s).flows p).client pkt ∷ [],
      )
  unfolding pump touch relay
  pump_sealed now out reply id p s codec pkt fits same sealed =
      rw (ltb-eq-false _ _ fits, same, sealed)

  -- A flow that stands for a client and an id, in the table or not.
  pub record Stands (client : Addr) (id p : ℕ) (s : Server Addr) : Type 0 where
    pub client_same : show (s.flows p).client ≡ show client
    pub id_same : (s.flows p).id ≡ id

  touched-Stands :
      (now p : ℕ) (client : Addr) (id : ℕ) (s : Server Addr)
      → Stands client id p s
      → Stands client id p (touch now p s)
  unfolding touch update
  touched-Stands now p client id s f = record {
    client_same = ground (arith, f.client_same);
    id_same = ground (arith, f.id_same);
  }

  pub pump-Stands :
      (now : ℕ) (out reply : List ℕ) (client : Addr) (id p : ℕ) (s : Server Addr)
      → Stands client id p s
      → id < 2 ^ 32
      → IsSeeded s.codec
      → length out ≡ s.cfg.max_packet
      → header_size + length reply ≤ s.cfg.max_packet
      → (a : Addr) × (pkt : List ℕ) × (t : Server Addr) × (pump k show now true out reply p s
          ≡ (t, to_client a pkt ∷ []))
        × (show a ≡ show client)
        × (open_packet k pkt ≡ ok (record { flow_id = id; payload = reply }))
        × (length pkt ≡ header_size + length reply)
  pump-Stands now out reply client id p s f small seeded size fits =
      let g = touched-Stands now p client id s f in
      let s' = touch now p s in
      let (codec, pkt, sealed, opens, length_pkt, _) =
        open_packet-seal k s.codec out id reply seeded (omega arith) small in
      (
        (s'.flows p).client,
        pkt,
        record s' { codec = codec },
        pump_sealed now out reply id p s codec pkt fits g.id_same sealed,
        g.client_same,
        opens,
        length_pkt,
      )

  -- A reply that fits goes back as one packet: to an address with the text of the flow's client, and
  -- it opens as the reply under the flow's id.
  pub pump_replies :
      (now : ℕ) (out reply : List ℕ) (client : Addr) (id p : ℕ) (s : Server Addr)
      → FlowOf k show client id p s
      → id < 2 ^ 32
      → IsSeeded s.codec
      → length out ≡ s.cfg.max_packet
      → header_size + length reply ≤ s.cfg.max_packet
      → (a : Addr) × (pkt : List ℕ) × (t : Server Addr) × (pump k show now true out reply p s
          ≡ (t, to_client a pkt ∷ []))
        × (show a ≡ show client)
        × (open_packet k pkt ≡ ok (record { flow_id = id; payload = reply }))
        × (length pkt ≡ header_size + length reply)
  pump_replies now out reply client id p s f small seeded size fits =
      pump-Stands now out reply client id p s
        (record { client_same = f.client_same; id_same = f.id_same }) small seeded size fits
