-- ===== src/Udptun/Server.antt =====
-- udptun/server.go: the flows of the server, each with a socket of its own toward the target. The
-- socket of a flow is dialled where the flow object is made, so both go by one number: `closes` counts
-- the calls of `Close` on each socket. Between critical sections other goroutines run; `pending` is
-- the flow that the main loop has dialled and not yet published.
pub mod Sockets
pub mod Steps
pub mod Serve
pub mod Reply
pub mod Handlers
pub mod Reap
pub mod Later
use xtaci_kcptun.Prelude.{
  ℕ, suc, ◌+◌, List, [], ◌∷◌, length, Option, none, some, Bool, true, false, ltb, ◌==◌,
  if◌then◌else◌, Dict, lookup, assign, delete, update, Result, ok, err,
}
use xtaci_kcptun.Prelude.Int.{ℤ, sub_ℕ, ltb_ℤ}
use xtaci_kcptun.Udptun.Codec.{
  header_size, keep_alive_flow, Crypto, Codec, CodecError, Datagram, seal, open_packet,
}
use xtaci_kcptun.Udptun.FlowKey.{Text, text_eq, flow_key}
use xtaci_kcptun.Udptun.Client.{seconds}

pub record ServerFlow (Addr : Type 0) : Type 0 where
  pub client : Addr
  pub id : ℕ
  pub key : Text
  pub last_active : ℕ

pub record ServerConfig : Type 0 where
  pub max_packet : ℕ
  pub idle : ℤ

pub record Server (Addr : Type 0) : Type 0 where
  pub cfg : ServerConfig
  pub codec : Codec
  pub flows : ℕ → ServerFlow Addr
  pub allocated : ℕ
  pub table : Dict Text ℕ
  pub closes : ℕ → ℕ
  pub pending : Option ℕ

pub data Output (Addr : Type 0) : Type 0 where
  to_target : ℕ → List ℕ → Output Addr
  to_client : Addr → List ℕ → Output Addr

abbrev pub is_ptr : Option ℕ → ℕ → Bool
is_ptr none p = false
is_ptr (some q) p = q == p

module _ {Addr : Type 0} where
  unfoldable pub touch : ℕ → ℕ → Server Addr → Server Addr
  touch now p s = record s { flows = update s.flows p (record (s.flows p) { last_active = now }) }

  -- `conn.Close()`
  unfoldable pub close_socket : ℕ → Server Addr → Server Addr
  close_socket p s = record s { closes = update s.closes p (suc (s.closes p)) }

  -- `DialUDP` and the flow object, not yet in the table.
  unfoldable pub dial : ℕ → Addr → ℕ → Text → Server Addr → Server Addr
  dial now client id key s = record s {
    flows =
        update s.flows s.allocated
          (record { client = client; id = id; key = key; last_active = now });
    allocated = suc s.allocated;
    pending = some s.allocated;
  }

  -- The second critical section of `flowFor`: the winner of a race stays.
  unfoldable pub publish : ℕ → Server Addr → ℕ × Server Addr
  unfolding close_socket
  publish p s = elim (lookup (s.flows p).key s.table) [
    | some existing ↦ (existing, close_socket p (record s { pending = none }))
    | none ↦ (p, record s { table = assign (s.flows p).key p s.table; pending = none })
  ]

  -- `flowFor` with no other goroutine in between; `none` is a dial that failed.
  unfoldable pub flow_for :
      (Addr → Text) → ℕ → Bool → Addr → ℕ → Server Addr → Option (ℕ × Server Addr)
  unfolding dial publish
  flow_for show now dials client id s =
      let key = flow_key (show client) id in
      elim (lookup key s.table) [
        | some p ↦ some (p, s)
        | none ↦ if dials then some (publish s.allocated (dial now client id key s)) else none
      ]

  -- `closeFlow`: only the flow that the table holds is taken out and closed.
  unfoldable pub close_flow : ℕ → Server Addr → Server Addr
  unfolding close_socket
  close_flow p s =
      let key = (s.flows p).key in
      if is_ptr (lookup key s.table) p
      then close_socket p (record s { table = delete key s.table })
      else s

  -- `reap`: the stale flows are collected first, and closed one by one.
  unfoldable pub stale_flows : ℤ → ℕ → (ℕ → ServerFlow Addr) → Dict Text ℕ → List ℕ
  stale_flows ttl now flows [] = []
  stale_flows ttl now flows ((key, p) ∷ m) =
      let rest = stale_flows ttl now flows m in
      if ltb_ℤ ttl (sub_ℕ now (flows p).last_active) then p ∷ rest else rest

  unfoldable pub close_all : List ℕ → Server Addr → Server Addr
  unfolding close_flow
  close_all [] s = s
  close_all (p ∷ ps) s = close_all ps (close_flow p s)

  unfoldable pub reap : ℕ → Server Addr → Server Addr
  unfolding stale_flows close_all
  reap now s = close_all (stale_flows (seconds s.cfg.idle) now s.flows s.table) s

  -- What `RunServer` does with the flow of a datagram.
  unfoldable pub forward : ℕ → Bool → List ℕ → ℕ → Server Addr → Server Addr × List (Output Addr)
  unfolding touch close_flow
  forward now written payload p s =
      let s' = touch now p s in (if written then s' else close_flow p s', to_target p payload ∷ [])

  unfoldable pub answer :
      Addr → Server Addr → Codec × Result CodecError (List ℕ) → Server Addr × List (Output Addr)
  answer addr s (codec, ok pkt) = (record s { codec = codec }, to_client addr pkt ∷ [])
  answer addr s (codec, err e) = (record s { codec = codec }, [])

  -- What `pump` does with a sealed reply of flow `p`.
  unfoldable pub relay :
      Bool → ℕ → Server Addr → Codec × Result CodecError (List ℕ) → Server Addr × List (Output Addr)
  unfolding close_flow
  relay written p s (codec, ok pkt) =
      let s' : Server Addr = record s { codec = codec } in
      (if written then s' else close_flow p s', to_client (s.flows p).client pkt ∷ [])
  relay written p s (codec, err e) = (record s { codec = codec }, [])

module _ {Addr : Type 0} (k : Crypto) (show : Addr → Text) where
  unfoldable pub dispatch :
      ℕ
      → Bool
      → Bool
      → List ℕ
      → Addr
      → Server Addr
      → Result CodecError Datagram
      → Server Addr × List (Output Addr)
  unfolding answer flow_for forward
  dispatch now dials written out from s (err e) = (s, [])
  dispatch now dials written out from s (ok d) =
      if d.flow_id == keep_alive_flow
      then answer from s (seal k s.codec out keep_alive_flow [])
      else elim (flow_for show now dials from d.flow_id s) [
        | none ↦ (s, [])
        | some (p, s') ↦ forward now written d.payload p s'
      ]

  -- One pass of `RunServer`'s loop, on what it read from the transport. `out` has room for a header,
  -- `dials` and `written` say whether a dial and the write toward the target succeed.
  unfoldable pub run_server :
      ℕ → Bool → Bool → List ℕ → List ℕ → Addr → Server Addr → Server Addr × List (Output Addr)
  unfolding dispatch
  run_server now dials written out buf from s =
      dispatch now dials written out from s (open_packet k buf)

  -- One pass of `pump` on a datagram that the target sent to flow `p`'s socket.
  unfoldable pub pump :
      ℕ → Bool → List ℕ → List ℕ → ℕ → Server Addr → Server Addr × List (Output Addr)
  unfolding touch relay
  pump now written out payload p s =
      if ltb s.cfg.max_packet (header_size + length payload)
      then (s, [])
      else (let s = touch now p s in relay written p s (seal k s.codec out (s.flows p).id payload))
