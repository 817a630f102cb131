-- ===== src/Udptun/Bounds/Packets.antt =====
-- udptun/packet.go, and what the handlers send of a packet that was sealed or opened: how long it is.
use xtaci_kcptun.Prelude.{Option-cases}
use xtaci_kcptun.Udptun.Client.{warn}
use xtaci_kcptun.Prelude.{
  ℕ, ◌+◌, ◌≤◌, ◌≡◌, List, [], ◌∷◌, length, take, drop, length-take, length-drop, Bool, ltb,
  Bool-cases, false, ◌∙◌, inl, inr, Result, ok, err, arith, ◌==◌,
}
use xtaci_kcptun.Prelude.Bytes.{copy_at, length-copy_at, read_le32}
use xtaci_kcptun.Udptun.Codec.{header_size, Crypto, Codec, CodecError, Datagram, seal, open_packet}
use xtaci_kcptun.Udptun.Client
use xtaci_kcptun.Udptun.Server
use xtaci_kcptun.Udptun.Table.{lookup_flow}
use xtaci_kcptun.Udptun.Client.{
  when, seconds, warn, Client, local_loop, maintain, transport_loop, send, send_sealed, deliver,
  receive, ping,
}
use xtaci_kcptun.Udptun.Server.{Server, run_server, pump, answer, forward, relay, dispatch}

-- The length of a packet that was sealed, if any.
abbrev pub SealedFits : (ℕ → Type 0) → Codec × Result CodecError (List ℕ) → Type 0
SealedFits P (c, ok pkt) = P (length pkt)
SealedFits P (c, err e) = Unit {0}

-- The length of what a datagram that was opened carries.
abbrev pub OpenedFits : (ℕ → Type 0) → Result CodecError Datagram → Type 0
OpenedFits Q (ok d) = Q (length d.payload)
OpenedFits Q (err e) = Unit {0}

-- No length: nothing is sent.
abbrev pub Never : ℕ → Type 0
Never n = ⊥

module _ {Addr : Type 0} where
  -- The lengths of what the client sends to the server, and of what it sends to its local side.
  abbrev pub ClientFits : (ℕ → Type 0) → (ℕ → Type 0) → List (Client.Output Addr) → Type 0
  ClientFits P Q [] = Unit {0}
  ClientFits P Q (Client.to_server tr pkt ∷ outs) = P (length pkt) × ClientFits P Q outs
  ClientFits P Q (Client.to_local payload addr ∷ outs) = Q (length payload) × ClientFits P Q outs
  ClientFits P Q (Client.log_oversize ∷ outs) = ClientFits P Q outs
  ClientFits P Q (Client.log_send_error ∷ outs) = ClientFits P Q outs
  ClientFits P Q (Client.log_reply_error ∷ outs) = ClientFits P Q outs

  -- The lengths of what the server sends to a client, and of what it sends to the target.
  abbrev pub ServerFits : (ℕ → Type 0) → (ℕ → Type 0) → List (Server.Output Addr) → Type 0
  ServerFits P Q [] = Unit {0}
  ServerFits P Q (Server.to_target p payload ∷ outs) = Q (length payload) × ServerFits P Q outs
  ServerFits P Q (Server.to_client addr pkt ∷ outs) = P (length pkt) × ServerFits P Q outs

length-body :
    (xs : List ℕ)
    → header_size ≤ length xs
    → length (drop 4 (drop 4 (drop 16 xs))) + header_size ≡ length xs
length-body xs h =
    omega
      (arith, h, length-drop 4 (drop 4 (drop 16 xs)), length-drop 4 (drop 16 xs), length-drop 16 xs)

pub map_sealed :
    (P P' : ℕ → Type 0) (r : Codec × Result CodecError (List ℕ))
    → ((n : ℕ) → P n → P' n)
    → SealedFits P r
    → SealedFits P' r
map_sealed P P' (c, ok pkt) f h = f (length pkt) h
map_sealed P P' (c, err e) f h = tt

module _ (k : Crypto) where
  length-writes :
      (a b c d buf : List ℕ) (i j l m : ℕ)
      → length (k.encrypt (copy_at i a (copy_at j b (copy_at l c (copy_at m d buf))))) ≡ length buf
  length-writes a b c d buf i j l m = simp (k.length-encrypt, length-copy_at)

  -- A packet is exactly as long as its header and its payload.
  pub seal-SealedFits :
      (c : Codec) (dst : List ℕ) (id : ℕ) (payload : List ℕ)
      → SealedFits (λ n. n ≡ header_size + length payload) (seal k c dst id payload)
  unfolding seal
  seal-SealedFits c dst id payload =
      elim (Bool-cases (ltb (length dst) (header_size + length payload))) [
        | inl small ↦ rw small tt
        | inr room ↦ rw room (
            omega (
              arith,
              room_for room,
              length-writes _ _ _ _ (take (header_size + length payload) dst) _ _ _ _,
              length-take (header_size + length payload) dst,
            ))
      ]
    where
      room_for :
          ltb (length dst) (header_size + length payload) ≡ false
          → header_size + length payload ≤ length dst
      room_for room = ground (arith, room)

  -- What is opened carries all that stands after the header.
  pub open_packet-OpenedFits :
      (buf : List ℕ) → OpenedFits (λ n. n + header_size ≡ length buf) (open_packet k buf)
  unfolding open_packet
  open_packet-OpenedFits buf = elim (Bool-cases (ltb (length buf) header_size)) [
    | inl short ↦ rw short tt
    | inr long ↦
        rw long
          (elim (Bool-cases
            (k.crc32 (drop 4 (drop 16 (k.decrypt buf))) == read_le32 (drop 16 (k.decrypt buf)))) [
              | inl good ↦
                  rw good (length-body (k.decrypt buf) (enough long) ∙ k.length-decrypt buf)
              | inr bad ↦ rw bad tt
            ])
  ]
    where
      enough : ltb (length buf) header_size ≡ false → header_size ≤ length (k.decrypt buf)
      enough long = ground (arith, long, k.length-decrypt buf)

module _ {Addr : Type 0} (P Q : ℕ → Type 0) where
  pub send-ClientFits :
      (now : ℕ) (sent : Bool) (pkt : List ℕ) (c : Client Addr)
      → P (length pkt)
      → ClientFits P Q (send now sent pkt c).1
  unfolding send warn
  send-ClientFits now sent pkt c h = ground (arith, h)

  pub send_sealed-ClientFits :
      (now : ℕ) (sent : Bool) (c : Client Addr) (r : Codec × Result CodecError (List ℕ))
      → SealedFits P r
      → ClientFits P Q (send_sealed now sent c r).1
  unfolding send_sealed
  send_sealed-ClientFits now sent c (codec, ok pkt) h =
      send-ClientFits now sent pkt (record c { codec = codec }) h
  send_sealed-ClientFits now sent c (codec, err e) h = tt

  pub ping-ClientFits :
      (c : Client Addr) (r : Codec × Result CodecError (List ℕ))
      → SealedFits P r
      → ClientFits P Q (ping c r).1
  unfolding ping
  ping-ClientFits c (codec, ok pkt) h = ground (arith, h)
  ping-ClientFits c (codec, err e) h = tt

  pub deliver-ClientFits :
      (now : ℕ) (sent : Bool) (d : Datagram) (c : Client Addr)
      → Q (length d.payload)
      → ClientFits P Q (deliver now sent d c).1
  unfolding deliver warn
  deliver-ClientFits now sent d c h = elim (Option-cases (lookup_flow d.flow_id c.table)) [
    | inl nil ↦ rw (deliver, nil) tt
    | inr (p, found) ↦ rw (deliver, found) (ground (arith, h))
  ]

  pub receive-ClientFits :
      (now : ℕ) (sent : Bool) (c : Client Addr) (r : Result CodecError Datagram)
      → OpenedFits Q r
      → ClientFits P Q (receive now sent c r).1
  unfolding receive
  receive-ClientFits now sent c (ok d) h = ground (arith, deliver-ClientFits now sent d c h)
  receive-ClientFits now sent c (err e) h = tt

  pub relay-ServerFits :
      (written : Bool) (p : ℕ) (s : Server Addr) (r : Codec × Result CodecError (List ℕ))
      → SealedFits P r
      → ServerFits P Q (relay written p s r).1
  unfolding relay
  relay-ServerFits written p s (codec, ok pkt) h = (h, tt)
  relay-ServerFits written p s (codec, err e) h = tt

  pub answer-ServerFits :
      (addr : Addr) (s : Server Addr) (r : Codec × Result CodecError (List ℕ))
      → SealedFits P r
      → ServerFits P Q (answer addr s r).1
  unfolding answer
  answer-ServerFits addr s (codec, ok pkt) h = (h, tt)
  answer-ServerFits addr s (codec, err e) h = tt

  pub forward-ServerFits :
      (now : ℕ) (written : Bool) (payload : List ℕ) (p : ℕ) (s : Server Addr)
      → Q (length payload)
      → ServerFits P Q (forward now written payload p s).1
  unfolding forward
  forward-ServerFits now written payload p s h = (h, tt)
