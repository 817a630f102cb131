-- ===== src/Udptun/Start.antt =====
-- udptun/packet.go (NewCodec, applySockBuf, applyDSCP), udptun/client.go (RunClient) and
-- udptun/server.go (RunServer): how the relays start. Random bytes and the sockets' answers are
-- arguments.
use xtaci_kcptun.Prelude.{
  ℕ, zero, suc, ◌+◌, ◌*◌, ◌≡◌, refl, String, List, [], ◌∷◌, ◌++◌, length, Option, none, some, Bool,
  true, false, if◌then◌else◌,
}
use xtaci_kcptun.Prelude.Int.{ℤ, pos, negsuc, ltb_ℤ}
use xtaci_kcptun.Udptun.Codec.{nonce_size, Codec}
use xtaci_kcptun.Udptun.Table.{ClientFlow, empty_table}
use xtaci_kcptun.Udptun.Table.Valid.{empty-IsValid}
use xtaci_kcptun.Udptun.Client.{Client, ClientConfig, when}
use xtaci_kcptun.Udptun.Client.Relay.{IsRunning}
use xtaci_kcptun.Udptun.Server.{Server, ServerFlow}
use xtaci_kcptun.Udptun.Server.Steps.{new_server}

-- The calls on a transport.
pub data SocketCall : Type 0 where
  set_read_buffer set_write_buffer set_dscp set_tos : ℤ → SocketCall

-- What a transport can do about a DSCP: it marks packets itself, it is a socket, or neither.
pub data Marking : Type 0 where
  marks_itself is_socket unsupported : Marking

-- `dscp << 2`
abbrev pub shift_two : ℤ → ℤ
shift_two (pos n) = pos (n * 4)
shift_two (negsuc n) = negsuc (n * 4 + 3)

unfoldable pub apply_sock_buf : Bool → Bool → ℤ → List SocketCall
apply_sock_buf reads writes size =
    if ltb_ℤ (pos 0) size
    then when reads (set_read_buffer size) ++ when writes (set_write_buffer size)
    else []

abbrev pub mark : Marking → ℤ → List SocketCall
mark marks_itself dscp = set_dscp dscp ∷ []
mark is_socket dscp = set_tos (shift_two dscp) ∷ []
mark unsupported dscp = []

abbrev pub is_zero : ℤ → Bool
is_zero (pos zero) = true
is_zero (pos (suc n)) = false
is_zero (negsuc n) = false

unfoldable pub apply_dscp : Marking → ℤ → List SocketCall
apply_dscp marking dscp = if is_zero dscp then [] else mark marking dscp

-- `newNonceGen` and `NewCodec`, on what `io.ReadFull` fills the key and the seed with; AES takes a key
-- of this size. The key is in the cipher that a seal is given.
abbrev pub new_codec : Option (List ℕ) → Option (List ℕ) → Option Codec
new_codec none seed = none
new_codec (some key) none = none
new_codec (some key) (some seed) = some (record { seed = seed })

-- `make([]byte, cfg.MaxPacket)`: a negative size panics.
abbrev pub buffer_size : ℤ → Option ℕ
buffer_size (pos n) = some n
buffer_size (negsuc n) = none

-- What a relay comes to: it returns an error, a goroutine of it panics (the server's only when a flow
-- is opened), or it is there.
pub data Started (A : Type 0) : Type 0 where
  failed panicked : Started A
  relays : A → Started A

module _ {Addr : Type 0} where
  abbrev pub new_client : ClientConfig → Codec → ClientFlow Addr → Client Addr
  new_client cfg codec blank = record {
    cfg = cfg;
    codec = codec;
    transport = none;
    last_recv = 0;
    table = empty_table blank;
    oversize = 0;
    send_err = 0;
    reply_err = 0;
    last_ping = none;
  }

  abbrev pub client_on : ℤ → ℤ → ClientFlow Addr → Codec → Option ℕ → Started (Client Addr)
  client_on idle keep_alive blank codec none = panicked
  client_on idle keep_alive blank codec (some n) =
      relays
        (new_client (record { max_packet = n; idle = idle; keep_alive = keep_alive }) codec blank)

  abbrev pub client_with : ℤ → ℤ → ℤ → ClientFlow Addr → Option Codec → Started (Client Addr)
  client_with max_packet idle keep_alive blank none = failed
  client_with max_packet idle keep_alive blank (some codec) =
      client_on idle keep_alive blank codec (buffer_size max_packet)

  -- `RunClient` up to its loops, and the buffer of `localLoop`; `listens` says whether the local address
  -- is resolved and bound. No flow is in use, so any fills the store.
  unfoldable pub run_client :
      Bool → Option (List ℕ) → Option (List ℕ) → ℤ → ℤ → ℤ → ClientFlow Addr → Started (Client Addr)
  run_client listens key seed max_packet idle keep_alive blank =
      if listens then client_with max_packet idle keep_alive blank (new_codec key seed) else failed

  abbrev pub server_on : ℤ → ServerFlow Addr → Codec → Option ℕ → Started (Server Addr)
  server_on idle blank codec none = panicked
  server_on idle blank codec (some n) =
      relays (new_server (record { max_packet = n; idle = idle }) codec blank)

  abbrev pub server_with : ℤ → ℤ → ServerFlow Addr → Option Codec → Started (Server Addr)
  server_with max_packet idle blank none = failed
  server_with max_packet idle blank (some codec) =
      server_on idle blank codec (buffer_size max_packet)

  -- `RunServer` up to its loop; `resolves` says whether the target is.
  unfoldable pub start_server :
      Bool → Option (List ℕ) → Option (List ℕ) → ℤ → ℤ → ServerFlow Addr → Started (Server Addr)
  start_server resolves key seed max_packet idle blank =
      if resolves then server_with max_packet idle blank (new_codec key seed) else failed

  -- When the socket is bound and the random bytes are read, RunClient comes to a client that satisfies
  -- the invariant of its loops, with no transport yet and the packet limit that it was given; when the
  -- limit is negative it panics.
  pub run_client_starts :
      (show : Addr → String) (key seed : List ℕ) (n : ℕ) (idle keep_alive : ℤ)
      (blank : ClientFlow Addr)
      → length seed ≡ nonce_size
      → ((c : Client Addr) × (run_client true (some key) (some seed) (pos n) idle keep_alive blank
            ≡ relays c)
          × IsRunning show c
          × (c.transport ≡ none)
          × (c.cfg.max_packet ≡ n))
        × (run_client true (some key) (some seed) (negsuc n) idle keep_alive blank ≡ panicked)
  unfolding run_client
  run_client_starts show key seed n idle keep_alive blank seeded = (
    (
      new_client (record { max_packet = n; idle = idle; keep_alive = keep_alive })
          (record { seed = seed }) blank,
      refl,
      record { table_valid = empty-IsValid show blank; seeded = seeded },
      refl,
      refl,
    ),
    refl,
  )
