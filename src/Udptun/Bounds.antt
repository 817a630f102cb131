-- ===== src/Udptun/Bounds.antt =====
-- udptun/packet.go, udptun/client.go, udptun/server.go: how long the datagrams are that both programs
-- send. `out` is the buffer that a loop seals into, `buf` what it has read.
pub mod Packets
use xtaci_kcptun.Udptun.Client.{warn}
use xtaci_kcptun.Prelude.{
  ℕ, ◌+◌, ◌≤◌, ◌≡◌, List, ◌∷◌, take, drop, length-take, length-drop, Option, none, some,
}
use xtaci_kcptun.Prelude.Bytes.{copy_at, length-copy_at, read_le32}
use xtaci_kcptun.Udptun.Codec.{header_size, Codec}
use xtaci_kcptun.Udptun.Client
use xtaci_kcptun.Udptun.Server
use xtaci_kcptun.Udptun.Table.{lookup_flow}
use xtaci_kcptun.Udptun.Client.{warn, Client, send, send_sealed, deliver, receive}
use xtaci_kcptun.Udptun.Server.{Server, answer, forward, relay}
use xtaci_kcptun.Udptun.Bounds.Packets.{ClientFits}

-- What `localLoop` sends, if it returns.
abbrev pub LocalFits :
    {Addr : Type 0}
    → (ℕ → Type 0)
    → (ℕ → Type 0)
    → Option (Client Addr × List (Client.Output Addr))
    → Type 0
LocalFits P Q none = Unit {0}
LocalFits P Q (some (c, outs)) = ClientFits P Q outs

-- A packet with a payload of `n` bytes, within a limit.
abbrev pub Whole : ℕ → ℕ → ℕ → Type 0
Whole limit n m = (m ≡ header_size + n) × (m ≤ limit)

-- A packet without a payload.
abbrev pub Bare : ℕ → Type 0
Bare m = m ≡ header_size

-- The payload of a packet of `n` bytes.
abbrev pub Carried : ℕ → ℕ → Type 0
Carried n m = m + header_size ≡ n
