-- ===== src/Udptun/EndToEnd.antt =====
-- udpclient/main.go, udpserver/main.go and udptun: the two programs from their settings to a datagram
-- that is answered. `crypto` is the codec of a cipher and an AES key for its nonces.
use mathlib.Core.Path.{subst₂}
use xtaci_kcptun.Prelude.{
  ℕ, ◌+◌, ◌≤◌, ◌≡◌, refl, sym, ◌∙◌, subst, String, List, length, Option, some, true, arith, Bool,
}
use xtaci_kcptun.Prelude.Int.{ℤ, pos}
use xtaci_kcptun.Settings.{Given, or_default, Json, load}
use xtaci_kcptun.Udptun.Cipher.{Suite}
use xtaci_kcptun.Udptun.Codec.{nonce_size, header_size, Crypto}
use xtaci_kcptun.Udptun.Table.{ClientFlow}
use xtaci_kcptun.Udptun.Client.{Client, Transport}
use xtaci_kcptun.Udptun.FlowKey.{Text}
use xtaci_kcptun.Udptun.Server.{Server, ServerFlow}
use xtaci_kcptun.Udptun.Server.Steps.{new_server, new_server-IsSound}
use xtaci_kcptun.Udptun.Exchange.{SameCipher, Exchange, exchange}
use xtaci_kcptun.Udptun.Start.{Started, relays, run_client, start_server, new_client}
use xtaci_kcptun.Udptun.Table.Valid.{empty-IsValid}
use xtaci_kcptun.Udptun.Program.{runs}
use xtaci_kcptun.Udptun.Program.Client.{ClientRun, client_main}
use xtaci_kcptun.Udptun.Program.Server.{ServerRun, server_main}
use xtaci_kcptun.Udptun.Program.Interop.{SaysSame, client_main-server_main}

-- The client once `supervise` has dialled.
abbrev pub connected : {Addr : Type 0} → Transport Addr → ℕ → Client Addr → Client Addr
connected tr now c = record c { transport = some tr; last_recv = now }

-- What a client with the cipher `k` and a server with `k'` come to: both are there, and a datagram
-- goes to the target and its reply back.
pub record Working {Addr Peer : Type 0} (k k' : Crypto) (show : Addr → String) (text : Peer → Text)
    (now : ℕ) (out out' pong payload reply : List ℕ) (addr : Addr) (peer : Peer)
    (tr : Transport Addr) (x : Started (Client Addr)) (y : Started (Server Peer)) : Type 0 where
  pub client : Client Addr
  pub server : Server Peer
  pub client_up : x ≡ relays client
  pub server_up : y ≡ relays server
  pub exchanged :
      Exchange k k' show text now out out' pong payload reply addr peer tr
        (connected tr now client)
        server

module _ {Addr Peer : Type 0} (k k' : Crypto) (show : Addr → String) (text : Peer → Text) where
  started_exchange :
      (key key' seed seed' : List ℕ) (n now : ℕ) (idle keep_alive idle' : ℤ)
      (blank : ClientFlow Addr) (blank' : ServerFlow Peer) (out out' pong payload reply : List ℕ)
      (addr : Addr) (peer : Peer) (tr : Transport Addr)
      → SameCipher k k'
      → length seed ≡ nonce_size
      → length seed' ≡ nonce_size
      → length out ≡ n
      → length out' ≡ n
      → header_size + length payload ≤ n
      → header_size + length reply ≤ n
      → Working k k' show text now out out' pong payload reply addr peer tr
          (run_client true (some key) (some seed) (pos n) idle keep_alive blank)
          (start_server true (some key') (some seed') (pos n) idle' blank')
  unfolding run_client start_server
  started_exchange key key' seed seed' n now idle keep_alive idle' blank blank' out out' pong
        payload reply addr peer tr same seeded seeded' size size' fits fits' =
      let c =
        new_client (record { max_packet = n; idle = idle; keep_alive = keep_alive })
          (record { seed = seed }) blank in
      let s =
        new_server (record { max_packet = n; idle = idle' }) (record { seed = seed' }) blank' in
      record {
        client = c;
        server = s;
        client_up = refl;
        server_up = refl;
        exchanged =
            exchange k k' show text now out out' pong payload reply addr peer tr
              (connected tr now c) s same
              (record { table_valid = empty-IsValid show blank; seeded = seeded }) (omega arith)
              size fits refl
              (new_server-IsSound text (record { max_packet = n; idle = idle' })
                (record { seed = seed' }) blank')
              refl seeded' size' fits';
      }

module _ {Addr Peer : Type 0} (suite : Suite) (crypto : Suite.Block suite → List ℕ → Crypto)
    (show : Addr → String) (text : Peer → Text)
    (same_cipher : (b : Suite.Block suite) (key key' : List ℕ)
      → SameCipher (crypto b key) (crypto b key')) where
  open suite use {Block}

  blocks-SameCipher :
      (a b : Block) (key key' : List ℕ) → a ≡ b → SameCipher (crypto a key) (crypto b key')
  blocks-SameCipher a b key key' e =
      subst (λ x. SameCipher (crypto a key) (crypto x key')) e (same_cipher a key key')

  -- When udptun_client and udptun_server both run, and say the same or both nothing about the key, the
  -- cipher and the packet limit `n`, and the random bytes are read, both relays are there, and over a
  -- transport between them the first datagram of the local side reaches the target, and a reply of
  -- the target comes back to it, both unchanged, as long as they fit the limit.
  pub programs_exchange :
      (opens opens' listens : String → Bool) (g h : Given) (env : String)
      (files files' : String → Option Json) (json other : Json) (a : ClientRun Block)
      (b : ServerRun Block) (key key' seed seed' : List ℕ) (n now : ℕ) (blank : ClientFlow Addr)
      (blank' : ServerFlow Peer) (out out' pong payload reply : List ℕ) (addr : Addr) (peer : Peer)
      (tr : Transport Addr)
      → load (or_default (g.string "c") "") files ≡ some json
      → load (or_default (h.string "c") "") files' ≡ some other
      → SaysSame g h json other
      → client_main suite opens g env files ≡ runs a
      → server_main suite opens' listens h env files' ≡ runs b
      → a.max_packet ≡ pos n
      → length seed ≡ nonce_size
      → length seed' ≡ nonce_size
      → length out ≡ n
      → length out' ≡ n
      → header_size + length payload ≤ n
      → header_size + length reply ≤ n
      → Working
          (crypto a.block key)
          (crypto b.block key')
          show
          text
          now
          out
          out'
          pong
          payload
          reply
          addr
          peer
          tr
          (run_client true (some key) (some seed) a.max_packet a.idle a.keep_alive blank)
          (start_server true (some key') (some seed') b.max_packet b.idle blank')
  programs_exchange opens opens' listens g h env files files' json other a b key key' seed seed' n
        now blank blank' out out' pong payload reply addr peer tr loaded loaded' same runs_a runs_b
        limit seeded seeded' size size' fits fits' =
      let (_, blocks, limits) =
        client_main-server_main suite opens opens' listens g h env files files' json other a b
          loaded loaded' same runs_a runs_b in
      subst₂
        (λ x y.
          Working (crypto a.block key) (crypto b.block key') show text now out out' pong payload
            reply addr peer tr (run_client true (some key) (some seed) x a.idle a.keep_alive blank)
            (start_server true (some key') (some seed') y b.idle blank'))
        (sym limit) (sym limit ∙ limits)
        (started_exchange (crypto a.block key) (crypto b.block key') show text key key' seed seed' n
          now a.idle a.keep_alive b.idle blank blank' out out' pong payload reply addr peer tr
          (blocks-SameCipher a.block b.block key key' blocks) seeded seeded' size size' fits fits')
