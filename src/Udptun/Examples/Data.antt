-- ===== src/Udptun/Examples/Data.antt =====
-- Concrete inputs: `-crypt none` with stand-ins for AES and CRC32, a client and its flow table.
use xtaci_kcptun.Prelude.{
  ℕ, ◌%◌, ◌^◌, ◌<◌, ◌≡◌, refl, String, List, [], ◌∷◌, length, replicate, none, some, arith, lookup,
  assign, delete, update, nat_eq, string_eq,
}
use xtaci_kcptun.Prelude.Int.{pos}
use xtaci_kcptun.Prelude.Bytes.{read_le32}
use xtaci_kcptun.Prelude.{ok, ◌≡◌, ◌++◌, refl}
use xtaci_kcptun.Udptun.Codec.{open_packet, Crypto, Codec}
use xtaci_kcptun.Udptun.Table.{ClientFlow, Table, empty_table, flow_for, next_free}
use xtaci_kcptun.Udptun.Table.Valid.{IsValid, empty-IsValid, flow_for-IsValid}
use xtaci_kcptun.Udptun.Client.{Client, Transport}
use xtaci_kcptun.Udptun.Client.Relay.{IsRunning}

unfoldable pub stub_crc : List ℕ → ℕ
stub_crc x = length x % 2 ^ 32

pub stub_crc-lt : (x : List ℕ) → stub_crc x < 2 ^ 32
unfolding stub_crc
stub_crc-lt x = omega arith

abbrev pub plain : Crypto
plain = record {
  encrypt = λ x. x;
  decrypt = λ x. x;
  aes = λ x. x;
  crc32 = stub_crc;
  decrypt-encrypt = λ x h. refl;
  length-encrypt = λ x. refl;
  length-decrypt = λ x. refl;
  length-aes = λ x h. h;
  crc32-lt = stub_crc-lt;
}

abbrev pub codec : Codec
codec = record { seed = replicate 16 7 }

abbrev pub hello : List ℕ
hello = 104 ∷ 105 ∷ []

abbrev pub local_flow : ClientFlow String
local_flow = record { id = 0; addr = ""; last_active = 0 }

abbrev pub table0 : Table String
table0 = empty_table local_flow

pub table0-IsValid : IsValid (λ (a : String). a) table0
table0-IsValid = empty-IsValid (λ a. a) local_flow

abbrev pub uplink : Transport String
uplink = record { conn = 0; remote = "198.51.100.1:29900" }

abbrev pub client0 : Client String
client0 = record {
  cfg = record { max_packet = 40; idle = pos 60; keep_alive = pos 10 };
  codec = codec;
  transport = some uplink;
  last_recv = 0;
  table = table0;
  oversize = 0;
  send_err = 0;
  reply_err = 0;
  last_ping = none;
}

pub client0-IsRunning : IsRunning (λ (a : String). a) client0
client0-IsRunning = record { table_valid = table0-IsValid; seeded = refl }

abbrev pub sender : String
sender = "127.0.0.1:5000"

-- The table with the sender's flow, and the client that has relayed "hi" for it.
abbrev pub table1 : Table String
table1 = record {
  flows = update table0.flows 0 (record { id = 1; addr = sender; last_active = 9 });
  allocated = 1;
  by_addr = (sender, 0) ∷ [];
  by_id = (1, 0) ∷ [];
  next_id = 1;
}

pub flow_for-sender : flow_for (λ (a : String). a) 9 sender table0 ≡ some (0, table1)
unfolding flow_for next_free lookup assign delete
flow_for-sender = refl

pub table1-IsValid : IsValid (λ (a : String). a) table1
table1-IsValid = (flow_for-IsValid (λ a. a) 9 sender table0 table0-IsValid flow_for-sender).0

abbrev pub out : List ℕ
out = replicate 40 0

-- Sealing "hi" for flow 1: nonce, checksum (the stand-in is the length), flow id, payload.
abbrev pub hello_packet : List ℕ
hello_packet = replicate 16 7 ++ (6 ∷ 0 ∷ 0 ∷ 0 ∷ 1 ∷ 0 ∷ 0 ∷ 0 ∷ 104 ∷ 105 ∷ [])

pub open_hello : open_packet plain hello_packet ≡ ok (record { flow_id = 1; payload = hello })
unfolding open_packet stub_crc read_le32
open_hello = refl
