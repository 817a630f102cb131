-- ===== src/Udptun/Examples/Packets.antt =====
-- The theorems on the codec at concrete inputs.
use xtaci_kcptun.Prelude.{
  ℕ, ◌+◌, ◌^◌, ◌<◌, ◌≡◌, refl, List, length, replicate, arith, ok, err, nat_eq, string_eq,
}
use xtaci_kcptun.Prelude.Bytes.{copy_at, le32}
use xtaci_kcptun.Udptun.Codec.{
  header_size, nonce_size, Codec, short_packet, IsSeeded, seal, open_packet,
}
use xtaci_kcptun.Udptun.Codec.Frame.{frame, seal-frame}
use xtaci_kcptun.Udptun.Codec.RoundTrip.{open_packet-seal, open_packet_sound}
use xtaci_kcptun.Udptun.Examples.Data.{hello_packet, open_hello, stub_crc, plain, codec, hello}

seal-hello : (seal plain codec (replicate 30 0) 1 hello).1 ≡ ok hello_packet
unfolding seal stub_crc copy_at le32
seal-hello = refl

open_short : open_packet plain hello ≡ err short_packet
unfolding open_packet
open_short = refl

open_packet-seal_example :
    (c' : Codec) × (pkt : List ℕ) × (seal plain codec (replicate 30 0) 1 hello ≡ (c', ok pkt))
    × (open_packet plain pkt ≡ ok (record { flow_id = 1; payload = hello }))
    × (length pkt ≡ header_size + length hello)
    × IsSeeded c'
open_packet-seal_example =
    open_packet-seal plain codec (replicate 30 0) 1 hello refl (omega arith) (omega arith)

seal-frame_example :
    seal plain codec (replicate 30 0) 1 hello ≡ (codec, ok (frame plain (replicate 16 7) 1 hello))
seal-frame_example = seal-frame plain codec (replicate 30 0) 1 hello refl (omega arith)

open_packet_sound_example :
    (nonce : List ℕ) × (length nonce ≡ nonce_size)
    × (hello_packet ≡ frame plain nonce 1 hello)
    × (◌<◌ 1 (2 ^ 32))
open_packet_sound_example = open_packet_sound plain hello_packet (omega arith) open_hello
