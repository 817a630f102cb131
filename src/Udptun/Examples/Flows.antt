-- ===== src/Udptun/Examples/Flows.antt =====
-- The theorems on the client at concrete inputs.
use xtaci_kcptun.Udptun.Table.{touch}
use xtaci_kcptun.Prelude.{[]}
use xtaci_kcptun.Prelude.{update}
use xtaci_kcptun.Prelude.{◌∷◌}
use xtaci_kcptun.Prelude.{
  ℕ, ◌^◌, ◌<◌, ◌≡◌, refl, String, List, some, true, arith, lookup, assign, delete, nat_eq,
  string_eq,
}
use xtaci_kcptun.Prelude.Int.{pos}
use xtaci_kcptun.Prelude.Bytes.{copy_at, le32}
use xtaci_kcptun.Udptun.Codec.{seal}
use xtaci_kcptun.Udptun.Table.{flow_for, next_free, tries}
use xtaci_kcptun.Udptun.Table.Search.{next_free_total}
use xtaci_kcptun.Udptun.Table.Valid.{IsValid, flow_for-IsValid}
use xtaci_kcptun.Udptun.Table.Reap.{Reaped, reap_lem}
use xtaci_kcptun.Prelude.Bytes.{copy_at, le32}
use xtaci_kcptun.Udptun.Codec.{seal}
use xtaci_kcptun.Udptun.Client.{
  datagrams, to_server, to_local, transport_loop, maintain, Client, Transport, local_loop,
}
use xtaci_kcptun.Udptun.Client
use xtaci_kcptun.Udptun.Examples.Data.{
  hello_packet, stub_crc, plain, hello, table0, table0-IsValid, uplink, client0, sender, table1,
  flow_for-sender, table1-IsValid, out,
}

flow_for-IsValid_example :
    IsValid (λ (a : String). a) table1
    × (lookup sender table1.by_addr ≡ some 0)
    × (lookup (table1.flows 0).id table1.by_id ≡ some 0)
    × ((table1.flows 0).addr ≡ sender)
    × (0 < (table1.flows 0).id)
    × ((table1.flows 0).id < 2 ^ 32)
flow_for-IsValid_example = flow_for-IsValid (λ a. a) 9 sender table0 table0-IsValid flow_for-sender

next_free_total_example : (id : ℕ) × (next_free (tries table1.by_id) 0 table1.by_id ≡ some id)
next_free_total_example = next_free_total 0 table1.by_id (omega arith) (omega arith)

reap_lem_example : Reaped (pos 60) 100 (λ (a : String). a) table1 table1-IsValid
reap_lem_example = reap_lem (pos 60) 100 (λ a. a) table1 table1-IsValid

pub relayed :
    (d : Client String) × (outs : List (Client.Output String)) × (local_loop plain
        (λ (a : String). a)
        9
        true
        out
        hello
        sender
        client0
      ≡ some (d, outs))
unfolding local_loop flow_for next_free lookup assign delete seal stub_crc copy_at le32
relayed = (_, _, refl)

pub relayed_hello : datagrams relayed.1 ≡ to_server uplink hello_packet ∷ []
unfolding relayed local_loop flow_for next_free lookup assign delete seal stub_crc copy_at le32
    touch update
relayed_hello = refl
