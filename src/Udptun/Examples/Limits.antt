-- ===== src/Udptun/Examples/Limits.antt =====
-- The bound on what the handlers send, with buffers of 40 bytes, and the start of a client.
use xtaci_kcptun.Prelude.{[]}
use xtaci_kcptun.Prelude.Int.{pos}
use xtaci_kcptun.Udptun.Server.{Server}
use xtaci_kcptun.Udptun.Server.Steps.{new_server}
use xtaci_kcptun.Udptun.FlowKey.{Text}
use xtaci_kcptun.Udptun.Examples.Data.{codec}

abbrev server0 : Server Text
server0 =
    new_server (record { max_packet = 40; idle = pos 60 }) codec
      (record { client = []; id = 0; key = []; last_active = 0 })
