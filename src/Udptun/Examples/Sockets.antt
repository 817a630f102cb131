-- ===== src/Udptun/Examples/Sockets.antt =====
-- The theorems on the server, and on both sides together, at concrete inputs. Addresses of the
-- server's transport are their texts.
use xtaci_kcptun.Prelude.{◌<◌}
use xtaci_kcptun.Udptun.Codec.{Crypto}
use xtaci_kcptun.Prelude.{◌≡◌, refl, [], ◌∷◌, replicate, arith, if◌then◌else◌, lookup}
use xtaci_kcptun.Prelude.Int.{pos}
use xtaci_kcptun.Udptun.FlowKey.{Text, flow_key, format_uint}
use xtaci_kcptun.Udptun.Server.{Server, ServerFlow, ServerConfig, dial, publish}
use xtaci_kcptun.Udptun.Server.Sockets.{IsSound, is_live}
use xtaci_kcptun.Udptun.Server.Steps.{
  Reach, Step, new_server, new_server-IsSound, sockets_closed_once,
}
use xtaci_kcptun.Udptun.Examples.Data.{plain, codec}
use xtaci_kcptun.Udptun.FlowKey.{text_eq}

abbrev pub peer : Text
peer = 49 ∷ 58 ∷ 57 ∷ []

abbrev pub blank : ServerFlow Text
blank = record { client = []; id = 0; key = []; last_active = 0 }

abbrev pub server_config : ServerConfig
server_config = record { max_packet = 40; idle = pos 60 }

abbrev pub server0 : Server Text
server0 = new_server server_config codec blank

pub server0-IsSound : IsSound (λ (a : Text). a) server0
server0-IsSound = new_server-IsSound (λ a. a) server_config codec blank

-- "1:9|12"
key_text : flow_key peer 12 ≡ 49 ∷ 58 ∷ 57 ∷ 124 ∷ 49 ∷ 50 ∷ []
unfolding flow_key format_uint
key_text = refl

abbrev dialled : Server Text
dialled = dial 5 peer 1 (flow_key peer 1) server0

abbrev pub published : Server Text
published = (publish 0 dialled).1

dialled-Reach : Reach (λ (a : Text). a) server_config codec blank dialled
dialled-Reach = Reach.later Reach.start (Step.dials 5 peer 1 refl (omega arith))

pub published-Reach : Reach (λ (a : Text). a) server_config codec blank published
published-Reach = Reach.later dialled-Reach (Step.publishes 0 (unfold dial in refl))

published_made : 0 < published.allocated
unfolding publish dial lookup
published_made = omega arith

sockets_closed_once_example : published.closes 0 ≡ (if is_live published 0 then 0 else 1)
sockets_closed_once_example =
    sockets_closed_once (λ (a : Text). a) {cfg = server_config} {codec = codec} {blank = blank} 0
      published-Reach published_made

-- The server makes its nonces in another way.
abbrev pub far : Crypto
far = record plain { aes = λ x. replicate 16 0; length-aes = λ x h. refl }
