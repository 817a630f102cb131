-- ===== src/Udptun/Server/Steps.antt =====
-- The goroutines of the server, main loop, pumps and reaper, as interleaved critical sections.
use xtaci_kcptun.Prelude.{ℕ, ◌^◌, ◌<◌, ◌≡◌, refl, [], none, some, arith, lookup, if◌then◌else◌}
use xtaci_kcptun.Udptun.Codec.{Codec, IsSeeded}
use xtaci_kcptun.Udptun.FlowKey.{Text, text_eq, flow_key}
use xtaci_kcptun.Udptun.Server.{Server, ServerFlow, ServerConfig, touch, dial, publish, close_flow}
use xtaci_kcptun.Udptun.Server.Sockets.{
  IsSound, is_live, touch-IsSound, dial-IsSound, publish-IsSound, close_flow-IsSound,
}

-- What `RunServer` starts with; no flow number is in use, so any flow fills the store.
abbrev pub new_server : {Addr : Type 0} → ServerConfig → Codec → ServerFlow Addr → Server Addr
new_server cfg codec blank = record {
  cfg = cfg;
  codec = codec;
  flows = λ _. blank;
  allocated = 0;
  table = [];
  closes = λ _. 0;
  pending = none;
}

module _ {Addr : Type 0} (show : Addr → Text) where
  pub data Step (s : Server Addr) : Server Addr → Type 0 where
    -- the main loop, after its lookup missed
    dials :
        (now : ℕ) (client : Addr) (id : ℕ)
        → s.pending ≡ none
        → id < 2 ^ 32
        → Step s (dial now client id (flow_key (show client) id) s)
    publishes : (p : ℕ) → s.pending ≡ some p → Step s (publish p s).1
    -- the main loop or a pump
    touches : (now p : ℕ) → Step s (touch now p s)
    seals :
        (codec : Codec) → (IsSeeded s.codec → IsSeeded codec) → Step s (record s { codec = codec })
    -- the main loop, a pump or the reaper, any number of them for one flow
    closes : (p : ℕ) → Step s (close_flow p s)

  -- Any number of critical sections.
  pub data Steps (s : Server Addr) : Server Addr → Type 0 where
    done : Steps s s
    more : {t u : Server Addr} → Steps s t → Step t u → Steps s u

  pub data Reach (cfg : ServerConfig) (codec : Codec) (blank : ServerFlow Addr)
      : Server Addr → Type 0 where
    start : Reach cfg codec blank (new_server cfg codec blank)
    later : {s t : Server Addr} → Reach cfg codec blank s → Step s t → Reach cfg codec blank t

  pub new_server-IsSound :
      (cfg : ServerConfig) (codec : Codec) (blank : ServerFlow Addr)
      → IsSound show (new_server cfg codec blank)
  unfolding lookup
  new_server-IsSound cfg codec blank = record {
    listed = λ key p e. cc;
    keyed = λ p h. absurd (omega arith);
    waiting = λ p e. cc;
    closed_once = λ p h. absurd (omega arith);
    unused = λ p h. refl;
  }

  pub Step-IsSound : {s t : Server Addr} → Step s t → IsSound show s → IsSound show t
  Step-IsSound {s} (dials now client id e h) v = dial-IsSound show now client id s e h v
  Step-IsSound {s} (publishes p e) v = publish-IsSound show p s e v
  Step-IsSound {s} (touches now p) v = touch-IsSound show now p s v
  Step-IsSound (seals codec _) v = record {
    listed = v.listed;
    keyed = v.keyed;
    waiting = v.waiting;
    closed_once = v.closed_once;
    unused = v.unused;
  }
  Step-IsSound {s} (closes p) v = close_flow-IsSound show p s v

  pub Reach-IsSound :
      {cfg : ServerConfig} {codec : Codec} {blank : ServerFlow Addr} {s : Server Addr}
      → Reach cfg codec blank s
      → IsSound show s
  Reach-IsSound {cfg} {codec} {blank} start = new_server-IsSound cfg codec blank
  Reach-IsSound (later r st) = Step-IsSound st (Reach-IsSound r)

  -- However the goroutines interleave, a socket is closed exactly once if its flow has left the table
  -- (and is not about to enter it), and otherwise not at all.
  pub sockets_closed_once :
      {cfg : ServerConfig} {codec : Codec} {blank : ServerFlow Addr} {s : Server Addr} (p : ℕ)
      → Reach cfg codec blank s
      → p < s.allocated
      → s.closes p ≡ (if is_live s p then 0 else 1)
  sockets_closed_once p r h = (Reach-IsSound r).closed_once p h

  -- A flow that the table returns is filed under its own client and id, and its socket is open.
  pub table_flow_open :
      {cfg : ServerConfig} {codec : Codec} {blank : ServerFlow Addr} {s : Server Addr} (key : Text)
      (p : ℕ)
      → Reach cfg codec blank s
      → lookup key s.table ≡ some p
      → (s.closes p ≡ 0) × (flow_key (show (s.flows p).client) (s.flows p).id ≡ key)
  table_flow_open key p r e =
      let v = Reach-IsSound r in
      let (below, filed) = v.listed key p e in
      (ground (arith, v.closed_once p below), ground (arith, v.keyed p below))
