-- ===== src/Kcptun/Connect/Waiting.antt =====
-- client/main.go and client/dial.go: what waiting for a connection comes to.
use xtaci_kcptun.Kcptun.Connect.{not}
use xtaci_kcptun.Prelude.{◌⊎◌}
use xtaci_kcptun.Prelude.{
  ℕ, ◌≡◌, refl, List, [], ◌∷◌, ◌++◌, length, Option, none, some, true, false, arith, if◌then◌else◌,
}
use xtaci_kcptun.Kcptun.Config.Client.{ClientConfig}
use xtaci_kcptun.Kcptun.Connect.{
  KcpCall, client_call, Answers, dial, dial_raw, create_conn, wait_conn, client_settings,
}

-- The connection that an attempt opens, if any.
abbrev pub opened : ClientConfig → Answers → Option ℕ
opened c a = if c.tcp then a.raw else a.kcp

-- All the answers that an attempt needs are there.
pub record Succeeds (c : ClientConfig) (a : Answers) : Type 0 where
  pub conn : ℕ
  pub socket : opened c a ≡ some conn
  pub kcp : c.tcp ≡ true → a.kcp_on_raw ≡ true
  pub session : ℕ
  pub smux : a.smux ≡ some session

abbrev pub as_list : Option ℕ → List ℕ
as_list none = []
as_list (some conn) = conn ∷ []

-- An attempt that comes to nothing: something that it needs is missing.
abbrev pub Fails : ClientConfig → Answers → Type 0
Fails c a = (opened c a ≡ none) ⊎ ((c.tcp ≡ true) × (a.kcp_on_raw ≡ false)) ⊎ (a.smux ≡ none)

dial_raw-false :
    (call : KcpCall) (o : Option ℕ)
    → dial_raw call false o ≡ record { result = none; left_open = as_list o }
dial_raw-false call none = refl
dial_raw-false call (some conn) = refl

create_conn-Succeeds :
    (c : ClientConfig) (a : Answers) (s : Succeeds c a)
    → create_conn c a ≡ record {
      result = some (record {
        session = s.session;
        conn = s.conn;
        call = client_call c;
        compressed = not c.no_comp;
        settings = client_settings c;
      });
      left_open = [];
    }
unfolding create_conn dial
create_conn-Succeeds c a s = ground (arith, s.socket, s.kcp, s.smux)

create_conn-Fails :
    (c : ClientConfig) (a : Answers)
    → Fails c a
    → create_conn c a ≡ record { result = none; left_open = as_list (opened c a) }
unfolding create_conn dial
create_conn-Fails c a f = ground (arith, f)

-- Attempts that all come to nothing.
abbrev pub AllFail : ClientConfig → List Answers → Type 0
AllFail c [] = Unit {0}
AllFail c (a ∷ answers) = Fails c a × AllFail c answers

abbrev pub all_opened : ClientConfig → List Answers → List ℕ
all_opened c [] = []
all_opened c (a ∷ answers) = as_list (opened c a) ++ all_opened c answers

-- Waiting goes on through attempts that come to nothing, a second each, and returns the session of the
-- first that succeeds, on the connection that this one opened and set up. Every connection that a
-- failed attempt opened is left open.
pub wait_conn_lem :
    (c : ClientConfig) (failing : List Answers) (a : Answers) (more : List Answers)
    → AllFail c failing
    → (s : Succeeds c a)
    → wait_conn c (failing ++ a ∷ more) ≡ record {
      up = some (record {
        session = s.session;
        conn = s.conn;
        call = client_call c;
        compressed = not c.no_comp;
        settings = client_settings c;
      });
      sleeps = length failing;
      left_open = all_opened c failing;
    }
unfolding wait_conn
wait_conn_lem c [] a more h s = rw (create_conn-Succeeds c a s)
wait_conn_lem c (f ∷ failing) a more (h, hs) s =
    rw (create_conn-Fails c f h, wait_conn_lem c failing a more hs s)
