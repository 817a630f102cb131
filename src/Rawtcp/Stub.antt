-- ===== src/Rawtcp/Stub.antt =====
-- rawtcp/conn_stub.go: the package on other systems than Linux.
use xtaci_kcptun.Prelude.{ℕ, String, List, [], Result, err}

pub data StubError : Type 0 where
  not_supported : StubError

-- `Dial` and `Listen`; there is never a connection.
abbrev pub stub_dial : String → String → ℕ → Result StubError ℕ
stub_dial network address mark = err not_supported

abbrev pub stub_listen : String → String → ℕ → Result StubError ℕ
stub_listen network address mark = err not_supported

-- `Cleanup`: the connections that it closes.
abbrev pub stub_cleanup : List ℕ → List ℕ
stub_cleanup live = []
