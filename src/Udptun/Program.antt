-- ===== src/Udptun/Program.antt =====
-- udpclient/main.go and udpserver/main.go: what the two udptun programs run, from the command line, the
-- environment and a configuration file. The standard library parses the command line.
pub mod Client
pub mod Server
pub mod Interop
pub mod Sockets
pub mod Typed
use xtaci_kcptun.Prelude.{ℕ, String, Option, none, some, Bool, ◌&&◌, not, if◌then◌else◌, string_eq}

-- `rawtcp.DefaultMark`
abbrev pub default_mark : ℕ
default_mark = 7_037_808

-- What `main` comes to: it prints its version, leaves with an error, or runs the relay.
pub data Main (A : Type 0) : Type 0 where
  prints_version exits : Main A
  runs : A → Main A

abbrev pub default_key : String
default_key = "it's a secrect"

-- `KCPTUN_KEY` stands in for a key that is the default.
abbrev pub env_key : String → String → String
env_key env key = if not (string_eq.beq env "") && string_eq.beq key default_key then env else key
