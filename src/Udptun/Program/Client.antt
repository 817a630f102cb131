-- ===== src/Udptun/Program/Client.antt =====
-- udpclient/main.go: the configuration of udptun_client and what it runs.
use xtaci_kcptun.Prelude.{
  String, List, [], ◌∷◌, Option, none, some, Bool, false, ◌&&◌, not, if◌then◌else◌, lookup,
  string_eq, Result, ok, err,
}
use xtaci_kcptun.Prelude.Int.{ℤ, pos}
use xtaci_kcptun.Settings.{
  Given, or_default, Json, Kind, is_string, is_int, is_bool, string_or, int_or, bool_or, well_typed,
  load,
}
use xtaci_kcptun.Udptun.Cipher.{Suite, new_block_crypt}
use xtaci_kcptun.Udptun.Program.{default_mark, Main, prints_version, exits, runs, env_key}

-- `config`
pub record ClientSettings : Type 0 where
  pub local_addr : String
  pub remote_addr : String
  pub key : String
  pub crypt : String
  pub mtu : ℤ
  pub sock_buf : ℤ
  pub dscp : ℤ
  pub keep_alive : ℤ
  pub idle : ℤ
  pub tcp : Bool
  pub tcp_mark : ℤ
  pub log : String
  pub quiet : Bool

-- What `flag.Parse` leaves.
abbrev pub client_parse : Given → ClientSettings
client_parse g = record {
  local_addr = or_default (g.string "l") ":12948";
  remote_addr = or_default (g.string "r") "vps:29900";
  key = or_default (g.string "key") "it's a secrect";
  crypt = or_default (g.string "crypt") "aes";
  mtu = or_default (g.int "mtu") (pos 1350);
  sock_buf = or_default (g.int "sockbuf") (pos 4194304);
  dscp = or_default (g.int "dscp") (pos 0);
  keep_alive = or_default (g.int "keepalive") (pos 10);
  idle = or_default (g.int "idle") (pos 60);
  tcp = or_default (g.bool "tcp") false;
  tcp_mark = or_default (g.int "tcpmark") (pos default_mark);
  log = or_default (g.string "log") "";
  quiet = or_default (g.bool "quiet") false;
}

abbrev pub client_fields : List (String × Kind)
client_fields =
    ("localaddr", is_string)
    ∷ ("remoteaddr", is_string)
    ∷ ("key", is_string)
    ∷ ("crypt", is_string)
    ∷ ("mtu", is_int)
    ∷ ("sockbuf", is_int)
    ∷ ("dscp", is_int)
    ∷ ("keepalive", is_int)
    ∷ ("idle", is_int)
    ∷ ("tcp", is_bool)
    ∷ ("tcpmark", is_int)
    ∷ ("log", is_string)
    ∷ ("quiet", is_bool)
    ∷ []

abbrev pub client_overlay : Json → ClientSettings → ClientSettings
client_overlay json c = record {
  local_addr = string_or (lookup "localaddr" json) c.local_addr;
  remote_addr = string_or (lookup "remoteaddr" json) c.remote_addr;
  key = string_or (lookup "key" json) c.key;
  crypt = string_or (lookup "crypt" json) c.crypt;
  mtu = int_or (lookup "mtu" json) c.mtu;
  sock_buf = int_or (lookup "sockbuf" json) c.sock_buf;
  dscp = int_or (lookup "dscp" json) c.dscp;
  keep_alive = int_or (lookup "keepalive" json) c.keep_alive;
  idle = int_or (lookup "idle" json) c.idle;
  tcp = bool_or (lookup "tcp" json) c.tcp;
  tcp_mark = int_or (lookup "tcpmark" json) c.tcp_mark;
  log = string_or (lookup "log" json) c.log;
  quiet = bool_or (lookup "quiet" json) c.quiet;
}

-- `udptun.ClientConfig`; `Dial` and `LocalAddr` are in the settings.
pub record ClientRun (Block : Type 0) : Type 0 where
  pub settings : ClientSettings
  pub block : Block
  pub max_packet : ℤ
  pub sock_buf : ℤ
  pub dscp : ℤ
  pub idle : ℤ
  pub keep_alive : ℤ
  pub quiet : Bool

abbrev pub client_run :
    {Block E : Type 0} → ClientSettings → Result E Block → Main (ClientRun Block)
client_run c (err e) = exits
client_run c (ok block) = runs (record {
  settings = c;
  block = block;
  max_packet = c.mtu;
  sock_buf = c.sock_buf;
  dscp = c.dscp;
  idle = c.idle;
  keep_alive = c.keep_alive;
  quiet = c.quiet;
})

module _ (s : Suite) (opens : String → Bool) where
  open s use {Block}

  -- The log file is opened, then the cipher is made.
  unfoldable pub client_start : ClientSettings → Main (ClientRun Block)
  client_start c =
      if not (string_eq.beq c.log "") && not (opens c.log)
      then exits
      else client_run c (new_block_crypt s c.crypt c.key)

  unfoldable pub client_decode : ClientSettings → Option Json → Main (ClientRun Block)
  unfolding client_start
  client_decode c none = exits
  client_decode c (some json) =
      if well_typed client_fields json then client_start (client_overlay json c) else exits

  -- `main` as far as its call of RunClient, with `env` as the value of `KCPTUN_KEY`.
  unfoldable pub client_main : Given → String → (String → Option Json) → Main (ClientRun Block)
  unfolding client_decode load
  client_main g env files =
      let c = client_parse g in
      if or_default (g.bool "v") false
      then prints_version
      else client_decode (record c { key = env_key env c.key })
          (load (or_default (g.string "c") "") files)
