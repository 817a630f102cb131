-- ===== src/Udptun/Program/Server.antt =====
-- udpserver/main.go: the configuration of udptun_server and what it runs.
use xtaci_kcptun.Prelude.{
  String, List, [], ◌∷◌, Option, none, some, Bool, false, ◌&&◌, not, if◌then◌else◌, lookup,
  string_eq, Result, ok, err,
}
use xtaci_kcptun.Prelude.Int.{ℤ, pos}
use xtaci_kcptun.Settings.{
  Given, or_default, Json, Kind, is_string, is_int, is_bool, string_or, int_or, bool_or, well_typed,
  load,
}
use xtaci_kcptun.Udptun.Cipher.{Suite, new_block_crypt}
use xtaci_kcptun.Udptun.Program.{default_mark, Main, prints_version, exits, runs, env_key}

-- `config`
pub record ServerSettings : Type 0 where
  pub listen : String
  pub target : String
  pub key : String
  pub crypt : String
  pub mtu : ℤ
  pub sock_buf : ℤ
  pub dscp : ℤ
  pub idle : ℤ
  pub tcp : Bool
  pub tcp_mark : ℤ
  pub log : String
  pub quiet : Bool

-- What `flag.Parse` leaves.
abbrev pub server_parse : Given → ServerSettings
server_parse g = record {
  listen = or_default (g.string "l") ":29900";
  target = or_default (g.string "t") "127.0.0.1:12948";
  key = or_default (g.string "key") "it's a secrect";
  crypt = or_default (g.string "crypt") "aes";
  mtu = or_default (g.int "mtu") (pos 1350);
  sock_buf = or_default (g.int "sockbuf") (pos 4194304);
  dscp = or_default (g.int "dscp") (pos 0);
  idle = or_default (g.int "idle") (pos 60);
  tcp = or_default (g.bool "tcp") false;
  tcp_mark = or_default (g.int "tcpmark") (pos default_mark);
  log = or_default (g.string "log") "";
  quiet = or_default (g.bool "quiet") false;
}

abbrev pub server_fields : List (String × Kind)
server_fields =
    ("listen", is_string)
    ∷ ("target", is_string)
    ∷ ("key", is_string)
    ∷ ("crypt", is_string)
    ∷ ("mtu", is_int)
    ∷ ("sockbuf", is_int)
    ∷ ("dscp", is_int)
    ∷ ("idle", is_int)
    ∷ ("tcp", is_bool)
    ∷ ("tcpmark", is_int)
    ∷ ("log", is_string)
    ∷ ("quiet", is_bool)
    ∷ []

abbrev pub server_overlay : Json → ServerSettings → ServerSettings
server_overlay json c = record {
  listen = string_or (lookup "listen" json) c.listen;
  target = string_or (lookup "target" json) c.target;
  key = string_or (lookup "key" json) c.key;
  crypt = string_or (lookup "crypt" json) c.crypt;
  mtu = int_or (lookup "mtu" json) c.mtu;
  sock_buf = int_or (lookup "sockbuf" json) c.sock_buf;
  dscp = int_or (lookup "dscp" json) c.dscp;
  idle = int_or (lookup "idle" json) c.idle;
  tcp = bool_or (lookup "tcp" json) c.tcp;
  tcp_mark = int_or (lookup "tcpmark" json) c.tcp_mark;
  log = string_or (lookup "log" json) c.log;
  quiet = bool_or (lookup "quiet" json) c.quiet;
}

-- `udptun.ServerConfig`, but for the connection that is served.
pub record ServerRun (Block : Type 0) : Type 0 where
  pub settings : ServerSettings
  pub block : Block
  pub max_packet : ℤ
  pub sock_buf : ℤ
  pub dscp : ℤ
  pub idle : ℤ
  pub quiet : Bool

-- The cipher is made, then the socket is opened; `listens` says for which addresses net.ListenPacket
-- succeeds.
abbrev pub server_run :
    {Block E : Type 0} → (String → Bool) → ServerSettings → Result E Block → Main (ServerRun Block)
server_run listens c (err e) = exits
server_run listens c (ok block) =
    if listens c.listen
    then runs (record {
      settings = c;
      block = block;
      max_packet = c.mtu;
      sock_buf = c.sock_buf;
      dscp = c.dscp;
      idle = c.idle;
      quiet = c.quiet;
    })
    else exits

module _ (s : Suite) (opens listens : String → Bool) where
  open s use {Block}

  -- The log file is opened, then the cipher is made.
  unfoldable pub server_start : ServerSettings → Main (ServerRun Block)
  server_start c =
      if not (string_eq.beq c.log "") && not (opens c.log)
      then exits
      else server_run listens c (new_block_crypt s c.crypt c.key)

  unfoldable pub server_decode : ServerSettings → Option Json → Main (ServerRun Block)
  unfolding server_start
  server_decode c none = exits
  server_decode c (some json) =
      if well_typed server_fields json then server_start (server_overlay json c) else exits

  -- `main` as far as the UDP socket, with `env` as the value of `KCPTUN_KEY`; Sockets.serve is what
  -- follows.
  unfoldable pub server_main : Given → String → (String → Option Json) → Main (ServerRun Block)
  unfolding server_decode load
  server_main g env files =
      let c = server_parse g in
      if or_default (g.bool "v") false
      then prints_version
      else server_decode (record c { key = env_key env c.key })
          (load (or_default (g.string "c") "") files)
