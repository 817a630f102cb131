-- ===== src/Kcptun/Config/Client.antt =====
-- client/config.go and client/main.go: the configuration of the client.
use xtaci_kcptun.Prelude.{
  String, List, [], ◌∷◌, Option, none, some, Bool, ◌&&◌, not, if◌then◌else◌, lookup, string_eq,
}
use xtaci_kcptun.Prelude.Int.{ℤ, pos}
use xtaci_kcptun.Prelude.Switch.{switch}
use xtaci_kcptun.Settings.{
  Json, Kind, is_string, is_int, is_bool, string_or, int_or, bool_or, well_typed, load,
}
use xtaci_kcptun.Kcptun.Config.{
  Flag, string_flag, env_flag, int_flag, bool_flag, default_mark, Context, Tuning,
}

-- client/config.go: `Config`
pub record ClientConfig : Type 0 where
  pub local_addr : String
  pub remote_addr : String
  pub key : String
  pub crypt : String
  pub mode : String
  pub conn : ℤ
  pub auto_expire : ℤ
  pub scavenge_ttl : ℤ
  pub mtu : ℤ
  pub snd_wnd : ℤ
  pub rcv_wnd : ℤ
  pub data_shard : ℤ
  pub parity_shard : ℤ
  pub dscp : ℤ
  pub no_comp : Bool
  pub ack_nodelay : Bool
  pub no_delay : ℤ
  pub interval : ℤ
  pub resend : ℤ
  pub no_congestion : ℤ
  pub sock_buf : ℤ
  pub smux_buf : ℤ
  pub keep_alive : ℤ
  pub log : String
  pub snmp_log : String
  pub snmp_period : ℤ
  pub quiet : Bool
  pub tcp : Bool
  pub tcp_mark : ℤ

-- client/main.go: the flags, and what the action reads from them.
abbrev pub client_flags : List Flag
client_flags =
    string_flag ("localaddr" ∷ "l" ∷ []) ":12948"
    ∷ string_flag ("remoteaddr" ∷ "r" ∷ []) "vps:29900"
    ∷ env_flag ("key" ∷ []) "it's a secrect" "KCPTUN_KEY"
    ∷ string_flag ("crypt" ∷ []) "aes"
    ∷ string_flag ("mode" ∷ []) "fast"
    ∷ int_flag ("conn" ∷ []) (pos 1)
    ∷ int_flag ("autoexpire" ∷ []) (pos 0)
    ∷ int_flag ("scavengettl" ∷ []) (pos 600)
    ∷ int_flag ("mtu" ∷ []) (pos 1350)
    ∷ int_flag ("sndwnd" ∷ []) (pos 128)
    ∷ int_flag ("rcvwnd" ∷ []) (pos 512)
    ∷ int_flag ("datashard" ∷ "ds" ∷ []) (pos 10)
    ∷ int_flag ("parityshard" ∷ "ps" ∷ []) (pos 3)
    ∷ int_flag ("dscp" ∷ []) (pos 0)
    ∷ bool_flag ("nocomp" ∷ [])
    ∷ bool_flag ("acknodelay" ∷ [])
    ∷ int_flag ("nodelay" ∷ []) (pos 0)
    ∷ int_flag ("interval" ∷ []) (pos 50)
    ∷ int_flag ("resend" ∷ []) (pos 0)
    ∷ int_flag ("nc" ∷ []) (pos 0)
    ∷ int_flag ("sockbuf" ∷ []) (pos 4194304)
    ∷ int_flag ("smuxbuf" ∷ []) (pos 4194304)
    ∷ int_flag ("keepalive" ∷ []) (pos 10)
    ∷ string_flag ("snmplog" ∷ []) ""
    ∷ int_flag ("snmpperiod" ∷ []) (pos 60)
    ∷ string_flag ("log" ∷ []) ""
    ∷ bool_flag ("quiet" ∷ [])
    ∷ bool_flag ("tcp" ∷ [])
    ∷ int_flag ("tcpmark" ∷ []) (pos default_mark)
    ∷ string_flag ("c" ∷ []) ""
    ∷ []

abbrev pub client_from_flags : Context → ClientConfig
client_from_flags c = record {
  local_addr = c.string "localaddr";
  remote_addr = c.string "remoteaddr";
  key = c.string "key";
  crypt = c.string "crypt";
  mode = c.string "mode";
  conn = c.int "conn";
  auto_expire = c.int "autoexpire";
  scavenge_ttl = c.int "scavengettl";
  mtu = c.int "mtu";
  snd_wnd = c.int "sndwnd";
  rcv_wnd = c.int "rcvwnd";
  data_shard = c.int "datashard";
  parity_shard = c.int "parityshard";
  dscp = c.int "dscp";
  no_comp = c.bool "nocomp";
  ack_nodelay = c.bool "acknodelay";
  no_delay = c.int "nodelay";
  interval = c.int "interval";
  resend = c.int "resend";
  no_congestion = c.int "nc";
  sock_buf = c.int "sockbuf";
  smux_buf = c.int "smuxbuf";
  keep_alive = c.int "keepalive";
  log = c.string "log";
  snmp_log = c.string "snmplog";
  snmp_period = c.int "snmpperiod";
  quiet = c.bool "quiet";
  tcp = c.bool "tcp";
  tcp_mark = c.int "tcpmark";
}

abbrev pub client_fields : List (String × Kind)
client_fields =
    ("localaddr", is_string)
    ∷ ("remoteaddr", is_string)
    ∷ ("key", is_string)
    ∷ ("crypt", is_string)
    ∷ ("mode", is_string)
    ∷ ("conn", is_int)
    ∷ ("autoexpire", is_int)
    ∷ ("scavengettl", is_int)
    ∷ ("mtu", is_int)
    ∷ ("sndwnd", is_int)
    ∷ ("rcvwnd", is_int)
    ∷ ("datashard", is_int)
    ∷ ("parityshard", is_int)
    ∷ ("dscp", is_int)
    ∷ ("nocomp", is_bool)
    ∷ ("acknodelay", is_bool)
    ∷ ("nodelay", is_int)
    ∷ ("interval", is_int)
    ∷ ("resend", is_int)
    ∷ ("nc", is_int)
    ∷ ("sockbuf", is_int)
    ∷ ("smuxbuf", is_int)
    ∷ ("keepalive", is_int)
    ∷ ("log", is_string)
    ∷ ("snmplog", is_string)
    ∷ ("snmpperiod", is_int)
    ∷ ("quiet", is_bool)
    ∷ ("tcp", is_bool)
    ∷ ("tcpmark", is_int)
    ∷ []

abbrev pub client_overlay : Json → ClientConfig → ClientConfig
client_overlay json c = record {
  local_addr = string_or (lookup "localaddr" json) c.local_addr;
  remote_addr = string_or (lookup "remoteaddr" json) c.remote_addr;
  key = string_or (lookup "key" json) c.key;
  crypt = string_or (lookup "crypt" json) c.crypt;
  mode = string_or (lookup "mode" json) c.mode;
  conn = int_or (lookup "conn" json) c.conn;
  auto_expire = int_or (lookup "autoexpire" json) c.auto_expire;
  scavenge_ttl = int_or (lookup "scavengettl" json) c.scavenge_ttl;
  mtu = int_or (lookup "mtu" json) c.mtu;
  snd_wnd = int_or (lookup "sndwnd" json) c.snd_wnd;
  rcv_wnd = int_or (lookup "rcvwnd" json) c.rcv_wnd;
  data_shard = int_or (lookup "datashard" json) c.data_shard;
  parity_shard = int_or (lookup "parityshard" json) c.parity_shard;
  dscp = int_or (lookup "dscp" json) c.dscp;
  no_comp = bool_or (lookup "nocomp" json) c.no_comp;
  ack_nodelay = bool_or (lookup "acknodelay" json) c.ack_nodelay;
  no_delay = int_or (lookup "nodelay" json) c.no_delay;
  interval = int_or (lookup "interval" json) c.interval;
  resend = int_or (lookup "resend" json) c.resend;
  no_congestion = int_or (lookup "nc" json) c.no_congestion;
  sock_buf = int_or (lookup "sockbuf" json) c.sock_buf;
  smux_buf = int_or (lookup "smuxbuf" json) c.smux_buf;
  keep_alive = int_or (lookup "keepalive" json) c.keep_alive;
  log = string_or (lookup "log" json) c.log;
  snmp_log = string_or (lookup "snmplog" json) c.snmp_log;
  snmp_period = int_or (lookup "snmpperiod" json) c.snmp_period;
  quiet = bool_or (lookup "quiet" json) c.quiet;
  tcp = bool_or (lookup "tcp" json) c.tcp;
  tcp_mark = int_or (lookup "tcpmark" json) c.tcp_mark;
}

abbrev pub client_tune : Tuning → ClientConfig → ClientConfig
client_tune t c = record c {
  no_delay = t.no_delay;
  interval = t.interval;
  resend = t.resend;
  no_congestion = t.no_congestion;
}

-- The `switch` on `config.Mode`.
abbrev pub client_modes : List (String × Tuning)
client_modes =
    (
      "normal",
      record { no_delay = pos 0; interval = pos 40; resend = pos 2; no_congestion = pos 1 },
    )
    ∷ (
      "fast",
      record { no_delay = pos 0; interval = pos 30; resend = pos 2; no_congestion = pos 1 },
    )
    ∷ (
      "fast2",
      record { no_delay = pos 1; interval = pos 20; resend = pos 2; no_congestion = pos 1 },
    )
    ∷ (
      "fast3",
      record { no_delay = pos 1; interval = pos 10; resend = pos 2; no_congestion = pos 1 },
    )
    ∷ []

abbrev pub client_tuning : ClientConfig → Tuning
client_tuning c = record {
  no_delay = c.no_delay;
  interval = c.interval;
  resend = c.resend;
  no_congestion = c.no_congestion;
}

unfoldable pub client_mode : ClientConfig → ClientConfig
client_mode c = client_tune (switch c.mode client_modes (client_tuning c)) c

-- The log file is opened, and the mode applied.
unfoldable pub client_finish : (String → Bool) → ClientConfig → Option ClientConfig
unfolding client_mode
client_finish opens c =
    if not (string_eq.beq c.log "") && not (opens c.log) then none else some (client_mode c)

unfoldable pub client_decode : (String → Bool) → Context → Option Json → Option ClientConfig
unfolding client_finish
client_decode opens c none = none
client_decode opens c (some json) =
    if well_typed client_fields json
    then client_finish opens (client_overlay json (client_from_flags c))
    else none

-- The action up to the configuration; `none` is `os.Exit`.
unfoldable pub client_config :
    Context → (String → Option Json) → (String → Bool) → Option ClientConfig
unfolding load client_decode
client_config c files opens = client_decode opens c (load (c.string "c") files)
