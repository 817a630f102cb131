-- ===== src/Kcptun/Config/Interop.antt =====
-- client/main.go and server/main.go: the settings on which a client and a server have to agree.
use xtaci_kcptun.Prelude.{
  ◌≡◌, refl, sym, ◌∙◌, ap, String, Option, some, Bool, false, lookup, string_eq, arith,
}
use xtaci_kcptun.Prelude.Int.{ℤ, pos}
use xtaci_kcptun.Prelude.Switch.{contains}
use xtaci_kcptun.Settings.{Json, Given, load, string_or, int_or, bool_or, or_default}
use xtaci_kcptun.Kcptun.Config.{Context, Parses, string_default, int_default, bool_default}
use xtaci_kcptun.Udptun.Cipher.{Suite}
use xtaci_kcptun.Kcptun.Crypt.{client_block, server_block}
use xtaci_kcptun.Kcptun.Crypt.Interop.{client_block-server_block}
use xtaci_kcptun.Kcptun.Config.Client.{
  ClientConfig, client_flags, client_config, client_decode, client_finish, client_mode,
  client_overlay, client_from_flags,
}
use xtaci_kcptun.Kcptun.Config.Server.{
  ServerConfig, server_flags, server_config, server_decode, server_finish, server_mode,
  server_overlay, server_from_flags,
}

-- What decides how bytes on the wire are read.
pub record Wire : Type 0 where
  pub key : String
  pub crypt : String
  pub data_shard : ℤ
  pub parity_shard : ℤ
  pub no_comp : Bool

abbrev pub client_wire : ClientConfig → Wire
client_wire c = record {
  key = c.key;
  crypt = c.crypt;
  data_shard = c.data_shard;
  parity_shard = c.parity_shard;
  no_comp = c.no_comp;
}

abbrev pub server_wire : ServerConfig → Wire
server_wire c = record {
  key = c.key;
  crypt = c.crypt;
  data_shard = c.data_shard;
  parity_shard = c.parity_shard;
  no_comp = c.no_comp;
}

-- What the flags and a file make of them.
abbrev pub wire_of : Context → Json → Wire
wire_of c json = record {
  key = string_or (lookup "key" json) (c.string "key");
  crypt = string_or (lookup "crypt" json) (c.string "crypt");
  data_shard = int_or (lookup "datashard" json) (c.int "datashard");
  parity_shard = int_or (lookup "parityshard" json) (c.int "parityshard");
  no_comp = bool_or (lookup "nocomp" json) (c.bool "nocomp");
}

client_finish-wire :
    (opens : String → Bool) (c a : ClientConfig)
    → client_finish opens c ≡ some a
    → client_wire a ≡ client_wire c
unfolding client_finish client_mode
client_finish-wire opens c a e = ground (arith, e)

client_config-wire :
    (c : Context) (files : String → Option Json) (opens : String → Bool) (json : Json)
    (a : ClientConfig)
    → load (c.string "c") files ≡ some json
    → client_config c files opens ≡ some a
    → client_wire a ≡ wire_of c json
unfolding client_config client_decode
client_config-wire c files opens json a loaded e =
    ground
      (arith, loaded, e, client_finish-wire opens (client_overlay json (client_from_flags c)) a)

server_finish-wire :
    (opens : String → Bool) (c a : ServerConfig)
    → server_finish opens c ≡ some a
    → server_wire a ≡ server_wire c
unfolding server_finish server_mode
server_finish-wire opens c a e = ground (arith, e)

server_config-wire :
    (c : Context) (files : String → Option Json) (opens : String → Bool) (json : Json)
    (a : ServerConfig)
    → load (c.string "c") files ≡ some json
    → server_config c files opens ≡ some a
    → server_wire a ≡ wire_of c json
unfolding server_config server_decode
server_config-wire c files opens json a loaded e =
    ground
      (arith, loaded, e, server_finish-wire opens (server_overlay json (server_from_flags c)) a)

-- The command lines and the files of both sides say the same, or both nothing, about each of these.
pub record SaysSame (g h : Given) (json other : Json) : Type 0 where
  pub key : g.string "key" ≡ h.string "key"
  pub crypt : g.string "crypt" ≡ h.string "crypt"
  pub data_shard : g.int "datashard" ≡ h.int "datashard"
  pub parity_shard : g.int "parityshard" ≡ h.int "parityshard"
  pub no_comp : g.bool "nocomp" ≡ h.bool "nocomp"
  pub key_json : lookup "key" json ≡ lookup "key" other
  pub crypt_json : lookup "crypt" json ≡ lookup "crypt" other
  pub data_shard_json : lookup "datashard" json ≡ lookup "datashard" other
  pub parity_shard_json : lookup "parityshard" json ≡ lookup "parityshard" other
  pub no_comp_json : lookup "nocomp" json ≡ lookup "nocomp" other

module _ (g h : Given) (c s : Context) (parses : Parses client_flags g c)
    (parses' : Parses server_flags h s) where
  string_same :
      (name v : String)
      → string_default name client_flags ≡ some v
      → string_default name server_flags ≡ some v
      → g.string name ≡ h.string name
      → c.string name ≡ s.string name
  string_same name v d e same =
      parses.strings name v d ∙ (ap (λ o. or_default o v) same ∙ sym (parses'.strings name v e))

  int_same :
      (name : String) (v : ℤ)
      → int_default name client_flags ≡ some v
      → int_default name server_flags ≡ some v
      → g.int name ≡ h.int name
      → c.int name ≡ s.int name
  int_same name v d e same =
      parses.ints name v d ∙ (ap (λ o. or_default o v) same ∙ sym (parses'.ints name v e))

  bool_same :
      (name : String) (v : Bool)
      → bool_default name client_flags ≡ some v
      → bool_default name server_flags ≡ some v
      → g.bool name ≡ h.bool name
      → c.bool name ≡ s.bool name
  bool_same name v d e same =
      parses.bools name v d ∙ (ap (λ o. or_default o v) same ∙ sym (parses'.bools name v e))

  wire_of-same : (json other : Json) → SaysSame g h json other → wire_of c json ≡ wire_of s other
  unfolding contains
  wire_of-same json other same i = record {
    key = string_or (same.key_json i) (string_same "key" "it's a secrect" refl refl same.key i);
    crypt = string_or (same.crypt_json i) (string_same "crypt" "aes" refl refl same.crypt i);
    data_shard =
        int_or (same.data_shard_json i) (int_same "datashard" (pos 10) refl refl same.data_shard i);
    parity_shard =
        int_or (same.parity_shard_json i)
          (int_same "parityshard" (pos 3) refl refl same.parity_shard i);
    no_comp = bool_or (same.no_comp_json i) (bool_same "nocomp" false refl refl same.no_comp i);
  }

  -- When both programs come to a configuration, and their command lines and files say the same or both
  -- nothing about the key, the cipher, the shards and compression, then these agree in the two
  -- configurations, and both programs take the same cipher.
  pub client_config-server_config :
      (suite : Suite) (files files' : String → Option Json) (opens opens' : String → Bool)
      (json other : Json) (a : ClientConfig) (b : ServerConfig)
      → load (c.string "c") files ≡ some json
      → load (s.string "c") files' ≡ some other
      → SaysSame g h json other
      → client_config c files opens ≡ some a
      → server_config s files' opens' ≡ some b
      → (client_wire a ≡ server_wire b)
        × (client_block suite a.key a.crypt ≡ server_block suite b.key b.crypt)
  client_config-server_config suite files files' opens opens' json other a b loaded loaded' same
        started started' =
      let wire : client_wire a ≡ server_wire b =
        client_config-wire c files opens json a loaded started
        ∙ (wire_of-same json other same
            ∙ sym (server_config-wire s files' opens' other b loaded' started')) in
      (
        wire,
        ap (λ w. client_block suite w.key w.crypt) wire
            ∙ client_block-server_block suite b.key b.crypt,
      )
