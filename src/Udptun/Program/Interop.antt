-- ===== src/Udptun/Program/Interop.antt =====
-- udpclient/main.go and udpserver/main.go: the settings on which the two programs have to agree.
use xtaci_kcptun.Prelude.{◌∙◌}
use xtaci_kcptun.Prelude.{sym}
use xtaci_kcptun.Prelude.{
  ◌≡◌, String, Option, some, Bool, lookup, string_eq, arith, Result, ok, err,
}
use xtaci_kcptun.Prelude.Int.{ℤ, pos}
use xtaci_kcptun.Settings.{Given, or_default, Json, string_or, int_or, load}
use xtaci_kcptun.Udptun.Cipher.{Suite, CipherError, new_block_crypt}
use xtaci_kcptun.Udptun.Program.{runs, env_key}
use xtaci_kcptun.Udptun.Program.Server.{
  ServerSettings, ServerRun, server_parse, server_overlay, server_main, server_decode, server_start,
  server_run,
}
use xtaci_kcptun.Udptun.Program.Client.{
  ClientSettings, ClientRun, client_parse, client_overlay, client_main, client_decode, client_start,
  client_run,
}

-- The key, the cipher's name and the packet limit, from the command line, the environment and a file.
abbrev pub key_of : Given → String → Json → String
key_of g env json =
    string_or (lookup "key" json) (env_key env (or_default (g.string "key") "it's a secrect"))

abbrev pub crypt_of : Given → Json → String
crypt_of g json = string_or (lookup "crypt" json) (or_default (g.string "crypt") "aes")

abbrev pub mtu_of : Given → Json → ℤ
mtu_of g json = int_or (lookup "mtu" json) (or_default (g.int "mtu") (pos 1350))

-- Both sides say the same, or nothing, about these.
pub record SaysSame (g h : Given) (json other : Json) : Type 0 where
  pub key : g.string "key" ≡ h.string "key"
  pub crypt : g.string "crypt" ≡ h.string "crypt"
  pub mtu : g.int "mtu" ≡ h.int "mtu"
  pub key_json : lookup "key" json ≡ lookup "key" other
  pub crypt_json : lookup "crypt" json ≡ lookup "crypt" other
  pub mtu_json : lookup "mtu" json ≡ lookup "mtu" other

module _ (s : Suite) where
  open s use {Block, KeyError}

  client_run_lem :
      (c : ClientSettings) (r : Result (CipherError KeyError) Block) (a : ClientRun Block)
      → client_run c r ≡ runs a
      → (r ≡ ok a.block) × (a.max_packet ≡ c.mtu)
  client_run_lem c (err e) a h = ground arith
  client_run_lem c (ok block) a h = ground arith

  client_start_lem :
      (opens : String → Bool) (c : ClientSettings) (a : ClientRun Block)
      → client_start s opens c ≡ runs a
      → (new_block_crypt s c.crypt c.key ≡ ok a.block) × (a.max_packet ≡ c.mtu)
  unfolding client_start
  client_start_lem opens c a h =
      ground (arith, client_run_lem c (new_block_crypt s c.crypt c.key) a)

  client_main_lem :
      (opens : String → Bool) (g : Given) (env : String) (files : String → Option Json)
      (json : Json) (a : ClientRun Block)
      → load (or_default (g.string "c") "") files ≡ some json
      → client_main s opens g env files ≡ runs a
      → (new_block_crypt s (crypt_of g json) (key_of g env json) ≡ ok a.block)
        × (a.max_packet ≡ mtu_of g json)
  unfolding client_main client_decode
  client_main_lem opens g env files json a loaded h =
      let c = client_parse g in
      ground (
        arith,
        loaded,
        h,
        client_start_lem opens (client_overlay json (record c { key = env_key env c.key })) a,
      )

  server_run_lem :
      (listens : String → Bool) (c : ServerSettings) (r : Result (CipherError KeyError) Block)
      (a : ServerRun Block)
      → server_run listens c r ≡ runs a
      → (r ≡ ok a.block) × (a.max_packet ≡ c.mtu)
  server_run_lem listens c (err e) a h = ground arith
  server_run_lem listens c (ok block) a h = ground arith

  server_start_lem :
      (opens listens : String → Bool) (c : ServerSettings) (a : ServerRun Block)
      → server_start s opens listens c ≡ runs a
      → (new_block_crypt s c.crypt c.key ≡ ok a.block) × (a.max_packet ≡ c.mtu)
  unfolding server_start
  server_start_lem opens listens c a h =
      ground (arith, server_run_lem listens c (new_block_crypt s c.crypt c.key) a)

  server_main_lem :
      (opens listens : String → Bool) (g : Given) (env : String) (files : String → Option Json)
      (json : Json) (a : ServerRun Block)
      → load (or_default (g.string "c") "") files ≡ some json
      → server_main s opens listens g env files ≡ runs a
      → (new_block_crypt s (crypt_of g json) (key_of g env json) ≡ ok a.block)
        × (a.max_packet ≡ mtu_of g json)
  unfolding server_main server_decode
  server_main_lem opens listens g env files json a loaded h =
      let c = server_parse g in
      ground (
        arith,
        loaded,
        h,
        server_start_lem opens listens (server_overlay json (record c { key = env_key env c.key }))
            a,
      )

  key_of-same :
      (g h : Given) (env : String) (json other : Json)
      → SaysSame g h json other
      → key_of g env json ≡ key_of h env other
  key_of-same g h env json other same i =
      string_or (same.key_json i) (env_key env (or_default (same.key i) "it's a secrect"))

  -- When udptun_client and udptun_server both run, in the same environment, and their command lines and
  -- files say the same or both nothing about the key, the cipher and the packet limit, then they use
  -- the same cipher, which is the one that NewBlockCrypt makes of the client's settings, and the same
  -- limit.
  pub client_main-server_main :
      (opens opens' listens : String → Bool) (g h : Given) (env : String)
      (files files' : String → Option Json) (json other : Json) (a : ClientRun Block)
      (b : ServerRun Block)
      → load (or_default (g.string "c") "") files ≡ some json
      → load (or_default (h.string "c") "") files' ≡ some other
      → SaysSame g h json other
      → client_main s opens g env files ≡ runs a
      → server_main s opens' listens h env files' ≡ runs b
      → (new_block_crypt s (crypt_of g json) (key_of g env json) ≡ ok a.block)
        × (a.block ≡ b.block)
        × (a.max_packet ≡ b.max_packet)
  client_main-server_main opens opens' listens g h env files files' json other a b loaded loaded'
        same runs_a runs_b =
      let (made, limit) = client_main_lem opens g env files json a loaded runs_a in
      let (made', limit') = server_main_lem opens' listens h env files' other b loaded' runs_b in
      let crypt : crypt_of g json ≡ crypt_of h other =
        λ i. string_or (same.crypt_json i) (or_default (same.crypt i) "aes") in
      let mtu : mtu_of g json ≡ mtu_of h other =
        λ i. int_or (same.mtu_json i) (or_default (same.mtu i) (pos 1350)) in
      let key = key_of-same g h env json other same in
      let blocks : ok a.block ≡ ok b.block =
        sym made ∙ ((λ i. new_block_crypt s (crypt i) (key i)) ∙ made') in
      (made, ground (arith, blocks), limit ∙ (mtu ∙ sym limit'))
