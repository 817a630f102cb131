-- ===== src/Udptun/Examples/Programs.antt =====
-- The two udptun programs with nothing on their command lines, and a dial.
use xtaci_kcptun.Prelude.{
  ℕ, ◌≡◌, refl, String, List, [], Option, none, some, true, lookup, ok, err, replicate,
}
use xtaci_kcptun.Prelude.Switch.{switch}
use xtaci_kcptun.Settings.{Given, Json, load, well_typed}
use xtaci_kcptun.Udptun.Cipher.{Suite, new_block_crypt}
use xtaci_kcptun.Udptun.Program.{runs}
use xtaci_kcptun.Udptun.Program.Client.{
  ClientRun, client_main, client_decode, client_start, client_parse,
}
use xtaci_kcptun.Udptun.Program.Server.{
  ServerRun, server_main, server_decode, server_start, server_parse,
}
use xtaci_kcptun.Udptun.Program.Interop.{SaysSame, crypt_of, key_of, client_main-server_main}

-- A cipher is its name and its key.
abbrev pub named : Suite
named = record {
  Block = String × List ℕ;
  KeyError = ℕ;
  pbkdf2 = λ pass salt rounds size. replicate size rounds;
  new_sm4 = λ key. ok ("sm4", key);
  new_tea = λ key. ok ("tea", key);
  new_simple_xor = λ key. ok ("xor", key);
  new_none = λ key. ok ("none", key);
  new_aes = λ key. ok ("aes", key);
  new_blowfish = λ key. ok ("blowfish", key);
  new_twofish = λ key. ok ("twofish", key);
  new_cast5 = λ key. ok ("cast5", key);
  new_triple_des = λ key. ok ("3des", key);
  new_xtea = λ key. ok ("xtea", key);
  new_salsa20 = λ key. err 1;
}

abbrev pub nothing : Given
nothing = record { string = λ name. none; int = λ name. none; bool = λ name. none }

abbrev pub no_file : String → Option Json
no_file path = none

abbrev block : String × List ℕ
block = ("aes", replicate 32 4096)

abbrev pub client_runs : ClientRun (String × List ℕ)
client_runs =
    let c = client_parse nothing in
    record {
      settings = record c { key = "secret" };
      block = block;
      max_packet = c.mtu;
      sock_buf = c.sock_buf;
      dscp = c.dscp;
      idle = c.idle;
      keep_alive = c.keep_alive;
      quiet = c.quiet;
    }

abbrev pub server_runs : ServerRun (String × List ℕ)
server_runs =
    let c = server_parse nothing in
    record {
      settings = record c { key = "secret" };
      block = block;
      max_packet = c.mtu;
      sock_buf = c.sock_buf;
      dscp = c.dscp;
      idle = c.idle;
      quiet = c.quiet;
    }

pub client_starts : client_main named (λ path. true) nothing "secret" no_file ≡ runs client_runs
unfolding client_main client_decode client_start well_typed load lookup new_block_crypt switch
client_starts = refl

pub server_starts :
    server_main named (λ path. true) (λ addr. true) nothing "secret" no_file ≡ runs server_runs
unfolding server_main server_decode server_start well_typed load lookup new_block_crypt switch
server_starts = refl

pub nothing_loads : load "" no_file ≡ some []
unfolding load
nothing_loads = refl

pub same_words : SaysSame nothing nothing [] []
same_words = record {
  key = refl;
  crypt = refl;
  mtu = refl;
  key_json = refl;
  crypt_json = refl;
  mtu_json = refl;
}

client_main-server_main_example :
    (new_block_crypt named (crypt_of nothing []) (key_of nothing "secret" [])
      ≡ ok client_runs.block)
    × (client_runs.block ≡ server_runs.block)
    × (client_runs.max_packet ≡ server_runs.max_packet)
client_main-server_main_example =
    client_main-server_main named (λ path. true) (λ path. true) (λ addr. true) nothing nothing
      "secret" no_file no_file [] [] client_runs server_runs nothing_loads nothing_loads same_words
      client_starts server_starts
