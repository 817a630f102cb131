-- ===== src/Kcptun/Crypt.antt =====
-- client/main.go and server/main.go: the cipher that the settings `key` and `crypt` select. Unlike
-- udptun, both programs take AES for an unknown name, record that, and drop a constructor's error.
pub mod Interop
use xtaci_kcptun.Prelude.{ℕ, String, List, [], ◌∷◌, take, Option, value?}
use xtaci_kcptun.Prelude.Switch.{switch}
use xtaci_kcptun.Udptun.Cipher.{Suite}

abbrev pub salt : String
salt = "kcp-go"

-- The name that is logged as the encryption, and the cipher; `none` is a nil cipher.
pub record Choice (Block : Type 0) : Type 0 where
  pub crypt : String
  pub block : Option Block

module _ (s : Suite) where
  open s use {
    Block, KeyError, pbkdf2, new_sm4, new_tea, new_simple_xor, new_none, new_aes, new_blowfish,
    new_twofish, new_cast5, new_triple_des, new_xtea, new_salsa20,
  }

  abbrev pub client_cases : String → List ℕ → List (String × Choice Block)
  client_cases crypt pass =
      ("sm4", record { crypt = crypt; block = value? (new_sm4 (take 16 pass)) })
      ∷ ("tea", record { crypt = crypt; block = value? (new_tea (take 16 pass)) })
      ∷ ("xor", record { crypt = crypt; block = value? (new_simple_xor pass) })
      ∷ ("none", record { crypt = crypt; block = value? (new_none pass) })
      ∷ ("aes-128", record { crypt = crypt; block = value? (new_aes (take 16 pass)) })
      ∷ ("aes-192", record { crypt = crypt; block = value? (new_aes (take 24 pass)) })
      ∷ ("blowfish", record { crypt = crypt; block = value? (new_blowfish pass) })
      ∷ ("twofish", record { crypt = crypt; block = value? (new_twofish pass) })
      ∷ ("cast5", record { crypt = crypt; block = value? (new_cast5 (take 16 pass)) })
      ∷ ("3des", record { crypt = crypt; block = value? (new_triple_des (take 24 pass)) })
      ∷ ("xtea", record { crypt = crypt; block = value? (new_xtea (take 16 pass)) })
      ∷ ("salsa20", record { crypt = crypt; block = value? (new_salsa20 pass) })
      ∷ []

  -- The client's switch, with its default.
  unfoldable pub client_block : String → String → Choice Block
  client_block key crypt =
      let pass = pbkdf2 key salt 4096 32 in
      switch crypt (client_cases crypt pass)
        (record { crypt = "aes"; block = value? (new_aes pass) })

  abbrev pub server_cases : String → List ℕ → List (String × Choice Block)
  server_cases crypt pass =
      ("sm4", record { crypt = crypt; block = value? (new_sm4 (take 16 pass)) })
      ∷ ("tea", record { crypt = crypt; block = value? (new_tea (take 16 pass)) })
      ∷ ("xor", record { crypt = crypt; block = value? (new_simple_xor pass) })
      ∷ ("none", record { crypt = crypt; block = value? (new_none pass) })
      ∷ ("aes-128", record { crypt = crypt; block = value? (new_aes (take 16 pass)) })
      ∷ ("aes-192", record { crypt = crypt; block = value? (new_aes (take 24 pass)) })
      ∷ ("blowfish", record { crypt = crypt; block = value? (new_blowfish pass) })
      ∷ ("twofish", record { crypt = crypt; block = value? (new_twofish pass) })
      ∷ ("cast5", record { crypt = crypt; block = value? (new_cast5 (take 16 pass)) })
      ∷ ("3des", record { crypt = crypt; block = value? (new_triple_des (take 24 pass)) })
      ∷ ("xtea", record { crypt = crypt; block = value? (new_xtea (take 16 pass)) })
      ∷ ("salsa20", record { crypt = crypt; block = value? (new_salsa20 pass) })
      ∷ []

  -- The server's switch, with its default.
  unfoldable pub server_block : String → String → Choice Block
  server_block key crypt =
      let pass = pbkdf2 key salt 4096 32 in
      switch crypt (server_cases crypt pass)
        (record { crypt = "aes"; block = value? (new_aes pass) })
