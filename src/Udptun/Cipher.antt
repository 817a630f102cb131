-- ===== src/Udptun/Cipher.antt =====
-- udptun/cipher.go: the cipher that a `-crypt` name and a pass phrase stand for. The constructors of
-- kcp-go's crypt package and PBKDF2 are not the repository's own: they are the fields of `Suite`.
use xtaci_kcptun.Prelude.{ℕ, String, List, [], ◌∷◌, take, Result, err, ok}
use xtaci_kcptun.Prelude.Switch.{switch}

-- `new_*` take the key and return the cipher or an error.
pub record Suite : Type 1 where
  pub Block : Type 0
  pub KeyError : Type 0
  -- pass phrase, salt, iterations, key length; the hash is SHA-1
  pub pbkdf2 : String → String → ℕ → ℕ → List ℕ
  pub new_sm4 : List ℕ → Result KeyError Block
  pub new_tea : List ℕ → Result KeyError Block
  pub new_simple_xor : List ℕ → Result KeyError Block
  pub new_none : List ℕ → Result KeyError Block
  pub new_aes : List ℕ → Result KeyError Block
  pub new_blowfish : List ℕ → Result KeyError Block
  pub new_twofish : List ℕ → Result KeyError Block
  pub new_cast5 : List ℕ → Result KeyError Block
  pub new_triple_des : List ℕ → Result KeyError Block
  pub new_xtea : List ℕ → Result KeyError Block
  pub new_salsa20 : List ℕ → Result KeyError Block

abbrev pub salt : String
salt = "kcp-go"

pub data CipherError (E : Type 0) : Type 0 where
  unknown_crypt : String → CipherError E
  bad_key : E → CipherError E

abbrev pub from_new : {E A : Type 0} → Result E A → Result (CipherError E) A
from_new (ok b) = ok b
from_new (err e) = err (bad_key e)

module _ (s : Suite) where
  open s use {
    Block, KeyError, pbkdf2, new_sm4, new_tea, new_simple_xor, new_none, new_aes, new_blowfish,
    new_twofish, new_cast5, new_triple_des, new_xtea, new_salsa20,
  }

  abbrev pub crypt_cases : List ℕ → List (String × Result (CipherError KeyError) Block)
  crypt_cases key =
      ("sm4", from_new (new_sm4 (take 16 key)))
      ∷ ("tea", from_new (new_tea (take 16 key)))
      ∷ ("xor", from_new (new_simple_xor key))
      ∷ ("none", from_new (new_none key))
      ∷ ("aes-128", from_new (new_aes (take 16 key)))
      ∷ ("aes-192", from_new (new_aes (take 24 key)))
      ∷ ("blowfish", from_new (new_blowfish key))
      ∷ ("twofish", from_new (new_twofish key))
      ∷ ("cast5", from_new (new_cast5 (take 16 key)))
      ∷ ("3des", from_new (new_triple_des (take 24 key)))
      ∷ ("xtea", from_new (new_xtea (take 16 key)))
      ∷ ("salsa20", from_new (new_salsa20 key))
      ∷ ("aes", from_new (new_aes key))
      ∷ []

  -- `NewBlockCrypt`.
  unfoldable pub new_block_crypt : String → String → Result (CipherError KeyError) Block
  new_block_crypt name pass =
      switch name (crypt_cases (pbkdf2 pass salt 4096 32)) (err (unknown_crypt name))

-- `CryptList`, the help text.
abbrev pub crypt_list : String
crypt_list =
    "aes, aes-128, aes-192, salsa20, blowfish, twofish, cast5, 3des, tea, xtea, xor, sm4, none"
