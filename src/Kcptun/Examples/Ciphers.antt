-- ===== src/Kcptun/Examples/Ciphers.antt =====
-- The theorems on the choice of a cipher, with ciphers that are their names and keys.
use xtaci_kcptun.Prelude.{ℕ, String, List, ok, err, replicate}
use xtaci_kcptun.Udptun.Cipher.{Suite}

abbrev pub named : Suite
named = record {
  Block = String × List ℕ;
  KeyError = ℕ;
  pbkdf2 = λ pass salt rounds size. replicate size rounds;
  new_sm4 = λ key. ok ("sm4", key);
  new_tea = λ key. ok ("tea", key);
  new_simple_xor = λ key. ok ("xor", key);
  new_none = λ key. ok ("none", key);
  new_aes = λ key. ok ("aes", key);
  new_blowfish = λ key. ok ("blowfish", key);
  new_twofish = λ key. ok ("twofish", key);
  new_cast5 = λ key. ok ("cast5", key);
  new_triple_des = λ key. ok ("3des", key);
  new_xtea = λ key. ok ("xtea", key);
  new_salsa20 = λ key. err 1;
}
