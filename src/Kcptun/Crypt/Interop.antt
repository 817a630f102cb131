-- ===== src/Kcptun/Crypt/Interop.antt =====
-- The same `-key` and `-crypt` mean the same cipher in udptun and in both kcptun programs.
use Prim.Native.Char.{Char, code}
use xtaci_kcptun.Prelude.{
  ℕ, String, List, [], ◌∷◌, ◌++◌, value?, Result, ok, err, ◌≡◌, refl, sym, ap, ◌∙◌, arith, true,
  false, ◌==◌, if◌then◌else◌, Bool-cases, inl, inr, string_eq,
}
use xtaci_kcptun.Prelude.Switch.{
  switch, contains, all_in, contains-all_in, labels, switch_default, switch_hit, switch-append,
  map_cases, switch-map,
}
use xtaci_kcptun.Udptun.Cipher.{
  Suite, CipherError, unknown_crypt, from_new, crypt_cases, crypt_list, new_block_crypt, salt,
}
use xtaci_kcptun.Kcptun.Crypt.{Choice, client_cases, client_block, server_block}

-- The names in a help text: split at commas, blanks dropped.
add_char : Char → List String → List String
add_char c [] = []
add_char c (w ∷ ws) =
    if code c == b','
    then String.[] ∷ w ∷ ws
    else if code c == b' '
    then w ∷ ws
    else String.◌∷◌ c w ∷ ws

unfoldable pub split_names : String → List String
unfolding add_char
split_names String.[] = String.[] ∷ []
split_names (String.◌∷◌ c s) = add_char c (split_names s)

abbrev pub IsListed : String → Type 0
IsListed name = contains (split_names crypt_list) name ≡ true

abbrev pub IsUnlisted : String → Type 0
IsUnlisted name = contains (split_names crypt_list) name ≡ false

value?-from_new : {E A : Type 0} (r : Result E A) → value? (from_new r) ≡ value? r
value?-from_new (ok a) = refl
value?-from_new (err e) = refl

module _ (s : Suite) where
  open s use {Block, KeyError, pbkdf2, new_aes}

  listed-label :
      (name : String) (key : List ℕ)
      → IsListed name
      → contains (labels (crypt_cases s key)) name ≡ true
  unfolding split_names all_in
  listed-label name key h =
      contains-all_in (split_names crypt_list) (labels (crypt_cases s key)) name refl h

  label-IsListed :
      (name : String) (key : List ℕ)
      → contains (labels (crypt_cases s key)) name ≡ true
      → IsListed name
  unfolding split_names all_in
  label-IsListed name key h =
      contains-all_in (labels (crypt_cases s key)) (split_names crypt_list) name refl h

  unlisted-label :
      (name : String) (key : List ℕ)
      → IsUnlisted name
      → contains (labels (crypt_cases s key)) name ≡ false
  unlisted-label name key h =
      ground
        (arith, Bool-cases (contains (labels (crypt_cases s key)) name), label-IsListed name key)

  as_choice : String → Result (CipherError KeyError) Block → Choice Block
  as_choice name r = record { crypt = name; block = value? r }

  -- The cases of a kcptun program, read off udptun's: all but the last, which is its default.
  client_cases-as_choice :
      (name : String) (key : List ℕ)
      → map_cases (as_choice name) (crypt_cases s key)
        ≡ client_cases s name key ++ (("aes", as_choice name (from_new (new_aes key))) ∷ [])
  unfolding as_choice
  client_cases-as_choice name key = simp value?-from_new

  unlisted-client :
      (name : String) (key : List ℕ)
      → IsUnlisted name
      → contains (labels (client_cases s name key)) name ≡ false
  unfolding contains
  unlisted-client name key h = ground (arith, unlisted-label name key h)

  other-client :
      (name : String) (key : List ℕ)
      → IsListed name
      → string_eq.beq "aes" name ≡ false
      → contains (labels (client_cases s name key)) name ≡ true
  unfolding contains
  other-client name key h miss = ground (arith, listed-label name key h)

  -- "aes" is the one listed name that the kcptun programs leave to their default.
  default_choice :
      (name : String) (key : List ℕ) (d : Choice Block)
      → IsListed name
      → switch name
          (client_cases s name key)
          (if string_eq.beq "aes" name then as_choice name (from_new (new_aes key)) else d)
        ≡ switch name
            (client_cases s name key)
            (record { crypt = "aes"; block = value? (new_aes key) })
  unfolding as_choice
  default_choice name key d h = elim (Bool-cases (string_eq.beq "aes" name)) [
    | inl hit ↦
        rw (hit, value?-from_new (new_aes key))
          (ap
            (λ n.
              switch name (client_cases s name key)
                (record { crypt = n; block = value? (new_aes key) }))
            (sym ((string_eq.beq_iff "aes" name).0 hit)))
    | inr miss ↦ rw miss (switch_hit name _ _ _ (other-client name key h miss))
  ]

  -- For a listed name the client uses the cipher that udptun derives from the same pass phrase,
  -- and reports the name; a nil cipher stands for a constructor's error.
  pub client_block-listed :
      (name pass : String)
      → IsListed name
      → client_block s pass name
        ≡ record { crypt = name; block = value? (new_block_crypt s name pass) }
  unfolding client_block new_block_crypt as_choice
  client_block-listed name pass h =
      let key = pbkdf2 pass salt 4096 32 in
      sym (
        switch-map (as_choice name) name (crypt_cases s key) (err (unknown_crypt name))
        ∙ ap (λ cs. switch name cs (as_choice name (err (unknown_crypt name))))
            (client_cases-as_choice name key)
        ∙ switch-append name "aes" (client_cases s name key)
            (as_choice name (err (unknown_crypt name))) _
        ∙ default_choice name key _ h)

  -- For a name that is not listed udptun refuses, and the client runs as if "aes" had been given.
  pub client_block-unlisted :
      (name pass : String)
      → IsUnlisted name
      → (new_block_crypt s name pass ≡ err (unknown_crypt name))
        × (client_block s pass name ≡ client_block s pass "aes")
  unfolding client_block new_block_crypt switch
  client_block-unlisted name pass h =
      let key = pbkdf2 pass salt 4096 32 in
      (
        switch_default name (crypt_cases s key) _ (unlisted-label name key h),
        switch_default name (client_cases s name key) _ (unlisted-client name key h),
      )

  -- Both kcptun programs make the same choice from the same settings.
  pub client_block-server_block :
      (pass name : String) → client_block s pass name ≡ server_block s pass name
  unfolding client_block server_block
  client_block-server_block pass name = refl

  -- So a listed name gives udptun, the client and the server the same cipher.
  pub server_block-listed :
      (name pass : String)
      → IsListed name
      → (client_block s pass name ≡ server_block s pass name)
        × (server_block s pass name
            ≡ record { crypt = name; block = value? (new_block_crypt s name pass) })
  server_block-listed name pass h = (
    client_block-server_block pass name,
    sym (client_block-server_block pass name) ∙ client_block-listed name pass h,
  )
