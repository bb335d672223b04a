-- ===== src/Tests/Secrets.antt =====
-- A run of the vault of variables.
use plynth.Vault.Refines.{contents, put, set_var-contents}
use plynth.World.{World, empty_world}
use plynth.Models.EnvVar.{ProductEnvVar}
use plynth.Vault.Seal.{IsCipher}
use plynth.Vault.{Cipher, VarData, set_var}
use plynth.Prelude.{
  [], ◌∷◌, some, none, true, false, refl, List, ℕ, take, arith, ◌++◌, ◌≡◌, drop, if◌then◌else◌,
  str_eq, length, ◌==◌,
}
use plynth.Exec.{ok}

abbrev sixteen : List ℕ
sixteen = 0 ∷ 0 ∷ 0 ∷ 0 ∷ 0 ∷ 0 ∷ 0 ∷ 0 ∷ 0 ∷ 0 ∷ 0 ∷ 0 ∷ 0 ∷ 0 ∷ 0 ∷ 0 ∷ []

-- A tag of sixteen zeros before the text; the codec knows the texts "v" and "".
abbrev toy_cipher : Cipher
toy_cipher = record {
  key = some (7 ∷ []);
  urandom = λ draw. take 12 sixteen;
  seal = λ key nonce text aad. sixteen ++ text;
  open_ = λ key nonce body aad. some (drop 16 body);
  encode = λ text. if str_eq text "v" then 118 ∷ [] else [];
  decode = λ bytes. if length bytes == 1 then some "v" else some "";
}

toy_cipher-IsCipher : IsCipher toy_cipher
toy_cipher-IsCipher = record {
  open-seal = λ key nonce text aad. refl;
  seal_length = λ key nonce text aad. omega arith;
  urandom_length = λ draw. refl;
}

abbrev secret : VarData
secret = record {
  key = "STRIPE_KEY";
  value = "v";
  is_secret = true;
  description = none;
  actor_user_id = none;
}

abbrev old_var : ProductEnvVar
old_var = record {
  id = 4;
  product_id = 9;
  key = "STRIPE_KEY";
  value_encrypted = [];
  is_secret = false;
  description = none;
  last_rotated_at = 5;
}

abbrev vault : World
vault = record empty_world { env_vars = old_var ∷ [] }

set_var-contents_example :
    (row : ProductEnvVar) × ((set_var toy_cipher 9 secret vault).0 ≡ ok row)
    × (contents toy_cipher (set_var toy_cipher 9 secret vault).1 9 "STRIPE_KEY"
        ≡ put 9 "STRIPE_KEY" "v" (contents toy_cipher vault) 9 "STRIPE_KEY")
set_var-contents_example =
    set_var-contents toy_cipher toy_cipher-IsCipher (7 ∷ []) refl 9 secret vault 9 "STRIPE_KEY" refl
      (tt, tt)
