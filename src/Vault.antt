-- ===== src/Vault.antt =====
-- app/core/crypto.py and app/services/env_var.py: the encrypted variables of a product.
pub mod Seal
pub mod Refines
use plynth.Audit.{record_entry, event}
use plynth.World.{World}
use plynth.Models.EnvVar.{ProductEnvVar}
use plynth.Prelude.{
  ◌∷◌, some, none, true, false, Option, ℕ, String, List, Bool, ◌<>◌, ◌==◌, if◌then◌else◌, find?,
  ◌&&◌, ltb, str_eq, remove, length, ◌++◌, ◌+◌, save, take, drop, sort_by, select,
}
use plynth.Exec.{
  ok, err, Action, Result, ◌>>=◌, ◌>>◌, value_error, crypto_not_configured, gets, modify, or_raise,
  pure, now, not_found, new_id,
}

-- What the code calls of its libraries: the key of the `KeyProvider` (none if it is not configured),
-- `os.urandom(12)` (with a number for the draw), AES-GCM's `encrypt` and `decrypt` (none for an
-- invalid tag), and the UTF-8 codec.
pub record Cipher : Type 0 where
  pub key : Option (List ℕ)
  pub urandom : ℕ → List ℕ
  pub seal : List ℕ → List ℕ → List ℕ → List ℕ → List ℕ
  pub open_ : List ℕ → List ℕ → List ℕ → List ℕ → Option (List ℕ)
  pub encode : String → List ℕ
  pub decode : List ℕ → Option String

abbrev pub nonce_len : ℕ
nonce_len = 12

-- The arguments of `set_var`
pub record VarData : Type 0 where
  pub key : String
  pub value : String
  pub is_secret : Bool
  pub description : Option String
  pub actor_user_id : Option ℕ

abbrev pub is_var : ℕ → String → ProductEnvVar → Bool
is_var product_id key v = (v.product_id == product_id) && str_eq v.key key

unfoldable pub get_var : ℕ → String → Action ProductEnvVar
get_var product_id key = do
  found ← gets (λ w. find? (is_var product_id key) w.env_vars)
  or_raise found not_found

unfoldable pub delete_var : ℕ → String → Option ℕ → Action (Unit {0})
delete_var product_id key actor_user_id = do
  row ← get_var product_id key
  modify (λ w. record w { env_vars = remove (λ v. v.id) row.id w.env_vars })
  record_entry (event "env.var_deleted" actor_user_id "env_var" row.id none product_id)

abbrev pub text_or_error : Option String → Result String
text_or_error none = err value_error
text_or_error (some text) = ok text

module _ (cipher : Cipher) where
  unfoldable pub encrypt : String → List ℕ → Action (List ℕ)
  encrypt plaintext aad = do
    key ← or_raise cipher.key crypto_not_configured
    draw ← new_id
    let nonce = cipher.urandom draw
    pure (nonce ++ cipher.seal key nonce (cipher.encode plaintext) aad)

  -- What the code decodes as UTF-8; a failure is a ValueError.
  abbrev pub decoded : Option (List ℕ) → Result String
  decoded none = err value_error
  decoded (some bytes) = text_or_error (cipher.decode bytes)

  abbrev pub opened : Option (List ℕ) → List ℕ → List ℕ → List ℕ → Result String
  opened none nonce body aad = err crypto_not_configured
  opened (some key) nonce body aad = decoded (cipher.open_ key nonce body aad)

  unfoldable pub decrypt : List ℕ → List ℕ → Result String
  decrypt blob aad =
      if ltb (length blob) (nonce_len + 16)
      then err value_error
      else opened cipher.key (take nonce_len blob) (drop nonce_len blob) aad

  unfoldable pub aad_for : (ℕ → String) → ℕ → String → List ℕ
  aad_for uuid_str product_id key = cipher.encode (uuid_str product_id <> ("|" <> key))

  -- `encrypt(value, aad=aad) if is_secret else value.encode("utf-8")`, and back
  abbrev pub seal_if : Bool → String → List ℕ → Action (List ℕ)
  seal_if true value aad = encrypt value aad
  seal_if false value aad = pure (cipher.encode value)

  abbrev pub unseal : Bool → List ℕ → List ℕ → Result String
  unseal true value aad = decrypt value aad
  unseal false value aad = decoded (some value)

  abbrev pub rotated : List ℕ → ℕ → VarData → ProductEnvVar → ProductEnvVar
  rotated value time d row = record row {
    value_encrypted = value;
    is_secret = d.is_secret;
    description = (elim d.description [ none ↦ row.description | some text ↦ some text ]);
    last_rotated_at = time;
  }

  abbrev pub var_event : String → VarData → ℕ → ℕ → Action (Unit {0})
  var_event action d product_id id =
      record_entry (event action d.actor_user_id "env_var" id none product_id)

  -- A new row, or the row that is there with the new value
  unfoldable pub write_var : ℕ → VarData → List ℕ → Option ProductEnvVar → Action ProductEnvVar
  write_var product_id d value none = do
    time ← now
    id ← new_id
    let row : ProductEnvVar = record {
      id = id;
      product_id = product_id;
      key = d.key;
      value_encrypted = value;
      is_secret = d.is_secret;
      description = d.description;
      last_rotated_at = time;
    }
    modify (λ w. record w { env_vars = row ∷ w.env_vars })
    var_event "env.var_created" d product_id id
    pure row
  write_var product_id d value (some old) = do
    time ← now
    let row = rotated value time d old
    modify (λ w. record w { env_vars = save (λ v. v.id) row w.env_vars })
    var_event "env.var_rotated" d product_id row.id
    pure row

  unfoldable pub set_var : ℕ → VarData → Action ProductEnvVar
  set_var product_id d = do
    env ← gets (λ w. w.env)
    value ← seal_if d.is_secret d.value (aad_for env.uuid_str product_id d.key)
    found ← gets (λ w. find? (is_var product_id d.key) w.env_vars)
    write_var product_id d value found

  unfoldable pub reveal : (ℕ → String) → ProductEnvVar → Result String
  reveal uuid_str row =
      unseal row.is_secret row.value_encrypted (aad_for uuid_str row.product_id row.key)

  abbrev pub reveal_or : (ℕ → String) → String → Option ProductEnvVar → Result String
  reveal_or uuid_str default none = ok default
  reveal_or uuid_str default (some row) = reveal uuid_str row

  unfoldable pub get_value_or_default : ℕ → String → String → World → Result String
  get_value_or_default product_id key default w =
      reveal_or w.env.uuid_str default (find? (is_var product_id key) w.env_vars)

-- `ORDER BY key`; the order of texts is that of the database, a parameter.
unfoldable pub list_vars : (String → String → Bool) → ℕ → World → List ProductEnvVar
list_vars key_before product_id w =
    sort_by (λ u v. key_before u.key v.key) (select (λ v. v.product_id == product_id) w.env_vars)

unfoldable pub record_reveal : ℕ → Option ℕ → Option String → Action (Unit {0})
record_reveal product_id actor_user_id ip_address = record_entry (record {
  action = "env.var_revealed";
  actor_user_id = actor_user_id;
  actor_ip = ip_address;
  resource_type = some "env_var";
  resource_id = none;
  tenant_id = none;
  product_id = some product_id;
  acting_from_tenant_id_override = none;
})
