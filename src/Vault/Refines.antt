-- ===== src/Vault/Refines.antt =====
-- app/services/env_var.py: the vault behaves as a map from products and keys to texts.
use plynth.Models.EnvVar.{ProductEnvVar}
use plynth.Vault.Seal.{IsCipher, decrypt-sealed}
use plynth.World.{World, next_id}
use plynth.Vault.{
  Cipher, is_var, encrypt, reveal, VarData, seal_if, write_var, unseal, aad_for, text_or_error,
  rotated, set_var,
}
use plynth.Prelude.{
  [], ◌∷◌, some, none, true, false, inl, inr, refl, ℕ, Bool, String, List, Option, if◌then◌else◌,
  find?, All, ◌≡◌, ◌==◌, save, ◌&&◌, Bool-cases, str_eq, arith, ◌+◌, Distinct, ◌++◌, Option-cases,
  ap, ◌∙◌, find?-holds, sym, ==_true, subst, and_left, eq_iff, and_right, find?-save, Distinct-find,
}
use plynth.Exec.{ok, Result, or_raise, crypto_not_configured, ◌>>=◌, new_id, pure, resume, gets}

-- The abstract vault: what a product reads under a key, an error if the value does not decrypt
abbrev pub VaultMap : Type 0
VaultMap = ℕ → String → Option (Result String)

abbrev pub put : ℕ → String → String → VaultMap → VaultMap
put p k v m q j = if (p == q) && str_eq k j then some (ok v) else m q j

abbrev revealed : Cipher → (ℕ → String) → Option ProductEnvVar → Option (Result String)
revealed c uuid_str none = none
revealed c uuid_str (some row) = some (reveal c uuid_str row)

-- The vault that the table stands for
abbrev pub contents : Cipher → World → VaultMap
contents c w q j = revealed c w.env.uuid_str (find? (is_var q j) w.env_vars)

-- A query that neither the old nor the new row answers finds what it found.
find?-save_other {ℓ} :
    {A : Type ℓ} (q : A → Bool) (key : A → ℕ) (row old : A) (xs : List A)
    → All (λ x. key x ≡ key old → x ≡ old) xs
    → key row ≡ key old
    → q row ≡ false
    → q old ≡ false
    → find? q (save key row xs) ≡ find? q xs
find?-save_other q key row old [] h k e f = refl
find?-save_other q key row old (x ∷ xs) h k e f =
    let rest = find?-save_other q key row old xs h.1 k e f in
    elim (Bool-cases (key x == key row)) [
      | inl same ↦ rw (same, e) (rest ∙ sym (skip (h.0 (==_true (key x) (key row) same ∙ k))))
      | inr other ↦ rw other (rw rest refl)
    ]
  where
    skip : x ≡ old → find? q (x ∷ xs) ≡ find? q xs
    skip is_old = rw (ap q is_old ∙ f) refl

-- The row that is there under a key
var_key :
    (p : ℕ) (k : String) (rows : List ProductEnvVar) (old : ProductEnvVar)
    → find? (is_var p k) rows ≡ some old
    → (old.product_id ≡ p) × (old.key ≡ k)
var_key p k rows old found =
    let hit = find?-holds (is_var p k) rows old found in
    (==_true old.product_id p (and_left _ _ hit), (eq_iff old.key k).0 (and_right _ _ hit))

module _ (c : Cipher) (law : IsCipher c) (master : List ℕ) (configured : c.key ≡ some master) where
  seal_if-unseal :
      (secret : Bool) (text : String) (aad : List ℕ) (w : World)
      → c.decode (c.encode text) ≡ some text
      → (value : List ℕ) × (k : ℕ) × (seal_if c secret text aad w
          ≡ (ok value, record w { drawn = w.drawn + k }))
        × (unseal c secret value aad ≡ ok text)
  unfolding encrypt
  seal_if-unseal true text aad w codec = (
    c.urandom (next_id w) ++ c.seal master (c.urandom (next_id w)) (c.encode text) aad,
    1,
    ap
        (λ o.
          (or_raise o crypto_not_configured >>= λ key.
          (new_id >>= λ draw.
          pure (c.urandom draw ++ c.seal key (c.urandom draw) (c.encode text) aad)))
            w)
        configured,
    decrypt-sealed c master (next_id w) text aad law configured codec,
  )
  seal_if-unseal false text aad w codec = (
    c.encode text,
    0,
    ap (λ n. (ok (c.encode text), record w { drawn = n })) (omega arith),
    ap text_or_error codec,
  )

  rotated-contents :
      (p : ℕ) (d : VarData) (value : List ℕ) (w : World) (q : ℕ) (j : String) (old : ProductEnvVar)
      → Distinct (λ v. v.id) w.env_vars
      → unseal c d.is_secret value (aad_for c w.env.uuid_str p d.key) ≡ ok d.value
      → find? (is_var p d.key) w.env_vars ≡ some old
      → revealed c w.env.uuid_str
          (find? (is_var q j) (save (λ v. v.id) (rotated c value w.env.now d old) w.env_vars))
        ≡ put p d.key d.value (contents c w) q j
  unfolding reveal
  rotated-contents p d value w q j old distinct opens found =
      let (is_p, is_k) = var_key p d.key w.env_vars old found in
      let row = rotated c value w.env.now d old in
      elim (Bool-cases ((p == q) && str_eq d.key j)) [
        | inl hit ↦ rw hit (
            ap (revealed c w.env.uuid_str) (
              find?-save (is_var q j) (λ v. v.id) w.env_vars old row (moved hit) refl
                (find?-holds (is_var q j) w.env_vars old (moved hit)))
            ∙ ap some (
                (λ i. unseal c d.is_secret value (aad_for c w.env.uuid_str (is_p i) (is_k i)))
                ∙ opens))
        | inr miss ↦
            let off = (λ i. (is_p i == q) && str_eq (is_k i) j) ∙ miss in
            rw miss (
              ap (revealed c w.env.uuid_str) (
                find?-save_other (is_var q j) (λ v. v.id) row old w.env_vars
                  (Distinct-find (λ v. v.id) (is_var p d.key) w.env_vars old distinct found) refl
                  off off))
      ]
    where
      moved : ((p == q) && str_eq d.key j) ≡ true → find? (is_var q j) w.env_vars ≡ some old
      moved hit =
          let same_p = ==_true p q (and_left _ _ hit) in
          let same_k = (eq_iff d.key j).0 (and_right (p == q) (str_eq d.key j) hit) in
          (λ i. find? (is_var (sym same_p i) (sym same_k i)) w.env_vars) ∙ found

  -- What is written in the table for a value that unseals to the text
  write_var-contents :
      (p : ℕ) (d : VarData) (value : List ℕ) (w : World) (q : ℕ) (j : String)
      → Distinct (λ v. v.id) w.env_vars
      → unseal c d.is_secret value (aad_for c w.env.uuid_str p d.key) ≡ ok d.value
      → (row : ProductEnvVar) × ((write_var c p d value (find? (is_var p d.key) w.env_vars) w).0
          ≡ ok row)
        × (contents c (write_var c p d value (find? (is_var p d.key) w.env_vars) w).1 q j
            ≡ put p d.key d.value (contents c w) q j)
  unfolding write_var reveal
  write_var-contents p d value w q j distinct opens =
      elim (Option-cases (find? (is_var p d.key) w.env_vars)) [
        | inl fresh ↦ rw fresh (
          _,
          refl,
          elim (Bool-cases ((p == q) && str_eq d.key j)) [
            | inl hit ↦ rw hit (ap some opens)
            | inr miss ↦ rw miss refl
          ],
        )
        | inr (old, found) ↦
            rw found (_, refl, rotated-contents p d value w q j old distinct opens found)
      ]

  -- With a key configured, distinct identifiers in the table, and a cipher and codec that give back
  -- what they were given, `set_var` returns, and the vault
  -- behaves as a map: afterwards the product reads the new text under the key, whether the row was
  -- there or not and whether the value is secret or not, and every other product and every other
  -- key reads what it read before.
  pub set_var-contents :
      (p : ℕ) (d : VarData) (w : World) (q : ℕ) (j : String)
      → c.decode (c.encode d.value) ≡ some d.value
      → Distinct (λ v. v.id) w.env_vars
      → (row : ProductEnvVar) × ((set_var c p d w).0 ≡ ok row)
        × (contents c (set_var c p d w).1 q j ≡ put p d.key d.value (contents c w) q j)
  unfolding set_var
  set_var-contents p d w q j codec distinct =
      let (value, k, sealed, opens) =
        seal_if-unseal d.is_secret d.value (aad_for c w.env.uuid_str p d.key) w codec in
      let found = find? (is_var p d.key) w.env_vars in
      subst
        (λ (x : Result (List ℕ) × World).
          let out =
            resume x.0 (λ v. (gets (λ w. find? (is_var p d.key) w.env_vars) >>= write_var c p d v))
              x.1 in
          (row : ProductEnvVar) × (out.0 ≡ ok row)
          × (contents c out.1 q j ≡ put p d.key d.value (contents c w) q j))
        (sym sealed)
        (write_var-contents p d value (record w { drawn = w.drawn + k }) q j distinct opens)
