-- ===== src/Vault/Seal.antt =====
-- app/core/crypto.py: what is encrypted decrypts to itself.
use plynth.Vault.{Cipher, decrypt, nonce_len, opened, decoded, text_or_error}
use plynth.Prelude.{
  [], ◌∷◌, some, false, zero, suc, refl, ℕ, List, ◌≡◌, length, String, ◌≤◌, take, drop, ◌++◌, arith,
  ◌+◌, ltb, ap, ◌∙◌,
}
use plynth.Exec.{ok}

-- What AES-GCM and `os.urandom` promise
pub record IsCipher (c : Cipher) : Type 0 where
  pub open-seal :
      (key nonce text aad : List ℕ) → c.open_ key nonce (c.seal key nonce text aad) aad ≡ some text
  pub seal_length : (key nonce text aad : List ℕ) → 16 ≤ length (c.seal key nonce text aad)
  pub urandom_length : (draw : ℕ) → length (c.urandom draw) ≡ nonce_len

module _ {A : Type 0} where
  take-append : (n : ℕ) (xs ys : List A) → length xs ≡ n → take n (xs ++ ys) ≡ xs
  take-append zero [] ys e = refl
  take-append zero (x ∷ xs) ys e = absurd (omega (arith, e))
  take-append (suc n) [] ys e = absurd (omega (arith, e))
  take-append (suc n) (x ∷ xs) ys e = ap (λ zs. x ∷ zs) (take-append n xs ys (omega (arith, e)))

  drop-append : (n : ℕ) (xs ys : List A) → length xs ≡ n → drop n (xs ++ ys) ≡ ys
  drop-append zero [] ys e = refl
  drop-append zero (x ∷ xs) ys e = absurd (omega (arith, e))
  drop-append (suc n) [] ys e = absurd (omega (arith, e))
  drop-append (suc n) (x ∷ xs) ys e = drop-append n xs ys (omega (arith, e))

  length-append : (xs ys : List A) → length (xs ++ ys) ≡ length xs + length ys
  length-append [] ys = omega arith
  length-append (x ∷ xs) ys = omega (arith, length-append xs ys)

-- With a key, what `encrypt` returns decrypts to the text, under the same associated data.
pub decrypt-sealed :
    (c : Cipher) (key : List ℕ) (draw : ℕ) (text : String) (aad : List ℕ)
    → IsCipher c
    → c.key ≡ some key
    → c.decode (c.encode text) ≡ some text
    → decrypt c (c.urandom draw ++ c.seal key (c.urandom draw) (c.encode text) aad) aad ≡ ok text
unfolding decrypt
decrypt-sealed c key draw text aad law configured codec =
    let nonce = c.urandom draw in
    let body = c.seal key nonce (c.encode text) aad in
    rw (long nonce body (law.urandom_length draw) (law.seal_length key nonce (c.encode text) aad)) (
      (λ i.
        opened c (configured i) (take-append nonce_len nonce body (law.urandom_length draw) i)
          (drop-append nonce_len nonce body (law.urandom_length draw) i) aad)
      ∙ (ap (decoded c) (law.open-seal key nonce (c.encode text) aad) ∙ ap text_or_error codec))
  where
    long :
        (nonce body : List ℕ)
        → length nonce ≡ nonce_len
        → 16 ≤ length body
        → ltb (length (nonce ++ body)) (nonce_len + 16) ≡ false
    long nonce body e le = rw (length-append nonce body) (rw e (ground (arith, le)))
