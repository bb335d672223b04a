-- ===== src/Credit/Debit.antt =====
-- What a debit does to the balance (app/services/credit.py, `consume`).
use plynth.World.{World}
use plynth.Credit.Stored.{IsRounding, IsScaled, settle, stored, stored_wallet}
use mathlib.Core.Option
use plynth.Exec.{Result, Error, err, ok-injective, ok}
use plynth.Models.Credit.{CreditWallet}
use plynth.Prelude.{
  List, [], ◌∷◌, map, ap, sym, ◌∙◌, ℕ, String, ℤ, Option, find?, ◌≡◌, some, Bool-cases, ◌==◌, leb_ℤ,
  false, inl, inr, ◌-ℤ◌, ltb_ℤ, Option-cases, ◌≤ℤ◌, subst, save, int_laws, ltb_ℤ→le, find?-save,
  find?-holds, refl, true, arith,
}
use plynth.Credit.{debit_wallet, consume, post, lock_wallet, is_wallet, is_replay, pos, ok}

-- The balance after a debit is the balance before, less the amount, and never negative.
debit_wallet-balance :
    (t p : ℕ) (k : String) (a : ℤ) (reason reference : Option String) (x y : CreditWallet)
    (w : World)
    → find? (is_wallet t k) w.wallets ≡ some x
    → is_replay x.id reference w ≡ false
    → (debit_wallet t p a reason reference x w).0 ≡ ok y
    → (y.balance ≡ x.balance -ℤ a)
      × (pos 0 ≤ℤ y.balance)
      × (find? (is_wallet t k) (debit_wallet t p a reason reference x w).1.wallets ≡ some y)
unfolding debit_wallet post
debit_wallet-balance t p k a reason reference x y w e fresh =
    let x' = record x { balance = x.balance -ℤ a } in
    elim (Bool-cases (x.product_id == p)) [
      | inl own ↦ elim (Bool-cases (ltb_ℤ x.balance a)) [
        | inl short ↦ rw own (rw fresh (rw short (λ done. cc)))
        | inr covered ↦ rw own (
            rw fresh (
              rw covered (λ done.
                subst
                  (λ z.
                    (z.balance ≡ x.balance -ℤ a)
                    × (pos 0 ≤ℤ z.balance)
                    × (find? (is_wallet t k) (save (λ v. v.id) x' w.wallets) ≡ some z))
                  (ok-injective done)
                  (
                    refl,
                    omega (int_laws, ltb_ℤ→le x.balance a covered),
                    find?-save (is_wallet t k) (λ v. v.id) w.wallets x x' e refl
                        (find?-holds (is_wallet t k) w.wallets x e),
                  ))))
      ]
      | inr foreign ↦ rw foreign (λ done. cc)
    ]

-- In its session, a debit takes its amount.
taken :
    (t p : ℕ) (k : String) (a : ℤ) (reason reference : Option String) (x y : CreditWallet)
    (w : World)
    → find? (is_wallet t k) w.wallets ≡ some x
    → is_replay x.id reference w ≡ false
    → (consume t p k a reason reference w).0 ≡ ok y
    → (y.balance ≡ x.balance -ℤ a)
      × (pos 0 ≤ℤ y.balance)
      × (find? (is_wallet t k) (consume t p k a reason reference w).1.wallets ≡ some y)
unfolding consume lock_wallet
taken t p k a reason reference x y w e fresh = elim (Bool-cases (leb_ℤ a (pos 0))) [
  | inl bad ↦ rw (bad, consume) (λ done. cc)
  | inr positive ↦
      rw (positive, consume) (rw e (debit_wallet-balance t p k a reason reference x y w e fresh))
]

find?-stored :
    (numeric : ℤ → ℤ) (t : ℕ) (k : String) (xs : List CreditWallet) (y : CreditWallet)
    → find? (is_wallet t k) xs ≡ some y
    → find? (is_wallet t k) (map (stored_wallet numeric) xs) ≡ some (stored_wallet numeric y)
find?-stored numeric t k [] y e = cc
find?-stored numeric t k (x ∷ xs) y e = elim (Bool-cases (is_wallet t k x)) [
  | inl here ↦ rw here (ap (Option.map (stored_wallet numeric)) (head here))
  | inr other ↦ rw other (find?-stored numeric t k xs y (rest other))
]
  where
    head : is_wallet t k x ≡ true → some x ≡ some y
    head h = ground arith

    rest : is_wallet t k x ≡ false → find? (is_wallet t k) xs ≡ some y
    rest h = ground arith

settle_ok :
    (numeric : ℤ → ℤ) {A : Type 0} (w : World) (out : Result A × World) (y : A)
    → out.0 ≡ ok y
    → settle numeric w out ≡ stored numeric out.1
unfolding settle
settle_ok numeric w (ok a, w') y e = refl
settle_ok numeric w (err x, w') y e = cc

-- A debit that returns, for an amount of at most four digits after the point and a reference that
-- was not used before on the wallet, has taken exactly this amount once its session is committed:
-- the balance of the wallet that is stored is the stored balance of before, less the amount, and it
-- is not negative. It is assumed that the database keeps sums and differences of amounts of four
-- digits.
pub consume-balance :
    (numeric : ℤ → ℤ) (t p : ℕ) (k : String) (a : ℤ) (reason reference : Option String)
    (x y : CreditWallet) (w : World)
    → IsRounding numeric
    → IsScaled numeric a
    → IsScaled numeric x.balance
    → find? (is_wallet t k) w.wallets ≡ some x
    → is_replay x.id reference w ≡ false
    → (consume t p k a reason reference w).0 ≡ ok y
    → (y.balance ≡ x.balance -ℤ a)
      × (pos 0 ≤ℤ y.balance)
      × (find? (is_wallet t k) (settle numeric w (consume t p k a reason reference w)).wallets
          ≡ some y)
unfolding stored
consume-balance numeric t p k a reason reference x y w rounding fine before e fresh done =
    let (less, positive, found) = taken t p k a reason reference x y w e fresh done in
    let kept : IsScaled numeric y.balance =
      subst (IsScaled numeric) (sym less) (rounding.sub_scaled x.balance a before fine) in
    (
      less,
      positive,
      ap (λ (v : World). find? (is_wallet t k) v.wallets)
            (settle_ok numeric w (consume t p k a reason reference w) y done)
          ∙ (find?-stored numeric t k (consume t p k a reason reference w).1.wallets y found
              ∙ ap (λ b. some (record y { balance = b })) kept),
    )

debit_wallet_error :
    (t p : ℕ) (a : ℤ) (reason reference : Option String) (x : CreditWallet) (e : Error) (w : World)
    → (debit_wallet t p a reason reference x w).0 ≡ err e
    → (debit_wallet t p a reason reference x w).1 ≡ w
unfolding debit_wallet post
debit_wallet_error t p a reason reference x e w = elim (Bool-cases (x.product_id == p)) [
  | inl own ↦ elim (Bool-cases (is_replay x.id reference w)) [
    | inl again ↦ rw own (rw again (λ done. cc))
    | inr fresh ↦ elim (Bool-cases (ltb_ℤ x.balance a)) [
      | inl short ↦ rw own (rw fresh (rw short (λ done. refl)))
      | inr covered ↦ rw own (rw fresh (rw covered (λ done. cc)))
    ]
  ]
  | inr foreign ↦ rw foreign (λ done. refl)
]

-- A debit that raises has written nothing.
pub consume_error :
    (t p : ℕ) (k : String) (a : ℤ) (reason reference : Option String) (e : Error) (w : World)
    → (consume t p k a reason reference w).0 ≡ err e
    → (consume t p k a reason reference w).1 ≡ w
unfolding consume lock_wallet
consume_error t p k a reason reference e w = elim (Bool-cases (leb_ℤ a (pos 0))) [
  | inl bad ↦ rw (bad, consume) (λ done. refl)
  | inr positive ↦ elim (Option-cases (find? (is_wallet t k) w.wallets)) [
    | inl missing ↦ rw (positive, consume) (rw missing (λ done. refl))
    | inr (x, found) ↦
        rw (positive, consume) (rw found (debit_wallet_error t p a reason reference x e w))
  ]
]
