-- ===== src/Credit/Replay.antt =====
-- References make grants and debits safe to repeat (app/services/credit.py).
use plynth.Exec.{resume, ok-injective, ok}
use plynth.Credit.Ledger.{get_or_create-found}
use plynth.Models.Credit.{CreditWallet, CreditEntryType}
use plynth.World.{World}
use plynth.Credit.{
  grant, post, get_or_create_wallet, is_replay, was_referenced, is_wallet, ok, pos, consume,
  lock_wallet, debit_wallet,
}
use plynth.Prelude.{
  ℕ, String, ℤ, Option, find?, some, is_text, ◌≡◌, true, find?-save, arith, eq_refl, Bool-cases,
  inl, inr, refl, ◌+ℤ◌, ◌∙◌, leb_ℤ, find?-holds, sym, false, ◌==◌, Option-cases, ◌-ℤ◌, subst, ltb_ℤ,
}

-- A posting with this reference is on the wallet of the tenant for this feature.
abbrev pub IsPosted : ℕ → String → String → CreditWallet → World → Type 0
IsPosted t k r x w = (find? (is_wallet t k) w.wallets ≡ some x) × (is_replay x.id (some r) w ≡ true)

-- A posted reference makes a grant return the wallet and write nothing.
pub grant_replay :
    (t p : ℕ) (k : String) (a : ℤ) (reason : Option String) (r : String) (ty : CreditEntryType)
    (x : CreditWallet) (w : World)
    → IsPosted t k r x w
    → grant t p k a reason (some r) ty w ≡ (ok x, w)
unfolding grant get_or_create_wallet
grant_replay t p k a reason r ty x w (e, again) = rw get_or_create_known (rw again refl)
  where
    get_or_create_known : get_or_create_wallet t p k w ≡ (ok x, w)
    get_or_create_known = rw (e, get_or_create_wallet)

-- So does it make a debit of a positive amount, within the wallet's product.
pub consume_replay :
    (t p : ℕ) (k : String) (a : ℤ) (reason : Option String) (r : String) (x : CreditWallet)
    (w : World)
    → leb_ℤ a (pos 0) ≡ false
    → (x.product_id == p) ≡ true
    → IsPosted t k r x w
    → consume t p k a reason (some r) w ≡ (ok x, w)
unfolding consume lock_wallet debit_wallet
consume_replay t p k a reason r x w positive own (e, again) =
    rw (positive, consume) (rw e (rw own (rw again refl)))

post-IsPosted :
    (t p : ℕ) (k : String) (x x' : CreditWallet) (ty : CreditEntryType) (a : ℤ)
    (reason : Option String) (r : String) (w : World)
    → is_text r ≡ true
    → find? (is_wallet t k) w.wallets ≡ some x
    → x'.id ≡ x.id
    → is_wallet t k x' ≡ true
    → IsPosted t k r x' (post t p x' ty a reason (some r) w).1
unfolding post is_replay was_referenced
post-IsPosted t p k x x' ty a reason r w nonempty e same own =
    (find?-save (is_wallet t k) (λ y. y.id) w.wallets x x' e same own, ground (arith, eq_refl r))

-- After a grant its reference is posted.
pub grant-IsPosted :
    (t p : ℕ) (k : String) (a : ℤ) (reason : Option String) (r : String) (ty : CreditEntryType)
    (w : World)
    → is_text r ≡ true
    → (x : CreditWallet) × ((grant t p k a reason (some r) ty w).0 ≡ ok x)
      × IsPosted t k r x (grant t p k a reason (some r) ty w).1
unfolding grant post
grant-IsPosted t p k a reason r ty w nonempty =
    let (x, res, e) = get_or_create-found t p k w in
    let w' = (get_or_create_wallet t p k w).1 in
    let x' = record x { balance = x.balance +ℤ a } in
    rw (res, resume)
      (elim (Bool-cases (is_replay x.id (some r) w')) [
        | inl again ↦ rw again (x, refl, (e, again))
        | inr fresh ↦ rw fresh (
          x',
          refl,
          post-IsPosted t p k x x' ty a reason r w' nonempty e refl
              (find?-holds (is_wallet t k) w'.wallets x e),
        )
      ])

-- A grant repeated with its reference, a text that is not empty, returns the same wallet and writes nothing, whatever the
-- repeated call says of amount, reason and type.
pub grant_twice :
    (t p : ℕ) (k : String) (a a' : ℤ) (reason reason' : Option String) (r : String)
    (ty ty' : CreditEntryType) (w : World)
    → is_text r ≡ true
    → grant t p k a' reason' (some r) ty' (grant t p k a reason (some r) ty w).1
      ≡ grant t p k a reason (some r) ty w
grant_twice t p k a a' reason reason' r ty ty' w nonempty =
    let (x, res, posted) = grant-IsPosted t p k a reason r ty w nonempty in
    grant_replay t p k a' reason' r ty' x _ posted
    ∙ (λ i. (sym res i, (grant t p k a reason (some r) ty w).1))

debit_wallet-IsPosted :
    (t p : ℕ) (k : String) (a : ℤ) (reason : Option String) (r : String) (x y : CreditWallet)
    (w : World)
    → is_text r ≡ true
    → find? (is_wallet t k) w.wallets ≡ some y
    → (debit_wallet t p a reason (some r) y w).0 ≡ ok x
    → ((x.product_id == p) ≡ true) × IsPosted t k r x (debit_wallet t p a reason (some r) y w).1
unfolding debit_wallet post
debit_wallet-IsPosted t p k a reason r x y w nonempty e =
    let y' = record y { balance = y.balance -ℤ a } in
    elim (Bool-cases (y.product_id == p)) [
      | inl own ↦ elim (Bool-cases (is_replay y.id (some r) w)) [
        | inl again ↦ rw own (rw again (λ done. subst (at w) (ok-injective done) (own, (e, again))))
        | inr fresh ↦ elim (Bool-cases (ltb_ℤ y.balance a)) [
          | inl short ↦ rw own (rw fresh (rw short (λ done. cc)))
          | inr covered ↦ rw own (
              rw fresh (
                rw covered (λ done.
                  subst (at (post t p y' CreditEntryType.debit (pos 0 -ℤ a) reason (some r) w).1)
                    (ok-injective done)
                    (
                      own,
                      post-IsPosted t p k y y' CreditEntryType.debit (pos 0 -ℤ a) reason r w
                          nonempty e refl (find?-holds (is_wallet t k) w.wallets y e),
                    ))))
        ]
      ]
      | inr foreign ↦ rw foreign (λ done. cc)
    ]
  where
    at : World → CreditWallet → Type 0
    at w' z = ((z.product_id == p) ≡ true) × IsPosted t k r z w'

-- A debit that returned left its reference posted, in a wallet of the product.
consume-IsPosted :
    (t p : ℕ) (k : String) (a : ℤ) (reason : Option String) (r : String) (x : CreditWallet)
    (w : World)
    → is_text r ≡ true
    → (consume t p k a reason (some r) w).0 ≡ ok x
    → ((x.product_id == p) ≡ true) × IsPosted t k r x (consume t p k a reason (some r) w).1
unfolding consume lock_wallet
consume-IsPosted t p k a reason r x w nonempty = elim (Bool-cases (leb_ℤ a (pos 0))) [
  | inl bad ↦ rw (bad, consume) (λ done. cc)
  | inr positive ↦ elim (Option-cases (find? (is_wallet t k) w.wallets)) [
    | inl missing ↦ rw (positive, consume) (rw missing (λ done. cc))
    | inr (y, e) ↦
        rw (positive, consume) (rw e (debit_wallet-IsPosted t p k a reason r x y w nonempty e))
  ]
]

-- A debit that succeeded, repeated with its reference, a text that is not empty, and a positive
-- amount, returns the same wallet and writes nothing.
pub consume_twice :
    (t p : ℕ) (k : String) (a a' : ℤ) (reason reason' : Option String) (r : String)
    (x : CreditWallet) (w : World)
    → is_text r ≡ true
    → leb_ℤ a' (pos 0) ≡ false
    → (consume t p k a reason (some r) w).0 ≡ ok x
    → consume t p k a' reason' (some r) (consume t p k a reason (some r) w).1
      ≡ consume t p k a reason (some r) w
consume_twice t p k a a' reason reason' r x w nonempty positive done =
    let (own, posted) = consume-IsPosted t p k a reason r x w nonempty done in
    consume_replay t p k a' reason' r x _ positive own posted
    ∙ (λ i. (sym done i, (consume t p k a reason (some r) w).1))
