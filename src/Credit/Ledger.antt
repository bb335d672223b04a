-- ===== src/Credit/Ledger.antt =====
-- The ledger accounts for every balance (app/services/credit.py).
use plynth.Models.Plan.{Plan, PlanFeature}
use plynth.Exec.{Keeps, resume, Keeps-bind, pure, ok}
use plynth.Credit.{
  post, get_or_create_wallet, grant, consume, reset_period, ok, lock_wallet, is_wallet, is_replay,
  new_wallet, day, grant_amount, grant_features, grant_plan_credits, plan_features_of, credit_due,
  debit_wallet,
}
use plynth.Audit.{Entry, record_entry, event}
use plynth.Prelude.{
  ℕ, ◌<◌, ℤ, pos, ◌+ℤ◌, List, [], ◌∷◌, ◌≡◌, ◌≢◌, ◌∙◌, All-save, Distinct-save, ◌==◌, All, Distinct,
  if◌then◌else◌, arith, ◌+◌, refl, Option-cases, inl, sym, All-map, inr, find?-All, eq_refl,
  Bool-cases, ap, +ℤ_comm, ◌-ℤ◌, add_neg, ◌*◌, neg_self, String, find?, Option, some, none, eq_ℤ,
  subst, ltb_ℤ, leb_ℤ,
}
use plynth.Models.Credit.{CreditLedger, CreditWallet, CreditEntryType}
use plynth.World.{World, next_id}

-- The sum of the amounts posted to a wallet.
abbrev pub ledger_sum : ℕ → List CreditLedger → ℤ
ledger_sum i [] = pos 0
ledger_sum i (e ∷ es) = if e.wallet_id == i then e.amount +ℤ ledger_sum i es else ledger_sum i es

-- `uuid4` returned this identifier earlier.
abbrev pub IsIssued : World → ℕ → Type 0
IsIssued w i = (k : ℕ) × (k < w.drawn) × (w.env.uuid k ≡ i)

-- What is assumed of `uuid4`: it returns no identifier twice.
abbrev pub UuidUnique : World → Type 0
UuidUnique w = (i j : ℕ) → w.env.uuid i ≡ w.env.uuid j → i ≡ j

pub record IsReconciled (w : World) : Type 0 where
  pub unique : UuidUnique w
  pub balances : All (λ x. x.balance ≡ ledger_sum x.id w.ledger) w.wallets
  pub issued : All (λ x. IsIssued w x.id) w.wallets
  pub distinct : Distinct (λ x. x.id) w.wallets
  pub entries_issued : All (λ e. IsIssued w e.wallet_id) w.ledger

not_issued : (w : World) (i : ℕ) → UuidUnique w → IsIssued w i → i ≢ next_id w
not_issued w i u (k, lt, e) eq = absurd (omega (arith, u k w.drawn (e ∙ eq)))

-- An identifier that was never issued has no entries.
ledger_sum_fresh :
    (w : World) (es : List CreditLedger)
    → UuidUnique w
    → All (λ e. IsIssued w e.wallet_id) es
    → ledger_sum (next_id w) es ≡ pos 0
ledger_sum_fresh w [] u h = refl
ledger_sum_fresh w (e ∷ es) u h =
    ground (arith, not_issued w e.wallet_id u h.0, ledger_sum_fresh w es u h.1)

-- Drawing one more identifier issues no fewer.
IsIssued-suc : (w : World) (i : ℕ) → IsIssued w i → IsIssued (record w { drawn = w.drawn + 1 }) i
IsIssued-suc w i (k, lt, e) = (k, omega arith, e)

post-IsReconciled :
    (t p : ℕ) (wallet : CreditWallet) (ty : CreditEntryType) (amount : ℤ)
    (reason reference : Option String) (w : World)
    → IsReconciled w
    → IsIssued w wallet.id
    → wallet.balance ≡ amount +ℤ ledger_sum wallet.id w.ledger
    → IsReconciled (post t p wallet ty amount reason reference w).1
unfolding post
post-IsReconciled t p wallet ty amount reason reference w h i e = record {
  unique = h.unique;
  balances =
      All-save _ _ (λ x. x.id) wallet w.wallets (λ x b ne. ground arith) (ground arith) h.balances;
  issued = All-save _ _ (λ x. x.id) wallet w.wallets (λ x b ne. b) i h.issued;
  distinct = Distinct-save (λ x. x.id) wallet w.wallets h.distinct;
  entries_issued = (i, h.entries_issued);
}

pub get_or_create-IsReconciled :
    (t p : ℕ) (k : String) (w : World)
    → IsReconciled w
    → IsReconciled (get_or_create_wallet t p k w).1
unfolding get_or_create_wallet
get_or_create-IsReconciled t p k w h = elim (Option-cases (find? (is_wallet t k) w.wallets)) [
  | inl new ↦
      rw (new, get_or_create_wallet)
        (record {
          unique = h.unique;
          balances = (sym (ledger_sum_fresh w w.ledger h.unique h.entries_issued), h.balances);
          issued = (
            (w.drawn, omega arith, refl),
            All-map _ _ w.wallets (λ x. IsIssued-suc w x.id) h.issued,
          );
          distinct = (
            All-map (λ x. IsIssued w x.id) _ w.wallets (λ x. not_issued w x.id h.unique) h.issued,
            h.distinct,
          );
          entries_issued =
              All-map (λ e. IsIssued w e.wallet_id) _ w.ledger (λ e. IsIssued-suc w e.wallet_id)
                h.entries_issued;
        })
  | inr (wallet, e) ↦ rw (e, get_or_create_wallet) h
]

-- The wallet that `get_or_create_wallet` returns is the one that the table then holds.
pub get_or_create-found :
    (t p : ℕ) (k : String) (w : World)
    → (x : CreditWallet) × ((get_or_create_wallet t p k w).0 ≡ ok x)
      × (find? (is_wallet t k) (get_or_create_wallet t p k w).1.wallets ≡ some x)
unfolding get_or_create_wallet
get_or_create-found t p k w = elim (Option-cases (find? (is_wallet t k) w.wallets)) [
  | inl new ↦ (
    new_wallet (next_id w) t p k,
    rw (new, get_or_create_wallet),
    rw (new, get_or_create_wallet) (ground (arith, eq_refl k)),
  )
  | inr (wallet, e) ↦ (wallet, rw (e, get_or_create_wallet), rw (e, get_or_create_wallet) e)
]

-- What is known of a wallet that was found.
pub found-accounted :
    (t : ℕ) (k : String) (x : CreditWallet) (w : World)
    → IsReconciled w
    → find? (is_wallet t k) w.wallets ≡ some x
    → (x.balance ≡ ledger_sum x.id w.ledger) × IsIssued w x.id
found-accounted t k x w h e = (
  find?-All (is_wallet t k) (λ y. y.balance ≡ ledger_sum y.id w.ledger) w.wallets x h.balances e,
  find?-All (is_wallet t k) (λ y. IsIssued w y.id) w.wallets x h.issued e,
)

-- A grant keeps every balance equal to the sum of its entries.
pub grant-IsReconciled :
    (t p : ℕ) (k : String) (a : ℤ) (reason reference : Option String) (ty : CreditEntryType)
    → Keeps IsReconciled (grant t p k a reason reference ty)
unfolding grant
grant-IsReconciled t p k a reason reference ty w h =
    let (x, r, e) = get_or_create-found t p k w in
    let w' = (get_or_create_wallet t p k w).1 in
    let h' = get_or_create-IsReconciled t p k w h in
    let (b, i) = found-accounted t k x w' h' e in
    rw (r, resume)
      (elim (Bool-cases (is_replay x.id reference w')) [
        | inl again ↦ rw again h'
        | inr fresh ↦ rw fresh (
            post-IsReconciled t p (record x { balance = x.balance +ℤ a }) ty a reason reference w'
              h' i (ap (λ z. z +ℤ a) b ∙ +ℤ_comm _ a))
      ])

debit_wallet-IsReconciled :
    (t p : ℕ) (k : String) (a : ℤ) (reason reference : Option String) (x : CreditWallet) (w : World)
    → find? (is_wallet t k) w.wallets ≡ some x
    → IsReconciled w
    → IsReconciled (debit_wallet t p a reason reference x w).1
unfolding debit_wallet
debit_wallet-IsReconciled t p k a reason reference x w e h =
    let (b, i) = found-accounted t k x w h e in
    elim (Bool-cases (x.product_id == p)) [
      | inl own ↦ elim (Bool-cases (is_replay x.id reference w)) [
        | inl again ↦ rw own (rw again h)
        | inr fresh ↦ elim (Bool-cases (ltb_ℤ x.balance a)) [
          | inl short ↦ rw own (rw fresh (rw short h))
          | inr covered ↦ rw own (
              rw fresh (
                rw covered (
                  post-IsReconciled t p (record x { balance = x.balance -ℤ a })
                    CreditEntryType.debit (pos 0 -ℤ a) reason reference w h i
                    (add_neg _ a ∙ ap (λ z. (pos 0 -ℤ a) +ℤ z) b))))
        ]
      ]
      | inr foreign ↦ rw foreign h
    ]

pub consume-IsReconciled :
    (t p : ℕ) (k : String) (a : ℤ) (reason reference : Option String)
    → Keeps IsReconciled (consume t p k a reason reference)
unfolding consume lock_wallet
consume-IsReconciled t p k a reason reference w h = elim (Bool-cases (leb_ℤ a (pos 0))) [
  | inl bad ↦ rw (bad, consume) h
  | inr positive ↦ elim (Option-cases (find? (is_wallet t k) w.wallets)) [
    | inl missing ↦ rw (positive, consume) (rw missing h)
    | inr (x, e) ↦
        rw (positive, consume) (rw e (debit_wallet-IsReconciled t p k a reason reference x w e h))
  ]
]

audit-IsReconciled : (e : Entry) → Keeps IsReconciled (record_entry e)
audit-IsReconciled e w h = record {
  unique = h.unique;
  balances = h.balances;
  issued = h.issued;
  distinct = h.distinct;
  entries_issued = h.entries_issued;
}

pub reset_period-IsReconciled :
    (t p : ℕ) (k : String) (actor : Option ℕ) → Keeps IsReconciled (reset_period t p k actor)
unfolding reset_period lock_wallet post
reset_period-IsReconciled t p k actor w h = elim (Option-cases (find? (is_wallet t k) w.wallets)) [
  | inl missing ↦ ground arith
  | inr (x, e) ↦
      let (b, i) = found-accounted t k x w h e in
      let x' : CreditWallet = record x {
        balance = pos 0;
        period_start = some w.env.now;
        period_end = some (w.env.now + 30 * day);
      } in
      let entry = event "credits.period_reset" actor "credit_wallet" x.id (some t) p in
      let done = audit-IsReconciled entry _ (
        post-IsReconciled t p x' CreditEntryType.expiry (pos 0 -ℤ x.balance) (some "period_reset")
          none w h i (neg_self x.balance ∙ ap (λ z. (pos 0 -ℤ x.balance) +ℤ z) b)) in
      elim (Bool-cases (x.product_id == p)) [
        | inl own ↦ elim (Bool-cases (eq_ℤ x.balance (pos 0))) [
          | inl empty ↦ subst IsReconciled (ground arith) h
          | inr full ↦ subst IsReconciled (ground arith) done
        ]
        | inr foreign ↦ subst IsReconciled (ground arith) h
      ]
]

pub grant_amount-IsReconciled :
    (t p : ℕ) (plan : Plan) (ref k : String) (o : Option ℤ)
    → Keeps IsReconciled (grant_amount t p plan ref k o)
unfolding grant_amount
grant_amount-IsReconciled t p plan ref k none w h = h
grant_amount-IsReconciled t p plan ref k (some a) w h =
    Keeps-bind IsReconciled (grant t p k a _ _ CreditEntryType.grant) (λ _. pure tt)
      (grant-IsReconciled t p k a _ _ CreditEntryType.grant) (λ _ w' h'. h') w h

grant_features-IsReconciled :
    (t p : ℕ) (plan : Plan) (ref : String) (fs : List PlanFeature)
    → Keeps IsReconciled (grant_features t p plan ref fs)
unfolding grant_features
grant_features-IsReconciled t p plan ref [] w h = h
grant_features-IsReconciled t p plan ref (f ∷ fs) w h =
    Keeps-bind IsReconciled (grant_amount t p plan ref f.feature_key (credit_due f))
      (λ _. grant_features t p plan ref fs)
      (grant_amount-IsReconciled t p plan ref f.feature_key (credit_due f))
      (λ _. grant_features-IsReconciled t p plan ref fs) w h

pub grant_plan_credits-IsReconciled :
    (t p : ℕ) (plan : Plan) (ref : String) → Keeps IsReconciled (grant_plan_credits t p plan ref)
unfolding grant_plan_credits
grant_plan_credits-IsReconciled t p plan ref w h =
    grant_features-IsReconciled t p plan ref (plan_features_of plan w) w h
