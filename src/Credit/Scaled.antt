-- ===== src/Credit/Scaled.antt =====
-- Amounts of four digits after the point stay such under the credit calls
-- (app/services/credit.py).
use plynth.Credit.Stored.{IsScaled, IsRounding, stored_entry}
use plynth.Credit.Ledger.{IsReconciled, ledger_sum, get_or_create-found, found-accounted}
use plynth.Models.Plan.{Plan, PlanFeature}
use plynth.Models.Credit.{CreditLedger, CreditWallet, CreditEntryType}
use plynth.World.{World}
use plynth.Exec.{Keeps, resume, Keeps-bind, pure}
use plynth.Credit.{
  post, get_or_create_wallet, grant, consume, reset_period, lock_wallet, is_wallet, is_replay,
  grant_amount, grant_features, grant_plan_credits, plan_features_of, credit_due, debit_wallet,
}
use plynth.Prelude.{
  ℕ, ℤ, pos, ◌+ℤ◌, ◌-ℤ◌, List, [], ◌∷◌, ◌≡◌, ◌∙◌, ◌==◌, All, if◌then◌else◌, refl, Option-cases, inl,
  inr, sym, Bool-cases, ap, String, find?, Option, some, none, eq_ℤ, subst, ltb_ℤ, leb_ℤ, map,
  All-select_kept,
}

module _ (numeric : ℤ → ℤ) where
  -- A feature's amount is one that a column has kept.
  abbrev pub HasScaled : Option ℤ → Type 0
  HasScaled none = Unit
  HasScaled (some a) = IsScaled numeric a

  -- All entries, and the amounts of all features of plans, have at most four digits.
  abbrev pub Scaled : World → Type 0
  Scaled w =
      All (λ e. IsScaled numeric e.amount) w.ledger
      × All (λ f. HasScaled f.credit_amount) w.plan_features

  module _ (rounding : IsRounding numeric) where
    pub sum-IsScaled :
        (i : ℕ) (es : List CreditLedger)
        → All (λ e. IsScaled numeric e.amount) es
        → IsScaled numeric (ledger_sum i es)
    sum-IsScaled i [] h = rounding.zero_scaled
    sum-IsScaled i (e ∷ es) h = elim (Bool-cases (e.wallet_id == i)) [
      | inl own ↦
          rw own (rounding.add_scaled e.amount (ledger_sum i es) h.0 (sum-IsScaled i es h.1))
      | inr other ↦ rw other (sum-IsScaled i es h.1)
    ]

    pub sum-stored :
        (i : ℕ) (es : List CreditLedger)
        → All (λ e. IsScaled numeric e.amount) es
        → ledger_sum i (map (stored_entry numeric) es) ≡ ledger_sum i es
    sum-stored i [] h = refl
    sum-stored i (e ∷ es) h =
        λ j. if e.wallet_id == i then h.0 j +ℤ sum-stored i es h.1 j else sum-stored i es h.1 j

    create-Scaled : (t p : ℕ) (k : String) → Keeps Scaled (get_or_create_wallet t p k)
    unfolding get_or_create_wallet
    create-Scaled t p k w s = elim (Option-cases (find? (is_wallet t k) w.wallets)) [
      | inl new ↦ rw (new, get_or_create_wallet) s
      | inr (x, found) ↦ rw (found, get_or_create_wallet) s
    ]

    post-Scaled :
        (t p : ℕ) (x : CreditWallet) (ty : CreditEntryType) (a : ℤ) (reason ref : Option String)
        → IsScaled numeric a
        → Keeps Scaled (post t p x ty a reason ref)
    unfolding post
    post-Scaled t p x ty a reason ref fine w s = ((fine, s.0), s.1)

    pub grant-Scaled :
        (t p : ℕ) (k : String) (a : ℤ) (reason ref : Option String) (ty : CreditEntryType)
        → IsScaled numeric a
        → Keeps Scaled (grant t p k a reason ref ty)
    unfolding grant
    grant-Scaled t p k a reason ref ty fine w s =
        let (x, r, e) = get_or_create-found t p k w in
        let w' = (get_or_create_wallet t p k w).1 in
        let s' = create-Scaled t p k w s in
        rw (r, resume)
          (elim (Bool-cases (is_replay x.id ref w')) [
            | inl again ↦ rw again s'
            | inr fresh ↦
                rw fresh (
                  post-Scaled t p (record x { balance = x.balance +ℤ a }) ty a reason ref fine w'
                    s')
          ])

    negated : (a : ℤ) → IsScaled numeric a → IsScaled numeric (pos 0 -ℤ a)
    negated a = rounding.sub_scaled (pos 0) a rounding.zero_scaled

    debit-Scaled :
        (t p : ℕ) (a : ℤ) (reason ref : Option String) (x : CreditWallet)
        → IsScaled numeric a
        → Keeps Scaled (debit_wallet t p a reason ref x)
    unfolding debit_wallet
    debit-Scaled t p a reason ref x fine w s = elim (Bool-cases (x.product_id == p)) [
      | inl own ↦ elim (Bool-cases (is_replay x.id ref w)) [
        | inl again ↦ rw own (rw again s)
        | inr fresh ↦ elim (Bool-cases (ltb_ℤ x.balance a)) [
          | inl short ↦ rw own (rw fresh (rw short s))
          | inr covered ↦ rw own (
              rw fresh (
                rw covered (
                  post-Scaled t p (record x { balance = x.balance -ℤ a }) CreditEntryType.debit
                    (pos 0 -ℤ a) reason ref (negated a fine) w s)))
        ]
      ]
      | inr foreign ↦ rw foreign s
    ]

    pub consume-Scaled :
        (t p : ℕ) (k : String) (a : ℤ) (reason ref : Option String)
        → IsScaled numeric a
        → Keeps Scaled (consume t p k a reason ref)
    unfolding consume lock_wallet
    consume-Scaled t p k a reason ref fine w s = elim (Bool-cases (leb_ℤ a (pos 0))) [
      | inl bad ↦ rw (bad, consume) s
      | inr positive ↦ elim (Option-cases (find? (is_wallet t k) w.wallets)) [
        | inl missing ↦ rw (positive, consume) (rw missing s)
        | inr (x, e) ↦ rw (positive, consume) (rw e (debit-Scaled t p a reason ref x fine w s))
      ]
    ]

    pub reset-Scaled :
        (t p : ℕ) (k : String) (actor : Option ℕ) (w : World)
        → IsReconciled w
        → Scaled w
        → Scaled (reset_period t p k actor w).1
    unfolding reset_period lock_wallet post
    reset-Scaled t p k actor w h s = elim (Option-cases (find? (is_wallet t k) w.wallets)) [
      | inl missing ↦ rw missing s
      | inr (x, e) ↦
          let (b, i) = found-accounted t k x w h e in
          let fine : IsScaled numeric (pos 0 -ℤ x.balance) =
            negated x.balance (ap numeric b ∙ (sum-IsScaled x.id w.ledger s.0 ∙ sym b)) in
          elim (Bool-cases (x.product_id == p)) [
            | inl own ↦ elim (Bool-cases (eq_ℤ x.balance (pos 0))) [
              | inl empty ↦ rw e (rw own (rw empty s))
              | inr full ↦ rw e (rw own (rw full ((fine, s.0), s.1)))
            ]
            | inr foreign ↦ rw e (rw foreign s)
          ]
    ]

    credit_due-HasScaled : (f : PlanFeature) → HasScaled f.credit_amount → HasScaled (credit_due f)
    credit_due-HasScaled f h = elim (Option-cases f.credit_amount) [
      | inl bare ↦ rw bare tt
      | inr (a, amount) ↦ elim (Bool-cases (ltb_ℤ (pos 0) a)) [
        | inl due ↦ rw (amount, due) (subst HasScaled amount h)
        | inr nothing ↦ rw (amount, nothing) tt
      ]
    ]

    grant_amount-Scaled :
        (t p : ℕ) (plan : Plan) (ref k : String) (o : Option ℤ)
        → HasScaled o
        → Keeps Scaled (grant_amount t p plan ref k o)
    unfolding grant_amount
    grant_amount-Scaled t p plan ref k none fine w s = s
    grant_amount-Scaled t p plan ref k (some a) fine w s =
        Keeps-bind Scaled (grant t p k a _ _ CreditEntryType.grant) (λ _. pure tt)
          (grant-Scaled t p k a _ _ CreditEntryType.grant fine) (λ _ w' s'. s') w s

    grant_features-Scaled :
        (t p : ℕ) (plan : Plan) (ref : String) (fs : List PlanFeature)
        → All (λ f. HasScaled f.credit_amount) fs
        → Keeps Scaled (grant_features t p plan ref fs)
    unfolding grant_features
    grant_features-Scaled t p plan ref [] fine w s = s
    grant_features-Scaled t p plan ref (f ∷ fs) fine w s =
        Keeps-bind Scaled (grant_amount t p plan ref f.feature_key (credit_due f))
          (λ _. grant_features t p plan ref fs)
          (grant_amount-Scaled t p plan ref f.feature_key (credit_due f)
            (credit_due-HasScaled f fine.0))
          (λ _. grant_features-Scaled t p plan ref fs fine.1) w s

    plan_features-HasScaled :
        (plan : Plan) (fs : List PlanFeature) (w : World)
        → plan.features ≡ fs
        → All (λ f. HasScaled f.credit_amount) fs
        → Scaled w
        → All (λ f. HasScaled f.credit_amount) (plan_features_of plan w)
    unfolding plan_features_of
    plan_features-HasScaled plan [] w e fine s = rw e (
        All-select_kept (λ f. HasScaled f.credit_amount) (λ f. f.plan_id == plan.id) w.plan_features
          s.1)
    plan_features-HasScaled plan (f ∷ fs) w e fine s = rw e fine

    pub plan-Scaled :
        (t p : ℕ) (plan : Plan) (ref : String)
        → All (λ f. HasScaled f.credit_amount) plan.features
        → Keeps Scaled (grant_plan_credits t p plan ref)
    unfolding grant_plan_credits
    plan-Scaled t p plan ref fine w s =
        grant_features-Scaled t p plan ref (plan_features_of plan w)
          (plan_features-HasScaled plan plan.features w refl fine s) w s
