-- ===== src/Credit/Frame.antt =====
-- A grant writes wallets and ledger entries, and nothing else (app/services/credit.py).
use plynth.Exec.{resume, Keeps, Keeps-bind, pure}
use plynth.Credit.Ledger.{get_or_create-found}
use plynth.Models.Credit.{CreditEntryType, CreditWallet, CreditLedger}
use plynth.Models.Plan.{Plan, PlanFeature}
use plynth.Credit.{
  get_or_create_wallet, grant, grant_amount, grant_features, post, is_wallet, is_replay,
  grant_plan_credits, new_wallet, plan_features_of, credit_due,
}
use plynth.World.{World, next_id}
use plynth.Prelude.{
  [], ◌∷◌, some, none, inl, inr, refl, ◌≡◌, ℕ, String, Option-cases, ℤ, Option, List, find?,
  Bool-cases, ap, ◌+ℤ◌, ◌+◌,
}

-- `w'` differs from `w` only in the wallets, the ledger and the identifiers drawn.
abbrev pub OnlyCredits : World → World → Type 0
OnlyCredits w w' = w' ≡ record w { wallets = w'.wallets; ledger = w'.ledger; drawn = w'.drawn }

module _ (w₀ : World) where
  write-OnlyCredits :
      (w : World) (ws : List CreditWallet) (es : List CreditLedger) (d : ℕ)
      → OnlyCredits w₀ w
      → OnlyCredits w₀ (record w { wallets = ws; ledger = es; drawn = d })
  write-OnlyCredits w ws es d e =
      ap {A = World} (λ v. record v { wallets = ws; ledger = es; drawn = d }) e

  create-OnlyCredits : (t p : ℕ) (k : String) → Keeps (OnlyCredits w₀) (get_or_create_wallet t p k)
  unfolding get_or_create_wallet
  create-OnlyCredits t p k w e = elim (Option-cases (find? (is_wallet t k) w.wallets)) [
    | inl new ↦
        rw (new, get_or_create_wallet)
          (write-OnlyCredits w (new_wallet (next_id w) t p k ∷ w.wallets) w.ledger (w.drawn + 1) e)
    | inr (y, found) ↦ rw (found, get_or_create_wallet) e
  ]

  post-OnlyCredits :
      (t p : ℕ) (x : CreditWallet) (ty : CreditEntryType) (a : ℤ) (reason ref : Option String)
      → Keeps (OnlyCredits w₀) (post t p x ty a reason ref)
  unfolding post
  post-OnlyCredits t p x ty a reason ref w e = write-OnlyCredits w _ _ w.drawn e

  pub grant-OnlyCredits :
      (t p : ℕ) (k : String) (a : ℤ) (reason ref : Option String) (ty : CreditEntryType)
      → Keeps (OnlyCredits w₀) (grant t p k a reason ref ty)
  unfolding grant
  grant-OnlyCredits t p k a reason ref ty w e =
      let (x, res, _) = get_or_create-found t p k w in
      let w' = (get_or_create_wallet t p k w).1 in
      rw (res, resume)
        (elim (Bool-cases (is_replay x.id ref w')) [
          | inl again ↦ rw again (create-OnlyCredits t p k w e)
          | inr fresh ↦ rw fresh (
              post-OnlyCredits t p (record x { balance = x.balance +ℤ a }) ty a reason ref w'
                (create-OnlyCredits t p k w e))
        ])

  grant_amount-OnlyCredits :
      (t p : ℕ) (plan : Plan) (ref k : String) (o : Option ℤ)
      → Keeps (OnlyCredits w₀) (grant_amount t p plan ref k o)
  unfolding grant_amount
  grant_amount-OnlyCredits t p plan ref k none w e = e
  grant_amount-OnlyCredits t p plan ref k (some a) w e =
      Keeps-bind (OnlyCredits w₀) (grant t p k a _ _ CreditEntryType.grant) (λ _. pure tt)
        (grant-OnlyCredits t p k a _ _ CreditEntryType.grant) (λ _ w' h'. h') w e

  pub grant_features-OnlyCredits :
      (t p : ℕ) (plan : Plan) (ref : String) (fs : List PlanFeature)
      → Keeps (OnlyCredits w₀) (grant_features t p plan ref fs)
  unfolding grant_features
  grant_features-OnlyCredits t p plan ref [] w e = e
  grant_features-OnlyCredits t p plan ref (f ∷ fs) w e =
      Keeps-bind (OnlyCredits w₀) (grant_amount t p plan ref f.feature_key (credit_due f))
        (λ _. grant_features t p plan ref fs)
        (grant_amount-OnlyCredits t p plan ref f.feature_key (credit_due f))
        (λ _. grant_features-OnlyCredits t p plan ref fs) w e

-- The grants of a plan's credits leave all other tables, the context and the clock as they were.
pub grant_plan_credits-OnlyCredits :
    (t p : ℕ) (plan : Plan) (ref : String) (w : World)
    → OnlyCredits w (grant_plan_credits t p plan ref w).1
unfolding grant_plan_credits
grant_plan_credits-OnlyCredits t p plan ref w =
    grant_features-OnlyCredits w t p plan ref (plan_features_of plan w) w refl
