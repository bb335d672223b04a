-- ===== src/Credit.antt =====
-- app/services/credit.py: grants to and debits of a tenant's wallets, each with a ledger entry.
pub mod Ledger
pub mod Stored
pub mod Scaled
pub mod Session
pub mod Frame
pub mod Replay
pub mod Debit
pub mod Periods
use plynth.Prelude.{
  ℕ, ◌+◌, ◌*◌, ℤ, pos, ◌+ℤ◌, ◌-ℤ◌, leb_ℤ, ltb_ℤ, String, ◌<>◌, Bool, false, not, ◌&&◌, Option, none,
  some, List, [], ◌∷◌, ◌==◌, str_eq, holds_text, is_text, find?, select, any, save, if◌then◌else◌,
  eq_ℤ,
}
use plynth.Models.Credit.{CreditWallet, CreditLedger, CreditEntryType}
use plynth.Models.Plan.{Plan, PlanFeature}
use plynth.World.{World}
use plynth.Exec.{
  ◌>>=◌, ◌>>◌, Action, pure, gets, or_raise, raise_if, modify, new_id, ◌>>=◌, ◌>>◌, now,
  value_error, ok, not_found, insufficient_credits,
}
use plynth.Audit.{event, record_entry}

abbrev pub day : ℕ
day = 86400

abbrev pub is_wallet : ℕ → String → CreditWallet → Bool
is_wallet tenant_id feature_key w = (w.tenant_id == tenant_id) && str_eq w.feature_key feature_key

abbrev pub new_wallet : ℕ → ℕ → ℕ → String → CreditWallet
new_wallet id tenant_id product_id feature_key = record {
  id = id;
  product_id = product_id;
  tenant_id = tenant_id;
  feature_key = feature_key;
  balance = pos 0;
  period_start = none;
  period_end = none;
}

-- `_get_or_create_wallet`
unfoldable pub get_or_create_wallet : ℕ → ℕ → String → Action CreditWallet
get_or_create_wallet tenant_id product_id feature_key w =
    elim (find? (is_wallet tenant_id feature_key) w.wallets) [
      | some wallet ↦ (pure wallet) w
      | none ↦
          (do
            id ← new_id
            let wallet = new_wallet id tenant_id product_id feature_key
            modify (λ s. record s { wallets = wallet ∷ s.wallets })
            pure wallet)
            w
    ]

-- `_lock_wallet`
unfoldable pub lock_wallet : ℕ → String → Action CreditWallet
lock_wallet tenant_id feature_key w =
    (or_raise (find? (is_wallet tenant_id feature_key) w.wallets) not_found) w

abbrev pub has_reference : ℕ → String → CreditLedger → Bool
has_reference wallet_id reference e = (e.wallet_id == wallet_id) && holds_text e.reference reference

-- `_was_referenced`
unfoldable pub was_referenced : ℕ → String → World → Bool
was_referenced wallet_id reference w = any (has_reference wallet_id reference) w.ledger

-- `reference and await _was_referenced(...)`
unfoldable pub is_replay : ℕ → Option String → World → Bool
is_replay wallet_id none w = false
is_replay wallet_id (some reference) w = is_text reference && was_referenced wallet_id reference w

-- The write of a wallet's new balance and of the ledger entry for it.
unfoldable pub post :
    ℕ → ℕ → CreditWallet → CreditEntryType → ℤ → Option String → Option String → Action CreditWallet
post tenant_id product_id wallet entry_type amount reason reference w =
    let entry : CreditLedger = record {
      product_id = product_id;
      tenant_id = tenant_id;
      wallet_id = wallet.id;
      entry_type = entry_type;
      amount = amount;
      balance_after = wallet.balance;
      reason = reason;
      reference = reference;
    } in
    (ok wallet, record w { wallets = save (λ x. x.id) wallet w.wallets; ledger = entry ∷ w.ledger })

unfoldable pub grant :
    ℕ → ℕ → String → ℤ → Option String → Option String → CreditEntryType → Action CreditWallet
grant tenant_id product_id feature_key amount reason reference entry_type = do
  wallet ← get_or_create_wallet tenant_id product_id feature_key
  replay ← gets (is_replay wallet.id reference)
  if replay
      then pure wallet
      else post tenant_id product_id (record wallet { balance = wallet.balance +ℤ amount })
          entry_type amount reason reference

-- The body of `consume` once the wallet is locked
unfoldable pub debit_wallet :
    ℕ → ℕ → ℤ → Option String → Option String → CreditWallet → Action CreditWallet
debit_wallet tenant_id product_id amount reason reference wallet = do
  raise_if (not (wallet.product_id == product_id)) not_found
  replay ← gets (is_replay wallet.id reference)
  if replay then pure wallet else do
    raise_if (ltb_ℤ wallet.balance amount) insufficient_credits
    post tenant_id product_id (record wallet { balance = wallet.balance -ℤ amount })
        CreditEntryType.debit (pos 0 -ℤ amount) reason reference

unfoldable pub consume : ℕ → ℕ → String → ℤ → Option String → Option String → Action CreditWallet
consume tenant_id product_id feature_key amount reason reference = do
  raise_if (leb_ℤ amount (pos 0)) value_error
  wallet ← lock_wallet tenant_id feature_key
  debit_wallet tenant_id product_id amount reason reference wallet

-- `if feat.credit_amount and feat.credit_amount > 0`, and the amount
abbrev pub credit_due : PlanFeature → Option ℤ
credit_due feat = elim feat.credit_amount [
  | none ↦ none
  | some a ↦ if ltb_ℤ (pos 0) a then some a else none
]

unfoldable pub grant_amount : ℕ → ℕ → Plan → String → String → Option ℤ → Action (Unit {0})
grant_amount tenant_id product_id plan reference feature_key none = pure tt
grant_amount tenant_id product_id plan reference feature_key (some amount) =
    grant tenant_id product_id feature_key amount (some ("plan:" <> plan.code))
      (some (reference <> ":" <> feature_key)) CreditEntryType.grant
    >> pure tt

-- The loop over the plan's features
unfoldable pub grant_features : ℕ → ℕ → Plan → String → List PlanFeature → Action (Unit {0})
grant_features tenant_id product_id plan reference [] = pure tt
grant_features tenant_id product_id plan reference (feat ∷ rest) =
    grant_amount tenant_id product_id plan reference feat.feature_key (credit_due feat)
    >> grant_features tenant_id product_id plan reference rest

-- The features loaded with the plan, or else those of the table
unfoldable pub plan_features_of : Plan → World → List PlanFeature
plan_features_of plan w = elim plan.features [
  | [] ↦ select (λ f. f.plan_id == plan.id) w.plan_features
  | f ∷ fs ↦ f ∷ fs
]

unfoldable pub grant_plan_credits : ℕ → ℕ → Plan → String → Action (Unit {0})
grant_plan_credits tenant_id product_id plan reference = do
  features ← gets (plan_features_of plan)
  grant_features tenant_id product_id plan reference features

unfoldable pub reset_period : ℕ → ℕ → String → Option ℕ → Action CreditWallet
reset_period tenant_id product_id feature_key actor_user_id = do
  wallet ← lock_wallet tenant_id feature_key
  raise_if (not (wallet.product_id == product_id)) not_found
  if eq_ℤ wallet.balance (pos 0) then pure wallet else do
    time ← now
    wallet' ←
        post tenant_id product_id
          (record wallet {
            balance = pos 0;
            period_start = some time;
            period_end = some (time + 30 * day);
          })
          CreditEntryType.expiry (pos 0 -ℤ wallet.balance) (some "period_reset") none
    record_entry (
        event "credits.period_reset" actor_user_id "credit_wallet" wallet.id (some tenant_id)
          product_id)
    pure wallet'
