-- ===== src/Models/Credit.antt =====
-- app/models/credit.py
use plynth.Prelude.{ℕ, ℤ, String, Option}

pub data CreditEntryType : Type 0 where
  grant debit refund expiry adjustment : CreditEntryType

pub record CreditWallet : Type 0 where
  pub id : ℕ
  pub product_id : ℕ
  pub tenant_id : ℕ
  pub feature_key : String
  pub balance : ℤ
  pub period_start : Option ℕ
  pub period_end : Option ℕ

-- A positive amount credits the wallet, a negative one debits it.
pub record CreditLedger : Type 0 where
  pub product_id : ℕ
  pub tenant_id : ℕ
  pub wallet_id : ℕ
  pub entry_type : CreditEntryType
  pub amount : ℤ
  pub balance_after : ℤ
  pub reason : Option String
  pub reference : Option String
