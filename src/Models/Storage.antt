-- ===== src/Models/Storage.antt =====
-- app/models/storage.py
use plynth.Prelude.{ℕ, ℤ, String, Option}

pub record StorageCollection : Type 0 where
  pub id : ℕ
  pub product_id : ℕ
  pub tenant_id : ℕ
  pub name : String
  pub default_ttl_seconds : ℤ
  pub description : Option String

pub record StorageDocument : Type 0 where
  pub id : ℕ
  pub product_id : ℕ
  pub tenant_id : ℕ
  pub collection_id : ℕ
  pub key : String
  pub value : String
  pub version : ℕ
  pub expires_at : Option ℕ
  pub updated_at : ℕ
