-- ===== src/Audit.antt =====
-- app/services/audit.py: the write of an audit row by `record`.
pub mod Scope
use plynth.Prelude.{ℕ, String, Option, none, some, List, ◌∷◌, same_option, if◌then◌else◌}
use plynth.Models.Audit.{AuditLog}
use plynth.World.{Context}
use plynth.Exec.{Action, modify}

-- The keyword arguments of `record`, less `diff`.
pub record Entry : Type 0 where
  pub action : String
  pub actor_user_id : Option ℕ
  pub actor_ip : Option String
  pub resource_type : Option String
  pub resource_id : Option ℕ
  pub tenant_id : Option ℕ
  pub product_id : Option ℕ
  pub acting_from_tenant_id_override : Option ℕ

-- UUID("00000000-0000-0000-0000-000000000000")
abbrev pub nil_uuid : ℕ
nil_uuid = 0

-- `a or b`, of identifiers that may be None
abbrev pub or_else : Option ℕ → Option ℕ → Option ℕ
or_else none b = b
or_else (some a) b = some a

-- NIL stands for "no tenant scope".
unfoldable pub scope_tenant : Option ℕ → Option ℕ → Option ℕ
scope_tenant given current =
    let tid = or_else given current in if same_option tid (some nil_uuid) then none else tid

-- A tenant that acts for itself is not recorded as acting from another.
unfoldable pub acting_from : Option ℕ → Option ℕ → ℕ → Option ℕ
acting_from override current tid =
    let from = or_else override current in if same_option from (some tid) then none else from

unfoldable pub log_entry : Entry → Context → List AuditLog → List AuditLog
unfolding scope_tenant acting_from
log_entry e ctx log =
    let pid = or_else e.product_id ctx.current_product in
    elim (scope_tenant e.tenant_id ctx.current_tenant) [
      | none ↦ log
      | some tid ↦ elim pid [
        | none ↦ log
        | some p ↦
            record {
              product_id = p;
              tenant_id = tid;
              acting_from_tenant_id =
                  acting_from e.acting_from_tenant_id_override ctx.acting_from_tenant tid;
              actor_user_id = e.actor_user_id;
              actor_ip = e.actor_ip;
              action = e.action;
              resource_type = e.resource_type;
              resource_id = e.resource_id;
            }
            ∷ log
      ]
    ]

abbrev pub record_entry : Entry → Action (Unit {0})
record_entry e = modify (λ w. record w { audit_log = log_entry e w.ctx w.audit_log })

-- A call with the arguments that most services give.
abbrev pub event : String → Option ℕ → String → ℕ → Option ℕ → ℕ → Entry
event action actor type_ id tenant product = record {
  action = action;
  actor_user_id = actor;
  actor_ip = none;
  resource_type = some type_;
  resource_id = some id;
  tenant_id = tenant;
  product_id = some product;
  acting_from_tenant_id_override = none;
}
