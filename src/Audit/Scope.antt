-- ===== src/Audit/Scope.antt =====
-- Whom an audit row names (app/services/audit.py, `record`).
-- The row has a tenant, and does not say that this tenant acted from itself.
use plynth.World.{Context}
use plynth.Audit.{scope_tenant, acting_from, log_entry, Entry, nil_uuid, or_else}
use plynth.Models.Audit.{AuditLog}
use plynth.Prelude.{
  some, none, inl, inr, ◌≢◌, Option, ℕ, ◌≡◌, if◌then◌else◌, List, same_option, All, arith,
  Option-cases,
}

abbrev pub IsScoped : AuditLog → Type 0
IsScoped e = (e.tenant_id ≢ nil_uuid) × (e.acting_from_tenant_id ≢ some e.tenant_id)

scope_tenant_lem :
    (given current : Option ℕ) (t : ℕ) → scope_tenant given current ≡ some t → t ≢ nil_uuid
unfolding scope_tenant
scope_tenant_lem given current t = go (or_else given current)
  where
    go :
        (o : Option ℕ) → (if same_option o (some nil_uuid) then none else o) ≡ some t → t ≢ nil_uuid
    go none e is_nil = cc
    go (some a) e is_nil = ground arith

acting_from_lem : (override current : Option ℕ) (t : ℕ) → acting_from override current t ≢ some t
unfolding acting_from
acting_from_lem override current t = go (or_else override current)
  where
    go : (o : Option ℕ) → (if same_option o (some t) then none else o) ≢ some t
    go none e = cc
    go (some a) e = ground arith

-- Every audit row names a tenant other than the nil identifier, and no row says that its tenant
-- acted from itself: `record` keeps this, whatever the arguments and the context.
pub log_entry-IsScoped :
    (e : Entry) (ctx : Context) (log : List AuditLog)
    → All IsScoped log
    → All IsScoped (log_entry e ctx log)
unfolding log_entry
log_entry-IsScoped e ctx log h = elim (Option-cases (scope_tenant e.tenant_id ctx.current_tenant)) [
  | inl no_tenant ↦ rw (no_tenant, log_entry) h
  | inr (t, scoped) ↦ elim (Option-cases (or_else e.product_id ctx.current_product)) [
    | inl no_product ↦ rw (scoped, log_entry) (rw no_product h)
    | inr (p, found) ↦
        rw (scoped, log_entry)
          (rw found (
            (
              scope_tenant_lem e.tenant_id ctx.current_tenant t scoped,
              acting_from_lem e.acting_from_tenant_id_override ctx.acting_from_tenant t,
            ),
            h,
          ))
  ]
]
