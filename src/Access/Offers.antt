-- ===== src/Access/Offers.antt =====
-- The picker of child tenants offers exactly what a request may act as (app/services/tenant.py and
-- app/core/dependencies.py).
use plynth.Access.{resolve_act_as}
use plynth.Access.ActAs.{Agrees}
use plynth.Tenant.Children.{
  AccessibleChild, annotate, global_block, has_global_perm, target_scoped_ids,
}
use plynth.Models.Tenant.{User, Tenant}
use plynth.World.{World}
use plynth.Exec.{ok, err, Result}
use plynth.Prelude.{
  false, ℕ, Bool, String, All, List, holds, ◌≡◌, any, ◌==◌, ◌&&◌, not, str_eq, is_none,
}

-- The request is let into a tenant that is not the user's home.
abbrev pub enters : User → Result Tenant → Bool
enters user (ok t) = not (t.id == user.tenant_id)
enters user (err e) = false

module _ (user : User) (w : World) (has_global : Bool)
    (perm : has_global_perm user w ≡ ok has_global) where
  entry : Tenant → AccessibleChild
  entry = annotate (global_block user w) has_global (target_scoped_ids user has_global w)

-- What a list of children promises: its rows are those of the live children of the home tenant in
-- the product; a slug is offered, as one that can be acted as, exactly if a request that acts as it
-- is let into a tenant other than the home; and each row says what such a request gets.
abbrev pub Offers : User → World → List AccessibleChild → ℕ → String → Type 0
Offers user w rows i slug =
    (any (λ row. row.id == i) rows
      ≡ any
          (λ c.
            ((c.product_id == user.product_id)
              && (holds c.parent_id user.tenant_id && is_none c.deleted_at))
            && (c.id == i))
          w.tenants)
    × (any (λ row. str_eq row.slug slug && row.can_act_as) rows
        ≡ enters user (resolve_act_as user slug w).0)
    × All (Agrees user w) rows
