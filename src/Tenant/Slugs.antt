-- ===== src/Tenant/Slugs.antt =====
-- app/services/tenant.py, `create_tenant`: slugs stay unique.
use plynth.Access.{is_live_slug}
use plynth.Component.Unique.{AtMostOne}
use plynth.Context.{bypass_product, bypass_tenant}
use plynth.Tenant.{create_tenant, TenantData, add_tenant, check_parent, new_tenant}
use plynth.World.{World, next_id}
use plynth.Prelude.{
  ◌∷◌, some, none, true, false, inl, inr, refl, ℕ, String, All, holds, ◌≡◌, find?, Option-cases,
  Option, eq_iff, ◌==◌, and_left, Bool-cases, ==_true, and_right, sym, ◌∙◌, str_eq,
}
use plynth.Exec.{Result-cases, resume}

-- The unique index `uq_tenants_product_slug_alive`: one live tenant for a slug of a product.
abbrev pub UniqueSlugs : ℕ → World → Type 0
UniqueSlugs product_id w = (slug : String) → AtMostOne (is_live_slug product_id slug) w.tenants

-- No tenant is its own parent.
abbrev pub NoSelfParent : World → Type 0
NoSelfParent w = All (λ t. holds t.parent_id t.id ≡ false) w.tenants

check_parent-unchanged : (p : ℕ) (o : Option ℕ) (w : World) → (check_parent p o w).1 ≡ w
unfolding check_parent
check_parent-unchanged p none w = refl
check_parent-unchanged p (some i) w = elim (Option-cases (find? (λ t. t.id == i) w.tenants)) [
  | inl gone ↦ rw (gone, check_parent) refl
  | inr (t, found) ↦
      rw (found, check_parent)
        (elim (Bool-cases (t.product_id == p)) [
          | inl mine ↦ rw mine (elim (Bool-cases t.is_root) [
            | inl root ↦ rw root refl
            | inr nested ↦ rw nested refl
          ])
          | inr other ↦ rw other refl
        ])
]

slug_free :
    (p q : ℕ) (d : TenantData) (w : World) (slug : String)
    → find? (is_live_slug p d.slug) w.tenants ≡ none
    → str_eq d.slug slug ≡ true
    → p ≡ q
    → find? (is_live_slug q slug) w.tenants ≡ none
slug_free p q d w slug free same_slug same_product =
    let same = (eq_iff d.slug slug).0 same_slug in
    (λ i. find? (is_live_slug (sym same_product i) (sym same i)) w.tenants) ∙ free

-- The row that `add_tenant` writes takes a slug that no live row has.
new-UniqueSlugs :
    (p q : ℕ) (d : TenantData) (w : World) (id time : ℕ)
    → find? (is_live_slug p d.slug) w.tenants ≡ none
    → UniqueSlugs q w
    → (slug : String) → AtMostOne (is_live_slug q slug) (new_tenant id time p d ∷ w.tenants)
new-UniqueSlugs p q d w id time free unique slug = (
  λ h. slug_free p q d w slug free (and_left _ _ h) (==_true p q (and_left _ _ (and_right _ _ h))),
  unique slug,
)

add_tenant-UniqueSlugs :
    (p q : ℕ) (d : TenantData) (w : World) → UniqueSlugs q w → UniqueSlugs q (add_tenant p d w).1
unfolding add_tenant
add_tenant-UniqueSlugs p q d w unique =
    elim (Option-cases (find? (is_live_slug p d.slug) w.tenants)) [
      | inr (t, taken) ↦ rw (taken, add_tenant) unique
      | inl free ↦
          rw (free, add_tenant)
            (elim (Result-cases (check_parent p d.parent_id w).0) [
              | inl (_, checked) ↦
                  rw (checked, resume)
                    (rw (check_parent-unchanged p d.parent_id w)
                      (new-UniqueSlugs p q d w (next_id w) w.env.now free unique))
              | inr (e, failed) ↦
                  rw (failed, resume) (rw (check_parent-unchanged p d.parent_id w) unique)
            ])
    ]

-- If the live tenants of a product have different slugs, they still do after a call that creates a
-- tenant, in that product or in another, whether it returns or raises.
pub create_tenant-UniqueSlugs :
    (product_id other : ℕ) (d : TenantData) (w : World)
    → UniqueSlugs other w
    → UniqueSlugs other (create_tenant product_id d w).1
unfolding create_tenant bypass_product bypass_tenant
create_tenant-UniqueSlugs p q d w unique =
    add_tenant-UniqueSlugs p q d
      (record w { ctx = record (w.ctx) { bypass_tenant_var = true; bypass_product_var = true } })
      unique
