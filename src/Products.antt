-- ===== src/Products.antt =====
-- app/services/product.py
use plynth.Exec.{
  Action, ◌>>=◌, ◌>>◌, gets, raise_if, or_raise, not_found, conflict, pure, new_id, modify,
}
use plynth.Models.Tenant.{ProductStatus, Product}
use plynth.World.{World}
use plynth.Prelude.{
  ◌∷◌, some, none, true, false, String, ℕ, Option, List, Bool, str_eq, find?, select, ℤ, ◌&&◌,
  is_none, ◌==◌, is_some,
}

abbrev pub is_live_product : String → Product → Bool
is_live_product slug p = str_eq p.slug slug && is_none p.deleted_at

unfoldable pub get_by_slug : String → World → Option Product
get_by_slug slug w = find? (is_live_product slug) w.products

unfoldable pub list_products : World → List Product
list_products w = select (λ p. is_none p.deleted_at) w.products

unfoldable pub get_or_404 : ℕ → Action Product
get_or_404 product_id = do
  found ← gets (λ w. find? (λ p. p.id == product_id) w.products)
  product ← or_raise found not_found
  raise_if (is_some product.deleted_at) not_found
  pure product

-- `settings` is given by the entries that the code reads.
unfoldable pub create_product : String → Option Bool → Option ℤ → Action Product
create_product slug allow_parent_child_access refresh_ttl_days = do
  existing ← gets (get_by_slug slug)
  raise_if (is_some existing) conflict
  id ← new_id
  let product : Product = record {
    id = id;
    slug = slug;
    status = ProductStatus.active;
    allow_parent_child_access = allow_parent_child_access;
    refresh_ttl_days = refresh_ttl_days;
    deleted_at = none;
  }
  modify (λ w. record w { products = product ∷ w.products })
  pure product

abbrev pub is_active_product : ProductStatus → Bool
is_active_product ProductStatus.active = true
is_active_product ProductStatus.disabled = false
is_active_product ProductStatus.archived = false

-- `resolve_slug_to_id`: what Redis answers is a parameter, none for a miss or an error.
unfoldable pub resolve_slug_to_id :
    (String → Option (ℕ × ProductStatus)) → String → World → Option (ℕ × ProductStatus)
resolve_slug_to_id cache slug w = elim (cache slug) [
  | some cached ↦ some cached
  | none ↦ elim (get_by_slug slug w) [ none ↦ none | some p ↦ some (p.id, p.status) ]
]
