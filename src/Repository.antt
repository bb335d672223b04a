-- ===== src/Repository.antt =====
-- app/repositories/base.py: reads and writes that are scoped by the request's product and tenant.
pub mod Isolation
-- A mapped class: its table, and the columns that the mixins add, if it has them. A column of an
-- object that was not added yet may be unset.
use plynth.World.{World}
use plynth.Exec.{
  ok, err, Action, Result, ◌>>=◌, ◌>>◌, modify, gets, pure, or_raise, runtime_error, not_found,
}
use plynth.Prelude.{
  ◌∷◌, some, none, true, ℕ, Bool, Option, List, ◌≡◌, holds, if◌then◌else◌, ◌&&◌, not, remove,
  select, find?, take, ◌==◌, drop,
}

pub record Model (A : Type 0) : Type 0 where
  pub rows : World → List A
  pub set_rows : List A → World → World
  pub id : A → ℕ
  pub has_product : Bool
  pub has_tenant : Bool
  pub product_id : A → Option ℕ
  pub tenant_id : A → Option ℕ
  pub set_product_id : ℕ → A → A
  pub set_tenant_id : ℕ → A → A

-- What the columns promise: what is set is read, and the two do not disturb each other.
pub record IsModel {A : Type 0} (m : Model A) : Type 0 where
  pub product-set : (p : ℕ) (a : A) → m.product_id (m.set_product_id p a) ≡ some p
  pub tenant-set : (t : ℕ) (a : A) → m.tenant_id (m.set_tenant_id t a) ≡ some t
  pub product-set_tenant : (t : ℕ) (a : A) → m.product_id (m.set_tenant_id t a) ≡ m.product_id a
  pub rows-set : (xs : List A) (w : World) → m.rows (m.set_rows xs w) ≡ xs

-- One filter of `_stmt`: none for a model without the column or in a bypass block, an error without
-- a current value.
unfoldable pub scope_filter : Bool → Bool → Option ℕ → Result (Option ℕ)
scope_filter has bypass current =
    if has && not bypass
    then (elim current [ none ↦ err runtime_error | some i ↦ ok (some i) ])
    else ok none

abbrev pub passes : Option ℕ → Option ℕ → Bool
passes none column = true
passes (some i) column = holds column i

module _ {A : Type 0} (m : Model A) where
  -- `_stmt`: the rows that it selects, or the error
  unfoldable pub stmt : Action (List A)
  stmt = do
    pid ← λ w. (scope_filter m.has_product w.ctx.bypass_product_var w.ctx.current_product, w)
    tid ← λ w. (scope_filter m.has_tenant w.ctx.bypass_tenant_var w.ctx.current_tenant, w)
    gets (λ w. select (λ a. passes pid (m.product_id a) && passes tid (m.tenant_id a)) (m.rows w))

  -- `TenantRepository.get`
  unfoldable pub get : ℕ → Action (Option A)
  get id_ = do rows ← stmt; pure (find? (λ a. m.id a == id_) rows)

  -- `get_or_404`
  unfoldable pub get_or_404 : ℕ → Action A
  get_or_404 id_ = do obj ← get id_; or_raise obj not_found

  -- `TenantRepository.list`
  unfoldable pub list : ℕ → ℕ → Action (List A)
  list limit offset = do rows ← stmt; pure (take limit (drop offset rows))

  -- `super().add`
  abbrev pub insert : A → Action A
  insert obj w = (ok obj, m.set_rows (obj ∷ m.rows w) w)

  -- The part of `add` for one column: its value is filled in, or has to be the current one.
  unfoldable pub fill : Option ℕ → Option ℕ → (ℕ → A → A) → A → Result A
  fill none column set obj = err runtime_error
  fill (some i) none set obj = ok (set i obj)
  fill (some i) (some j) set obj = if j == i then ok obj else err runtime_error

  unfoldable pub fill_product : A → Action A
  fill_product obj w =
      if m.has_product && not w.ctx.bypass_product_var
      then (fill w.ctx.current_product (m.product_id obj) m.set_product_id obj, w)
      else (ok obj, w)

  unfoldable pub fill_tenant : A → Action A
  fill_tenant obj w =
      if not w.ctx.bypass_tenant_var
      then (fill w.ctx.current_tenant (m.tenant_id obj) m.set_tenant_id obj, w)
      else (ok obj, w)

  -- `TenantRepository.add`
  unfoldable pub add : A → Action A
  add obj = do
    with_product ← fill_product obj
    with_tenant ← fill_tenant with_product
    insert with_tenant

  unfoldable pub delete : A → Action (Unit {0})
  delete obj = modify (λ w. m.set_rows (remove m.id (m.id obj) (m.rows w)) w)
