-- ===== src/Tests/Rows.antt =====
-- Runs of a repository, of the collections of the document store.
use plynth.Models.Storage.{StorageCollection}
use plynth.Repository.Isolation.{InContext, get_or_404-InContext, add-InContext}
use plynth.World.{World, empty_world}
use plynth.Repository.{
  Model, IsModel, get_or_404, add, get, fill_product, stmt, fill_tenant, scope_filter, fill,
}
use plynth.Samples.{prefs}
use plynth.Prelude.{[], ◌∷◌, some, true, refl, ◌≡◌}
use plynth.Exec.{ok}

abbrev collections_model : Model StorageCollection
collections_model = record {
  rows = λ w. w.collections;
  set_rows = λ xs w. record w { collections = xs };
  id = λ c. c.id;
  has_product = true;
  has_tenant = true;
  product_id = λ c. some c.product_id;
  tenant_id = λ c. some c.tenant_id;
  set_product_id = λ p c. record c { product_id = p };
  set_tenant_id = λ t c. record c { tenant_id = t };
}

collections_model-IsModel : IsModel collections_model
collections_model-IsModel = record {
  product-set = λ p a. refl;
  tenant-set = λ t a. refl;
  product-set_tenant = λ t a. refl;
  rows-set = λ xs w. refl;
}

-- A request of tenant 1, with a collection of its own and one of tenant 7
abbrev asked : World
asked = record empty_world {
  ctx = record (empty_world.ctx) { current_product = some 9; current_tenant = some 1 };
  collections = record prefs { id = 30; tenant_id = 7 } ∷ prefs ∷ [];
}

prefs_found : (get_or_404 collections_model prefs.id asked).0 ≡ ok prefs
unfolding get_or_404 get stmt scope_filter
prefs_found = refl

get_or_404-InContext_example :
    InContext collections_model asked prefs
    × (prefs.id ≡ prefs.id)
    × ((get_or_404 collections_model prefs.id asked).1 ≡ asked)
get_or_404-InContext_example =
    get_or_404-InContext collections_model prefs.id prefs asked (refl, refl, refl, refl) prefs_found

prefs_added : (add collections_model prefs asked).0 ≡ ok prefs
unfolding add fill_product fill_tenant fill
prefs_added = refl

add-InContext_example :
    InContext collections_model asked prefs
    × ((add collections_model prefs asked).1.collections ≡ prefs ∷ asked.collections)
add-InContext_example =
    add-InContext collections_model prefs prefs asked collections_model-IsModel
      (refl, refl, refl, refl) prefs_added
