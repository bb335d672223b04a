-- ===== src/Storage/Reads.antt =====
-- What reads of documents show (app/services/storage.py).
use plynth.World.{World}
use plynth.Models.Storage.{StorageDocument, StorageCollection}
use plynth.Storage.{
  insert_oldest, oldest_first, list_documents, is_listed_document, get_collection, is_collection,
}
use plynth.Exec.{ok, resume, ok-injective}
use plynth.Prelude.{
  [], ◌∷◌, some, true, inl, inr, refl, ℕ, String, Bool, List, ◌≡◌, Option, All, Bool-cases, ==_true,
  ℤ, ltb, and_left, and_right, find?, length, ◌≤◌, Option-cases, max, min, pos_part, select, subst,
  All-take, All-map, All-select, arith, length-take_le,
}

insert_oldest-All :
    (P : StorageDocument → Type 0) (d : StorageDocument) (ds : List StorageDocument)
    → P d
    → All P ds
    → All P (insert_oldest d ds)
unfolding insert_oldest
insert_oldest-All P d [] h hs = (h, tt)
insert_oldest-All P d (e ∷ es) h hs = elim (Bool-cases (ltb e.updated_at d.updated_at)) [
  | inl older ↦ rw (older, insert_oldest) (hs.0, insert_oldest-All P d es h hs.1)
  | inr first ↦ rw (first, insert_oldest) (h, hs)
]

oldest_first-All :
    (P : StorageDocument → Type 0) (ds : List StorageDocument) → All P ds → All P (oldest_first ds)
unfolding oldest_first
oldest_first-All P [] h = tt
oldest_first-All P (d ∷ ds) h =
    insert_oldest-All P d (oldest_first ds) h.0 (oldest_first-All P ds h.1)

-- A document of a product, a tenant and a collection.
abbrev pub IsIn : ℕ → ℕ → ℕ → StorageDocument → Type 0
IsIn p t c d = (d.product_id ≡ p) × (d.tenant_id ≡ t) × (d.collection_id ≡ c)

module _ (like : String → String → Bool) where
  listed-IsIn :
      (p t c : ℕ) (since : Option ℕ) (prefix : Option String) (d : StorageDocument)
      → is_listed_document like p t c since prefix d ≡ true
      → IsIn p t c d
  listed-IsIn p t c since prefix d h = (
    ==_true d.product_id p (and_left _ _ h),
    ==_true d.tenant_id t (and_left _ _ (and_right _ _ h)),
    ==_true d.collection_id c (and_left _ _ (and_right _ _ (and_right _ _ h))),
  )

  -- A list of documents that returns changes nothing, names only documents of the collection with
  -- the name asked for, of the product and tenant that asked, and 500 at most, whatever LIKE does.
  pub list_documents-IsIn :
      (p t : ℕ) (name : String) (since : Option ℕ) (prefix : Option String) (limit : ℤ)
      (ds : List StorageDocument) (w : World)
      → (list_documents like p t name since prefix limit w).0 ≡ ok ds
      → (coll : StorageCollection) × (find? (is_collection p t name) w.collections ≡ some coll)
        × All (IsIn p t coll.id) ds
        × (length ds ≤ 500)
        × ((list_documents like p t name since prefix limit w).1 ≡ w)
  unfolding list_documents get_collection
  list_documents-IsIn p t name since prefix limit ds w =
      elim (Option-cases (find? (is_collection p t name) w.collections)) [
        | inl unknown ↦ rw (unknown, resume) (λ done. cc)
        | inr (coll, found) ↦
            rw (found, resume)
              (λ done.
                let listed = is_listed_document like p t coll.id since prefix in
                let n = max 1 (min (pos_part limit) 500) in
                let rows = oldest_first (select listed w.documents) in
                (
                  coll,
                  refl,
                  subst (All (IsIn p t coll.id)) (ok-injective done) (
                      All-take (IsIn p t coll.id) n rows (
                        oldest_first-All (IsIn p t coll.id) (select listed w.documents) (
                          All-map (λ d. listed d ≡ true) (IsIn p t coll.id)
                            (select listed w.documents) (listed-IsIn p t coll.id since prefix)
                            (All-select listed w.documents)))),
                  subst (λ v. length v ≤ 500) (ok-injective done)
                      (omega (arith, length-take_le n rows)),
                  refl,
                ))
      ]
