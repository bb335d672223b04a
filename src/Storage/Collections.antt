-- ===== src/Storage/Collections.antt =====
-- Collections are created once (app/services/storage.py, `create_collection`).
use plynth.World.{World, next_id}
use plynth.Models.Storage.{StorageCollection}
use plynth.Storage.{
  get_collection, create_collection, insert_collection, is_collection, new_collection,
}
use plynth.Exec.{ok, Result}
use plynth.Prelude.{
  ◌∷◌, some, true, inl, inr, refl, ℕ, String, Option, ℤ, find?, ◌≡◌, List, Option-cases, ◌++◌,
  str_eq, arith, eq_refl, ◌+◌,
}

get_collection_lem :
    (p t : ℕ) (name : String) (c : StorageCollection) (w : World)
    → find? (is_collection p t name) w.collections ≡ some c
    → get_collection p t name w ≡ (ok c, w)
unfolding get_collection
get_collection_lem p t name c w found = rw found refl

abbrev Found : ℕ → ℕ → String → Result StorageCollection × World → Type 0
Found p t name (r, w') =
    (c : StorageCollection) × (r ≡ ok c) × (find? (is_collection p t name) w'.collections ≡ some c)

new_collection-found :
    (p t id : ℕ) (name : String) (description : Option String) (ttl : ℤ)
    (cs : List StorageCollection)
    → find? (is_collection p t name) (new_collection id p t name description ttl ∷ cs)
      ≡ some (new_collection id p t name description ttl)
new_collection-found p t id name description ttl cs = here (eq_refl name)
  where
    here :
        str_eq name name ≡ true
        → find? (is_collection p t name) (new_collection id p t name description ttl ∷ cs)
          ≡ some (new_collection id p t name description ttl)
    here e = ground arith

create_collection-Found :
    (p t : ℕ) (name : String) (description : Option String) (ttl : ℤ) (actor : Option ℕ)
    (rivals : List StorageCollection) (w : World)
    → Found p t name (create_collection p t name description ttl actor rivals w)
unfolding create_collection insert_collection
create_collection-Found p t name description ttl actor rivals w =
    elim (Option-cases (find? (is_collection p t name) w.collections)) [
      | inr (c, known) ↦ rw known (c, refl, known)
      | inl new ↦
          rw new (elim (Option-cases (find? (is_collection p t name) (rivals ++ w.collections))) [
            | inl free ↦
                rw (free, insert_collection)
                  (
                    new_collection (next_id w) p t name description ttl,
                    refl,
                    new_collection-found p t (next_id w) name description ttl
                        (rivals ++ w.collections),
                  )
            | inr (c, taken) ↦
                rw (taken, insert_collection)
                  (rw
                    (get_collection_lem p t name c
                      (record w { collections = rivals ++ w.collections; drawn = w.drawn + 1 })
                      taken)
                    (c, refl, taken))
          ])
    ]

known_again :
    (p t : ℕ) (name : String) (description : Option String) (ttl : ℤ) (actor : Option ℕ)
    (rivals : List StorageCollection) (w : World) (c : StorageCollection)
    → find? (is_collection p t name) w.collections ≡ some c
    → create_collection p t name description ttl actor rivals w ≡ (ok c, w)
unfolding create_collection
known_again p t name description ttl actor rivals w c found = rw found refl

-- Requests for a collection converge: `create_collection` returns a collection, whatever other
-- transactions committed between its look and its insert, and any later request with the same
-- product, tenant and name returns this very collection and writes nothing.
pub create_collection_twice :
    (p t : ℕ) (name : String) (description description' : Option String) (ttl ttl' : ℤ)
    (actor actor' : Option ℕ) (rivals rivals' : List StorageCollection) (w : World)
    → (c : StorageCollection) × ((create_collection p t name description ttl actor rivals w).0
        ≡ ok c)
      × (create_collection p t name description' ttl' actor' rivals'
            (create_collection p t name description ttl actor rivals w).1
          ≡ (ok c, (create_collection p t name description ttl actor rivals w).1))
create_collection_twice p t name description description' ttl ttl' actor actor' rivals rivals' w =
    let (c, done, found) = create_collection-Found p t name description ttl actor rivals w in
    let w' = (create_collection p t name description ttl actor rivals w).1 in
    (c, done, known_again p t name description' ttl' actor' rivals' w' c found)
