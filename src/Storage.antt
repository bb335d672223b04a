-- ===== src/Storage.antt =====
-- app/services/storage.py: a tenant's documents by collection and key.
pub mod Documents
pub mod Writes
pub mod Race
pub mod Collections
pub mod Reads
use plynth.Audit.{record_entry, event}
use plynth.World.{World}
use plynth.Exec.{
  Action, or_raise, ◌>>=◌, ◌>>◌, pure, not_found, new_id, gets, raise_if, modify, now, conflict,
  validation_failed,
}
use plynth.Models.Storage.{StorageCollection, StorageDocument}
use plynth.Prelude.{
  [], ◌∷◌, some, none, true, false, ℕ, Option, String, List, Bool, ℤ, ◌+◌, if◌then◌else◌, ◌==◌,
  ◌++◌, get_or, find?, not, leb, ltb, ◌&&◌, leb_ℤ, str_eq, pos, is_some, is_text, is_given, take,
  remove, pos_part, ◌||◌, max, save, ◌<>◌, min, select,
}

abbrev pub max_value_bytes : ℕ
max_value_bytes = 1048576

abbrev pub is_collection : ℕ → ℕ → String → StorageCollection → Bool
is_collection product_id tenant_id name c =
    (c.product_id == product_id) && ((c.tenant_id == tenant_id) && str_eq c.name name)

unfoldable pub get_collection : ℕ → ℕ → String → Action StorageCollection
get_collection product_id tenant_id name w =
    or_raise (find? (is_collection product_id tenant_id name) w.collections) not_found w

abbrev pub new_collection : ℕ → ℕ → ℕ → String → Option String → ℤ → StorageCollection
new_collection id product_id tenant_id name description default_ttl_seconds = record {
  id = id;
  product_id = product_id;
  tenant_id = tenant_id;
  name = name;
  default_ttl_seconds = default_ttl_seconds;
  description = description;
}

-- The insert into the table as it is at the flush, when other transactions have committed `rivals`
-- since the first look; `uq_storage_collections_name` refuses a second row with the name.
unfoldable pub insert_collection :
    ℕ
    → ℕ
    → String
    → Option String
    → ℤ
    → Option ℕ
    → List StorageCollection
    → Action StorageCollection
insert_collection product_id tenant_id name description default_ttl_seconds actor_user_id rivals w =
    let collections = rivals ++ w.collections in
    elim (find? (is_collection product_id tenant_id name) collections) [
      | some winner ↦
          get_collection product_id tenant_id name
            (record w { collections = collections; drawn = w.drawn + 1 })
      | none ↦
          (do
            id ← new_id
            let coll = new_collection id product_id tenant_id name description default_ttl_seconds
            modify (λ s. record s { collections = coll ∷ collections })
            record_entry (
                event "storage.collection_create" actor_user_id "storage_collection" id
                  (some tenant_id) product_id)
            pure coll)
            w
    ]

unfoldable pub create_collection :
    ℕ
    → ℕ
    → String
    → Option String
    → ℤ
    → Option ℕ
    → List StorageCollection
    → Action StorageCollection
create_collection product_id tenant_id name description default_ttl_seconds actor_user_id rivals =
    do
      existing ← gets (λ w. find? (is_collection product_id tenant_id name) w.collections)
      elim existing [
        | some coll ↦ pure coll
        | none ↦
            insert_collection product_id tenant_id name description default_ttl_seconds
              actor_user_id rivals
      ]

-- `_expires_at`; the collection's default is not NULL.
unfoldable pub expires_at : ℕ → Option ℤ → ℤ → Option ℕ
expires_at time ttl_seconds collection_default =
    let effective = get_or ttl_seconds collection_default in
    if leb_ℤ effective (pos 0) then none else some (time + pos_part effective)

abbrev pub is_document : ℕ → ℕ → ℕ → String → StorageDocument → Bool
is_document product_id tenant_id collection_id key d =
    (d.product_id == product_id)
    && ((d.tenant_id == tenant_id) && ((d.collection_id == collection_id) && str_eq d.key key))

-- `_get_document_row`
abbrev pub document_row : ℕ → ℕ → ℕ → String → World → Option StorageDocument
document_row product_id tenant_id collection_id key w =
    find? (is_document product_id tenant_id collection_id key) w.documents

-- The arguments of `put_document`; `value` is the text of the JSON document.
pub record PutRequest : Type 0 where
  pub product_id : ℕ
  pub tenant_id : ℕ
  pub collection_name : String
  pub key : String
  pub value : String
  pub ttl_seconds : Option ℤ
  pub if_version : Option ℕ
  pub actor_user_id : Option ℕ

-- `if_version is not None and doc.version != if_version`
abbrev pub is_stale : Option ℕ → ℕ → Bool
is_stale none version = false
is_stale (some v) version = not (version == v)

abbrev pub new_document : ℕ → ℕ → StorageCollection → PutRequest → StorageDocument
new_document id time coll r = record {
  id = id;
  product_id = r.product_id;
  tenant_id = r.tenant_id;
  collection_id = coll.id;
  key = r.key;
  value = r.value;
  version = 1;
  expires_at = expires_at time r.ttl_seconds coll.default_ttl_seconds;
  updated_at = time;
}

abbrev pub updated : ℕ → StorageCollection → PutRequest → StorageDocument → StorageDocument
updated time coll r doc = record doc {
  value = r.value;
  version = doc.version + 1;
  expires_at = expires_at time r.ttl_seconds coll.default_ttl_seconds;
  updated_at = time;
}

-- The upsert of the row, with the verb for the audit log
unfoldable pub upsert_document :
    StorageCollection → PutRequest → Option StorageDocument → Action (StorageDocument × String)
upsert_document coll r none = do
  raise_if (is_some r.if_version) conflict
  time ← now
  id ← new_id
  let doc = new_document id time coll r
  modify (λ w. record w { documents = doc ∷ w.documents })
  pure (doc, "storage.put")
upsert_document coll r (some doc) = do
  raise_if (is_stale r.if_version doc.version) conflict
  time ← now
  let doc' = updated time coll r doc
  modify (λ w. record w { documents = save (λ d. d.id) doc' w.documents })
  pure (doc', "storage.update")

-- The rest of `put_document` once it has read the row: another request may have written the row
-- since, for no lock is taken and the UPDATE does not test the version.
unfoldable pub write_document :
    StorageCollection → PutRequest → Option StorageDocument → Action StorageDocument
write_document coll r existing = do
  (doc, action) ← upsert_document coll r existing
  record_entry
      (event action r.actor_user_id "storage_document" doc.id (some r.tenant_id) r.product_id)
  pure doc

-- The size of a value is that of its encoding by `json.dumps`, a parameter.
module _ (measure : String → ℕ) where
  unfoldable pub put_document : PutRequest → Action StorageDocument
  put_document r = do
    raise_if (not (is_text r.key)) validation_failed
    raise_if (ltb max_value_bytes (measure r.value)) validation_failed
    coll ← get_collection r.product_id r.tenant_id r.collection_name
    existing ← gets (document_row r.product_id r.tenant_id coll.id r.key)
    write_document coll r existing

unfoldable pub is_expired : ℕ → StorageDocument → Bool
is_expired time d = elim d.expires_at [ none ↦ false | some end ↦ leb end time ]

unfoldable pub get_document : ℕ → ℕ → String → String → Action StorageDocument
get_document product_id tenant_id collection_name key = do
  coll ← get_collection product_id tenant_id collection_name
  row ← gets (document_row product_id tenant_id coll.id key)
  doc ← or_raise row not_found
  time ← now
  raise_if (is_expired time doc) not_found
  pure doc

-- Insertion by `updated_at`, the oldest first
unfoldable pub insert_oldest : StorageDocument → List StorageDocument → List StorageDocument
insert_oldest d [] = d ∷ []
insert_oldest d (e ∷ es) =
    let rest = insert_oldest d es in if ltb e.updated_at d.updated_at then e ∷ rest else d ∷ e ∷ es

unfoldable pub oldest_first : List StorageDocument → List StorageDocument
oldest_first [] = []
oldest_first (d ∷ ds) = insert_oldest d (oldest_first ds)

-- SQL's LIKE is the database's, a parameter.
module _ (like : String → String → Bool) where
  abbrev pub is_listed_document : ℕ → ℕ → ℕ → Option ℕ → Option String → StorageDocument → Bool
  is_listed_document product_id tenant_id collection_id since prefix d =
      (d.product_id == product_id)
      && ((d.tenant_id == tenant_id)
          && ((d.collection_id == collection_id)
              && (elim since [ none ↦ true | some s ↦ ltb s d.updated_at ]
                  && (not (is_given prefix) || like d.key (get_or prefix "" <> "%")))))

  unfoldable pub list_documents :
      ℕ → ℕ → String → Option ℕ → Option String → ℤ → Action (List StorageDocument)
  list_documents product_id tenant_id collection_name since prefix limit = do
    coll ← get_collection product_id tenant_id collection_name
    gets (λ w. take (max 1 (min (pos_part limit) 500)) (
        oldest_first
          (select (is_listed_document product_id tenant_id coll.id since prefix) w.documents)))

unfoldable pub delete_row : ℕ → ℕ → Option ℕ → Option StorageDocument → Action (Unit {0})
delete_row product_id tenant_id actor_user_id none = pure tt
delete_row product_id tenant_id actor_user_id (some doc) = do
  modify (λ w. record w { documents = remove (λ d. d.id) doc.id w.documents })
  record_entry
      (event "storage.delete" actor_user_id "storage_document" doc.id (some tenant_id) product_id)

unfoldable pub delete_document : ℕ → ℕ → String → String → Option ℕ → Action (Unit {0})
delete_document product_id tenant_id collection_name key actor_user_id = do
  coll ← get_collection product_id tenant_id collection_name
  doc ← gets (document_row product_id tenant_id coll.id key)
  delete_row product_id tenant_id actor_user_id doc
