-- ===== src/Storage/Documents.antt =====
-- What an upsert of a document leaves in the tables (app/services/storage.py).
use plynth.World.{World, next_id}
use plynth.Models.Storage.{StorageCollection, StorageDocument}
use plynth.Storage.{
  PutRequest, is_expired, upsert_document, expires_at, document_row, is_collection, is_stale,
  new_document, updated, is_document,
}
use plynth.Exec.{ok, ok-injective}
use plynth.Prelude.{
  some, none, false, inl, inr, refl, Option, ℕ, find?, leb_ℤ, String, ℤ, ◌≡◌, pos, ◌+◌, leb,
  Bool-cases, pos_part, arith, negsuc, get_or, ◌∷◌, true, Bool, ap, is_some, ◌==◌, save, subst,
  str_eq, eq_refl, find?-save, find?-holds,
}

abbrev pub version_of : Option StorageDocument → ℕ
version_of none = 0
version_of (some d) = d.version

-- The row that a request is about.
abbrev pub row_in : PutRequest → World → Option StorageCollection → Option StorageDocument
row_in r w none = none
row_in r w (some coll) = document_row r.product_id r.tenant_id coll.id r.key w

abbrev pub addressed : PutRequest → World → Option StorageDocument
addressed r w =
    row_in r w (find? (is_collection r.product_id r.tenant_id r.collection_name) w.collections)

abbrev pub SameDocument : PutRequest → PutRequest → Type 0
SameDocument r r' =
    (r'.product_id ≡ r.product_id)
    × (r'.tenant_id ≡ r.tenant_id)
    × (r'.collection_name ≡ r.collection_name)
    × (r'.key ≡ r.key)

-- Any version is admitted if none is named; a named one is that of the row, which must exist.
abbrev pub is_admitted : Option ℕ → Option StorageDocument → Bool
is_admitted none old = true
is_admitted (some v) none = false
is_admitted (some v) (some d) = d.version == v

not_expired :
    (time : ℕ) (ttl : Option ℤ) (d : ℤ) (doc : StorageDocument)
    → doc.expires_at ≡ expires_at time ttl d
    → is_expired time doc ≡ false
unfolding is_expired expires_at leb_ℤ
not_expired time ttl d doc e = elim (Bool-cases (leb_ℤ (get_or ttl d) (pos 0))) [
  | inl never ↦ rw (e, never) refl
  | inr some_day ↦ rw (e, some_day) (later (get_or ttl d) some_day)
]
  where
    later : (z : ℤ) → leb_ℤ z (pos 0) ≡ false → leb (time + pos_part z) time ≡ false
    later (pos n) h = ground arith
    later (negsuc n) h = ground arith

-- What holds after an upsert of `r` over `old` that wrote `doc`.
abbrev pub Upserted :
    StorageCollection
    → PutRequest
    → Option StorageDocument
    → World
    → StorageDocument
    → World
    → Type 0
Upserted coll r old w doc w' =
    (document_row r.product_id r.tenant_id coll.id r.key w' ≡ some doc)
    × (w'.collections ≡ w.collections)
    × (w'.env ≡ w.env)
    × (doc.version ≡ version_of old + 1)
    × (doc.value ≡ r.value)
    × (is_expired w.env.now doc ≡ false)

upsert_new :
    (coll : StorageCollection) (r : PutRequest) (w : World)
    → Upserted coll r none w (new_document (next_id w) w.env.now coll r) (record w {
      drawn = w.drawn + 1;
      documents = new_document (next_id w) w.env.now coll r ∷ w.documents;
    })
upsert_new coll r w = (
  here (eq_refl r.key),
  refl,
  refl,
  refl,
  refl,
  not_expired w.env.now r.ttl_seconds coll.default_ttl_seconds
      (new_document (next_id w) w.env.now coll r) refl,
)
  where
    here :
        str_eq r.key r.key ≡ true
        → find?
            (is_document r.product_id r.tenant_id coll.id r.key)
            (new_document (next_id w) w.env.now coll r ∷ w.documents)
          ≡ some (new_document (next_id w) w.env.now coll r)
    here e = ground arith

upsert_old :
    (coll : StorageCollection) (r : PutRequest) (old : StorageDocument) (w : World)
    → document_row r.product_id r.tenant_id coll.id r.key w ≡ some old
    → Upserted coll r
        (some old)
        w
        (updated w.env.now coll r old)
        (record w { documents = save (λ d. d.id) (updated w.env.now coll r old) w.documents })
upsert_old coll r old w row =
    let p = is_document r.product_id r.tenant_id coll.id r.key in
    (
      find?-save p (λ d. d.id) w.documents old (updated w.env.now coll r old) row refl
          (find?-holds p w.documents old row),
      refl,
      refl,
      refl,
      refl,
      not_expired w.env.now r.ttl_seconds coll.default_ttl_seconds (updated w.env.now coll r old)
          refl,
    )

fst_ok : {A B : Type 0} (p q : A × B) → ok p ≡ ok q → p.0 ≡ q.0
fst_ok p q e = ap (λ x. x.0) (ok-injective e)

pub upsert_document-Upserted :
    (coll : StorageCollection) (r : PutRequest) (old : Option StorageDocument) (w : World)
    (doc : StorageDocument) (verb : String)
    → document_row r.product_id r.tenant_id coll.id r.key w ≡ old
    → (upsert_document coll r old w).0 ≡ ok (doc, verb)
    → Upserted coll r old w doc (upsert_document coll r old w).1
unfolding upsert_document
upsert_document-Upserted coll r none w doc verb row = elim (Bool-cases (is_some r.if_version)) [
  | inl named ↦ rw named (λ done. cc)
  | inr any_version ↦ rw any_version (λ done.
      subst
        (λ d. Upserted coll r none w d (record w {
          drawn = w.drawn + 1;
          documents = new_document (next_id w) w.env.now coll r ∷ w.documents;
        }))
        (fst_ok (_, _) (doc, verb) done) (upsert_new coll r w))
]
upsert_document-Upserted coll r (some old) w doc verb row =
    elim (Bool-cases (is_stale r.if_version old.version)) [
      | inl stale ↦ rw stale (λ done. cc)
      | inr current ↦ rw current (λ done.
          subst
            (λ d. Upserted coll r (some old) w d (record w {
              documents = save (λ d. d.id) (updated w.env.now coll r old) w.documents;
            }))
            (fst_ok (_, _) (doc, verb) done) (upsert_old coll r old w row))
    ]
