-- ===== src/Storage/Writes.antt =====
-- What a write of a document promises to later reads and writes (app/services/storage.py).
use plynth.Storage.Documents.{is_admitted, addressed, upsert_document-Upserted, version_of, row_in}
use plynth.Models.Audit.{AuditLog}
use plynth.World.{World}
use plynth.Models.Storage.{StorageCollection, StorageDocument}
use plynth.Storage.{
  PutRequest, is_expired, upsert_document, document_row, is_collection, get_document, put_document,
  max_value_bytes, get_collection, write_document,
}
use plynth.Exec.{ok, ok-injective, Result, resume, Result-cases}
use plynth.Prelude.{
  some, none, false, inl, inr, refl, Option, ℕ, find?, String, ◌≡◌, ◌+◌, Option-cases, Bool-cases,
  true, ap, ◌==◌, subst, is_text, ltb, List, ◌∙◌, sym,
}

upsert_document-admitted :
    (coll : StorageCollection) (r : PutRequest) (old : Option StorageDocument) (w : World)
    (out : StorageDocument × String)
    → (upsert_document coll r old w).0 ≡ ok out
    → is_admitted r.if_version old ≡ true
unfolding upsert_document
upsert_document-admitted coll r none w out = elim (Option-cases r.if_version) [
  | inl any_version ↦ rw any_version (λ done. refl)
  | inr (v, named) ↦ rw named (λ done. cc)
]
upsert_document-admitted coll r (some old) w out = elim (Option-cases r.if_version) [
  | inl any_version ↦ rw any_version (λ done. refl)
  | inr (v, named) ↦ elim (Bool-cases (old.version == v)) [
    | inl current ↦ rw (named, current) (λ done. refl)
    | inr stale ↦ rw (named, stale) (λ done. cc)
  ]
]

get_document_lem :
    (p t : ℕ) (name key : String) (coll : StorageCollection) (doc : StorageDocument) (w : World)
    → find? (is_collection p t name) w.collections ≡ some coll
    → document_row p t coll.id key w ≡ some doc
    → is_expired w.env.now doc ≡ false
    → get_document p t name key w ≡ (ok doc, w)
unfolding get_document get_collection
get_document_lem p t name key coll doc w found row live =
    rw (found, resume) (rw (row, resume) (rw live refl))

addressed-found :
    (r : PutRequest) (coll : StorageCollection) (w : World)
    → find? (is_collection r.product_id r.tenant_id r.collection_name) w.collections ≡ some coll
    → addressed r w ≡ document_row r.product_id r.tenant_id coll.id r.key w
addressed-found r coll w found = ap (row_in r w) found

module _ (measure : String → ℕ) where
  -- The calls that a write which returned has made.
  abbrev Steps : PutRequest → World → Result StorageDocument × World → StorageDocument → Type 0
  Steps r w out doc =
      (coll : StorageCollection) × (verb : String) × (log : List AuditLog) × (find?
          (is_collection r.product_id r.tenant_id r.collection_name) w.collections
        ≡ some coll)
      × ((upsert_document coll r (document_row r.product_id r.tenant_id coll.id r.key w) w).0
          ≡ ok (doc, verb))
      × (out.1
          ≡ record ((upsert_document coll r (document_row r.product_id r.tenant_id coll.id r.key w)
              w).1) { audit_log = log })

  put_document-Steps :
      (r : PutRequest) (doc : StorageDocument) (w : World)
      → (put_document measure r w).0 ≡ ok doc
      → Steps r w (put_document measure r w) doc
  unfolding put_document get_collection write_document
  put_document-Steps r doc w = elim (Bool-cases (is_text r.key)) [
    | inr empty ↦ rw empty (λ done. cc)
    | inl key ↦ elim (Bool-cases (ltb max_value_bytes (measure r.value))) [
      | inl large ↦ rw (key, large) (λ done. cc)
      | inr fits ↦
          rw (key, fits)
            (elim (Option-cases
              (find? (is_collection r.product_id r.tenant_id r.collection_name) w.collections)) [
                | inl no_coll ↦ rw (no_coll, resume) (λ done. cc)
                | inr (coll, found) ↦
                    rw (found, resume)
                      (elim (Result-cases
                        (upsert_document coll r
                          (document_row r.product_id r.tenant_id coll.id r.key w) w).0) [
                            | inr (e, raised) ↦ rw (raised, resume) (λ done. cc)
                            | inl ((d, verb), stored) ↦
                                rw (stored, resume)
                                  (λ done. (
                                    coll,
                                    verb,
                                    _,
                                    refl,
                                    stored ∙ ap (λ x. ok (x, verb)) (ok-injective done),
                                    refl,
                                  ))
                          ])
              ])
    ]
  ]

  -- What a write that returned has done.
  abbrev pub Written : PutRequest → World → StorageDocument → World → Type 0
  Written r w doc w' =
      (get_document r.product_id r.tenant_id r.collection_name r.key w' ≡ (ok doc, w'))
      × (addressed r w' ≡ some doc)
      × (doc.value ≡ r.value)
      × (doc.version ≡ version_of (addressed r w) + 1)
      × (is_admitted r.if_version (addressed r w) ≡ true)

  -- A write that returns a document: a read of its key returns this document, at once, and it has
  -- the value of the request; its version is one more than that of the row before, or 1 where there was none; and if the request named
  -- a version, there was a row and it had this version.
  pub put_document-Written :
      (r : PutRequest) (doc : StorageDocument) (w : World)
      → (put_document measure r w).0 ≡ ok doc
      → Written r w doc (put_document measure r w).1
  put_document-Written r doc w done =
      let (coll, verb, log, found, stored, end) = put_document-Steps r doc w done in
      let old = document_row r.product_id r.tenant_id coll.id r.key w in
      let u = (upsert_document coll r old w).1 in
      let (row, colls, env, version, value, live) =
        upsert_document-Upserted coll r old w doc verb refl stored in
      let found' =
        ap (find? (is_collection r.product_id r.tenant_id r.collection_name)) colls ∙ found in
      let w' = record u { audit_log = log } in
      subst (Written r w doc) (sym end) (
        get_document_lem r.product_id r.tenant_id r.collection_name r.key coll doc w' found' row
            (ap (λ e. is_expired e.now doc) env ∙ live),
        addressed-found r coll w' found' ∙ row,
        value,
        version ∙ ap (λ o. version_of o + 1) (sym (addressed-found r coll w found)),
        ap (is_admitted r.if_version) (addressed-found r coll w found)
            ∙ upsert_document-admitted coll r old w (doc, verb) stored,
      )
