-- ===== src/Tests/Documents.antt =====
-- Runs of the storage of documents; every value is taken to be of ten bytes.
use plynth.Storage.Writes.{Written, put_document-Written}
use plynth.Samples.{theme, put_theme, stored}
use plynth.Storage.{
  put_document, write_document, list_documents, get_collection, upsert_document, oldest_first,
  expires_at, insert_oldest,
}
use plynth.Models.Storage.{StorageDocument}
use plynth.Exec.{ok}
use plynth.Prelude.{[], ◌∷◌, some, none, true, refl, String, ℕ, Bool, pos, ◌≡◌, leb_ℤ}

abbrev size : String → ℕ
size s = 10

abbrev like_all : String → String → Bool
like_all s pattern = true

abbrev new_theme : StorageDocument
new_theme = record theme { version = 2; expires_at = some 1060; updated_at = 1000 }

put_run : (put_document size put_theme stored).0 ≡ ok new_theme
unfolding put_document write_document get_collection upsert_document expires_at leb_ℤ
put_run = refl

put_document-Written_example :
    Written size put_theme stored new_theme (put_document size put_theme stored).1
put_document-Written_example = put_document-Written size put_theme new_theme stored put_run

list_run :
    (list_documents like_all 9 1 "prefs" none (some "th") (pos 10) stored).0 ≡ ok (theme ∷ [])
unfolding list_documents get_collection oldest_first insert_oldest
list_run = refl
