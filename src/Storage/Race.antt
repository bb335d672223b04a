-- ===== src/Storage/Race.antt =====
-- Two writes of one document at the same time (app/services/storage.py, `put_document`).
use plynth.World.{World}
use plynth.Models.Storage.{StorageCollection, StorageDocument}
use plynth.Storage.{PutRequest, expires_at}
use plynth.Prelude.{◌+◌}

-- The row that a request writes over `old`, whatever the table holds by then.
abbrev pub overwritten : StorageCollection → PutRequest → StorageDocument → World → StorageDocument
overwritten coll r old w = record old {
  value = r.value;
  version = old.version + 1;
  expires_at = expires_at w.env.now r.ttl_seconds coll.default_ttl_seconds;
  updated_at = w.env.now;
}
