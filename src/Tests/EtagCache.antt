-- ===== src/Tests/EtagCache.antt =====
-- The cache at concrete inputs.
use fizzy_symphony.Base.{◌≡◌, refl, true, none, some}
use fizzy_symphony.EtagCache.Defs.{
  Entry, Cache, create_etag_cache, set, lookup, load, save, invalid, valid,
}
use fizzy_symphony.EtagCache.Laws.{lookup-load-save}

abbrev cache : Cache
cache = set 5 "cards" (some "v1") (some "[]") (create_etag_cache "here")

abbrev stored : Entry
stored = record {
  is_object = true;
  etag = some "v1";
  has_snapshot = true;
  snapshot = some "[]";
  stored_at = some 5;
}

cards_found : (lookup "cards" cache).1 ≡ valid stored
unfolding lookup set create_etag_cache
cards_found = refl

lookup-load-save_example :
    (lookup "cards" (load (save cache) (create_etag_cache cache.context))).1 ≡ valid stored
lookup-load-save_example = lookup-load-save "cards" cache stored cards_found refl

abbrev damaged : Cache
damaged = set 5 "cards" none none (create_etag_cache "here")

cards_invalid : (lookup "cards" damaged).1 ≡ invalid
unfolding lookup set create_etag_cache
cards_invalid = refl
