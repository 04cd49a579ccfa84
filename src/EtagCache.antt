-- ===== src/EtagCache.antt =====
-- src/etag-cache.js: what was last read for a request, by its ETag.
pub mod Defs
pub mod Laws
