-- ===== src/EtagCache/Defs.antt =====
-- The cache's variables and operations (src/etag-cache.js createEtagCache). A resource is known by
-- its key and a context by its fingerprint, both of which are digests; a snapshot is its JSON text.
use fizzy_symphony.Base.{
  ℕ, suc, Bool, true, false, ◌&&◌, Option, none, some, List, [], ◌∷◌, String, if◌then◌else◌, str_eq,
  is_some, truthy, find, filter, not,
}

-- An entry as it may stand in the file: anything, or an object whose etag counts if it is a text.
pub record Entry : Type 0 where
  pub is_object : Bool
  pub etag : Option String
  pub has_snapshot : Bool
  pub snapshot : Option String
  pub stored_at : Option ℕ

pub record Slot : Type 0 where
  pub key : String
  pub entry : Entry

pub record Counters : Type 0 where
  pub hits : ℕ
  pub misses : ℕ
  pub invalid : ℕ

pub record Cache : Type 0 where
  pub context : String
  pub counters : Counters
  pub loaded : Bool
  pub entries : List Slot

unfoldable pub create_etag_cache : String → Cache
create_etag_cache context = record {
  context = context;
  counters = record { hits = 0; misses = 0; invalid = 0 };
  loaded = false;
  entries = [];
}

-- `parsed` holds the file's schema version and context fingerprint, and its entries if they are an
-- object.
pub data File : Type 0 where
  absent unreadable : File
  parsed : (schema context : Option String) (entries : Option (List Slot)) → File

abbrev pub schema_version : String
schema_version = "fizzy-symphony-etag-cache-v1"

abbrev is_text : String → Option String → Bool
is_text t none = false
is_text t (some s) = str_eq s t

unfoldable pub count_invalid : Cache → Cache
count_invalid c = record c { counters = record (c.counters) { invalid = suc c.counters.invalid } }

unfoldable pub accept_file : File → Cache → Cache
unfolding count_invalid
accept_file absent c = c
accept_file unreadable c = record (count_invalid c) { entries = [] }
accept_file (parsed schema context none) c = record (count_invalid c) { entries = [] }
accept_file (parsed schema context (some entries)) c =
    if is_text schema_version schema && is_text c.context context
    then record c { entries = entries }
    else record (count_invalid c) { entries = [] }

unfoldable pub load : File → Cache → Cache
unfolding accept_file
load file c = if c.loaded then c else accept_file file (record c { loaded = true })

-- JSON leaves out a field that is `undefined`.
unfoldable pub written : List Slot → List Slot
written [] = []
written (s ∷ ss) =
    record s {
      entry = record (s.entry) { has_snapshot = s.entry.has_snapshot && is_some s.entry.snapshot };
    }
    ∷ written ss

unfoldable pub save : Cache → File
unfolding written
save c = parsed (some schema_version) (some c.context) (some (written c.entries))

unfoldable pub is_valid_entry : Entry → Bool
is_valid_entry e = e.is_object && (truthy e.etag && e.has_snapshot)

abbrev pub has_key : String → Slot → Bool
has_key key s = str_eq s.key key

-- `delete entries[key]`.
unfoldable pub delete_key : String → List Slot → List Slot
delete_key key slots = filter (λ s. not (has_key key s)) slots

pub data Lookup : Type 0 where
  missing invalid : Lookup
  valid : Entry → Lookup

unfoldable pub look : String → Option Slot → Cache → Cache × Lookup
unfolding is_valid_entry count_invalid delete_key
look key none c =
    (record c { counters = record (c.counters) { misses = suc c.counters.misses } }, missing)
look key (some s) c =
    if is_valid_entry s.entry
    then (c, valid s.entry)
    else (record (count_invalid c) { entries = delete_key key c.entries }, invalid)

unfoldable pub lookup : String → Cache → Cache × Lookup
unfolding look
lookup key c = look key (find (has_key key) c.entries) c

entry_of : Lookup → Option Entry
entry_of (valid e) = some e
entry_of _ = none

unfoldable pub get : String → Cache → Cache × Option Entry
unfolding lookup entry_of
get key c = let (after, found) = lookup key c in (after, entry_of found)

-- `entries[key] = entry`.
unfoldable pub put_slot : String → Entry → List Slot → List Slot
put_slot key entry [] = record { key = key; entry = entry } ∷ []
put_slot key entry (s ∷ ss) =
    if has_key key s then record s { entry = entry } ∷ ss else s ∷ put_slot key entry ss

unfoldable pub set : ℕ → String → (etag snapshot : Option String) → Cache → Cache
unfolding put_slot
set now key etag snapshot c = record c {
  entries =
      put_slot key
        (record {
          is_object = true;
          etag = etag;
          has_snapshot = true;
          snapshot = snapshot;
          stored_at = some now;
        })
        c.entries;
}

unfoldable pub record_hit : Cache → Cache
record_hit c = record c { counters = record (c.counters) { hits = suc c.counters.hits } }

unfoldable pub record_miss : Cache → Cache
record_miss c = record c { counters = record (c.counters) { misses = suc c.counters.misses } }

unfoldable pub record_invalid : Cache → Cache
unfolding count_invalid
record_invalid c = count_invalid c
