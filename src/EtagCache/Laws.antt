-- ===== src/EtagCache/Laws.antt =====
-- What the cache finds (src/etag-cache.js lookup, set, load and save).
use fizzy_symphony.Base.{
  ℕ, ◌+◌, ◌≡◌, refl, sym, ap, ◌∙◌, true, false, ◌&&◌, Option, none, some, List, [], ◌∷◌, String,
  arith, if◌then◌else◌, str_eq, eq_iff, find, is_some, Option-cases, Bool-cases, inl, inr,
}
use fizzy_symphony.EtagCache.Defs.{
  Entry, Slot, Cache, create_etag_cache, load, save, is_valid_entry, has_key, delete_key, look,
  Lookup, missing, invalid, valid, lookup, put_slot, set, written,
}

entry_at : String → List Slot → Option Entry
entry_at k [] = none
entry_at k (s ∷ ss) = if has_key k s then some s.entry else entry_at k ss

-- What a look-up says of what stands at the key.
verdict : Option Entry → Lookup
verdict none = missing
verdict (some e) = if is_valid_entry e then valid e else invalid

look-verdict :
    (k : String) (c : Cache) (ss : List Slot)
    → (look k (find (has_key k) ss) c).1 ≡ verdict (entry_at k ss)
unfolding entry_at look verdict
look-verdict k c [] = refl
look-verdict k c (s ∷ ss) = ground (arith, look-verdict k c ss)

lookup-verdict : (k : String) (c : Cache) → (lookup k c).1 ≡ verdict (entry_at k c.entries)
unfolding lookup
lookup-verdict k c = look-verdict k c c.entries

entry_at-put_slot :
    (k j : String) (e : Entry) (ss : List Slot)
    → entry_at k (put_slot j e ss) ≡ (if str_eq j k then some e else entry_at k ss)
unfolding put_slot entry_at
entry_at-put_slot k j e [] = refl
entry_at-put_slot k j e (s ∷ ss) =
    ground (arith, entry_at-put_slot k j e ss, eq_iff s.key j, eq_iff s.key k, eq_iff j k)

-- After `set` with a nonempty ETag a look-up of that resource gives what was set, and a look-up of
-- another one gives what it did before.
pub lookup-set :
    (now : ℕ) (k j tag : String) (snapshot : Option String) (c : Cache)
    → str_eq tag "" ≡ false
    → (lookup k (set now j (some tag) snapshot c)).1 ≡ (
        if str_eq j k
        then valid (record {
          is_object = true;
          etag = some tag;
          has_snapshot = true;
          snapshot = snapshot;
          stored_at = some now;
        })
        else (lookup k c).1)
unfolding set verdict is_valid_entry
lookup-set now k j tag snapshot c h =
    rw (lookup-verdict k (set now j (some tag) snapshot c), lookup-verdict k c)
      (ground (
        arith,
        entry_at-put_slot k j
            (record {
              is_object = true;
              etag = some tag;
              has_snapshot = true;
              snapshot = snapshot;
              stored_at = some now;
            })
            c.entries,
      ))

entry_at-delete_key : (k : String) (ss : List Slot) → entry_at k (delete_key k ss) ≡ none
unfolding delete_key entry_at
entry_at-delete_key k [] = refl
entry_at-delete_key k (s ∷ ss) = ground (arith, entry_at-delete_key k ss)

lookup_deletes :
    (k : String) (c : Cache)
    → (lookup k c).1 ≡ invalid
    → ((lookup k c).0.entries ≡ delete_key k c.entries)
      × ((lookup k c).0.counters.invalid ≡ c.counters.invalid + 1)
unfolding lookup
lookup_deletes k c h = elim (Option-cases (find (has_key k) c.entries)) [
  | inl nothing ↦ absurd (cc (rw nothing at h))
  | inr (s, found) ↦ elim (Bool-cases (is_valid_entry s.entry)) [
    | inl fine ↦ absurd (cc (rw (found, fine) at h))
    | inr broken ↦ rw (found, broken) (refl, omega arith)
  ]
]

-- An invalid entry is found once: the look-up deletes it, and the next one misses.
pub lookup_invalid_once :
    (k : String) (c : Cache)
    → (lookup k c).1 ≡ invalid
    → ((lookup k (lookup k c).0).1 ≡ missing)
      × ((lookup k c).0.counters.invalid ≡ c.counters.invalid + 1)
unfolding verdict
lookup_invalid_once k c h =
    let (deleted, counted) = lookup_deletes k c h in
    (
      lookup-verdict k (lookup k c).0
          ∙ ap (λ ss. verdict (entry_at k ss)) deleted
          ∙ ap verdict (entry_at-delete_key k c.entries),
      counted,
    )

verdict-valid :
    (o : Option Entry) (e : Entry) → verdict o ≡ valid e → (o ≡ some e) × (is_valid_entry e ≡ true)
unfolding verdict
verdict-valid none e h = absurd (cc)
verdict-valid (some d) e h = elim (Bool-cases (is_valid_entry d)) [
  | inr broken ↦ absurd (cc (rw broken at h))
  | inl fine ↦
      let same : d ≡ e = cc (rw fine at h) in (ap some same, ap is_valid_entry (sym same) ∙ fine)
]

verdict_fine : (e : Entry) → is_valid_entry e ≡ true → verdict (some e) ≡ valid e
unfolding verdict
verdict_fine e h = rw h

load-save : (c : Cache) → (load (save c) (create_etag_cache c.context)).entries ≡ written c.entries
unfolding load save create_etag_cache
load-save c =
    let same : str_eq c.context c.context ≡ true = (eq_iff c.context c.context).1 refl in rw same

entry_at-written :
    (k : String) (ss : List Slot) (e : Entry)
    → entry_at k ss ≡ some e
    → is_valid_entry e ≡ true
    → is_some e.snapshot ≡ true
    → entry_at k (written ss) ≡ some e
unfolding entry_at written is_valid_entry
entry_at-written k [] e h fine s = absurd (cc)
entry_at-written k (t ∷ ss) e h fine s = elim (Bool-cases (has_key k t)) [
  | inr apart ↦ rw apart (entry_at-written k ss e (rw apart at h) fine s)
  | inl here ↦
      let same : t.entry ≡ e = cc (rw here at h) in
      let kept : (e.has_snapshot && is_some e.snapshot) ≡ e.has_snapshot = ground arith in
      rw here (rw same (ap (λ b. some (record e { has_snapshot = b })) kept))
]

-- A valid entry with a snapshot outlives the process: a new cache of the same context that loads
-- what was saved finds it.
pub lookup-load-save :
    (k : String) (c : Cache) (e : Entry)
    → (lookup k c).1 ≡ valid e
    → is_some e.snapshot ≡ true
    → (lookup k (load (save c) (create_etag_cache c.context))).1 ≡ valid e
lookup-load-save k c e h s =
    let (there, fine) = verdict-valid (entry_at k c.entries) e (sym (lookup-verdict k c) ∙ h) in
    lookup-verdict k (load (save c) (create_etag_cache c.context))
    ∙ ap (λ ss. verdict (entry_at k ss)) (load-save c)
    ∙ ap verdict (entry_at-written k c.entries e there fine s)
    ∙ verdict_fine e fine

-- A cache of another context finds nothing of what was saved.
pub lookup-load-save_other :
    (k other : String) (c : Cache)
    → str_eq c.context other ≡ false
    → (lookup k (load (save c) (create_etag_cache other))).1 ≡ missing
unfolding load save create_etag_cache lookup
lookup-load-save_other k other c h = rw h
