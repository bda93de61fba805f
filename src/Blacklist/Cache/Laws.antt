-- ===== src/Blacklist/Cache/Laws.antt =====
-- What a later `_cache_get` of app/blacklist.py answers after a `_cache_set`.
use dmarc_geeks.Common.{
  Option, [], arith, beq_refl, if◌then◌else◌, leb, lookup, lookup-put, lookup-remove, none, remove,
  some, take, ℕ, ◌-◌, ◌∙◌, ◌∷◌, ◌≡◌, ◌⊎◌, nat_eq, text_eq,
}
use dmarc_geeks.Blacklist.Zones.{Hit}
use dmarc_geeks.Blacklist.Cache.{
  cache_ttl, Key, key_eq, Cache, cache_set, cache_get, after_get, drop_all, Stored, evict, by_time,
}

-- A verdict that was stored at `t` is answered at `now` exactly while `now - t` is at most one
-- hour; after that the lookup is a miss.
pub cache_get-cache_set :
    (t now : ℕ) (key : Key) (value : Option Hit) (cache : Cache)
    → cache_get now key (cache_set t key value cache)
      ≡ (if leb (now - t) cache_ttl then some value else none)
unfolding cache_get cache_set
cache_get-cache_set t now key value cache = rw lookup-put (rw (beq_refl key) (ground arith))

lookup-drop_all :
    (k : Key) (st : Stored) (l cache : Cache)
    → lookup k (drop_all l cache) ≡ some st
    → lookup k cache ≡ some st
unfolding drop_all
lookup-drop_all k st [] cache h = h
lookup-drop_all k st (e ∷ l) cache h =
    ground (arith, lookup-drop_all k st l (remove e.0 cache) h, lookup-remove e.0 k cache)

lookup-evict :
    (k : Key) (st : Stored) (cache : Cache)
    → lookup k (evict cache) ≡ some st
    → lookup k cache ≡ some st
unfolding evict
lookup-evict k st cache h = ground (arith, lookup-drop_all k st (take 1000 (by_time cache)) cache)

-- An entry after a store is the stored one or an old one.
pub lookup-cache_set :
    (now : ℕ) (key k : Key) (value : Option Hit) (cache : Cache) (st : Stored)
    → lookup k (cache_set now key value cache) ≡ some st
    → ((key ≡ k) × (st.value ≡ value)) ⊎ (lookup k cache ≡ some st)
unfolding cache_set
lookup-cache_set now key k value cache st h = ground (
  arith,
  lookup-put key k (record { at = now; value = value }) (evict cache),
  lookup-evict k st cache,
  key_eq.beq_iff key k,
)

pub lookup-after_get :
    (now : ℕ) (key k : Key) (cache : Cache) (st : Stored)
    → lookup k (after_get now key cache) ≡ some st
    → lookup k cache ≡ some st
unfolding after_get
lookup-after_get now key k cache st h = ground (arith, lookup-remove key k cache)

-- A miss is still a miss after the expired entry is popped.
pub cache_get-after_get :
    (now : ℕ) (key : Key) (cache : Cache)
    → cache_get now key cache ≡ none
    → cache_get now key (after_get now key cache) ≡ none
unfolding cache_get after_get
cache_get-after_get now key cache h =
    ground (arith, lookup-remove key key cache, key_eq.beq_iff key key)

pub cache_get-cache_set_now :
    (now : ℕ) (key : Key) (value : Option Hit) (cache : Cache)
    → cache_get now key (cache_set now key value cache) ≡ some value
cache_get-cache_set_now now key value cache =
    cache_get-cache_set now now key value cache ∙ ground arith
