-- ===== src/Blacklist/Cache.antt =====
-- The in-process lookup cache of app/blacklist.py, `_cache_get` and `_cache_set`. Times are whole
-- seconds of `time.time()`, which does not run backwards.
pub mod Bounds
pub mod Laws
use dmarc_geeks.Common.{
  Bool, Eq, List, Option, Text, [], arith, if◌then◌else◌, leb, length, lookup, ltb, none, put,
  remove, some, take, text_beq_iff, true, ℕ, ◌&&◌, ◌-◌, ◌/◌, ◌==◌, ◌↔◌, ◌∷◌, ◌≡◌, nat_eq, text_eq,
}
use dmarc_geeks.Blacklist.Zones.{Hit}

abbrev pub cache_ttl : ℕ
cache_ttl = 3600

abbrev pub cache_max : ℕ
cache_max = 10000

-- The pair (zone, ip).
pub record Key : Type 0 where
  pub zone : Text
  pub ip : Text

key_beq : Key → Key → Bool
key_beq k j = k.zone == j.zone && k.ip == j.ip

key_beq_iff : (k j : Key) → (key_beq k j ≡ true) ↔ (k ≡ j)
unfolding key_beq
key_beq_iff k j = (
  λ h. ground (arith, text_beq_iff k.zone j.zone, text_beq_iff k.ip j.ip),
  λ h. ground (arith, text_beq_iff k.zone j.zone, text_beq_iff k.ip j.ip),
)

instance pub key_eq : Eq Key
key_eq = record { beq = key_beq; beq_iff = key_beq_iff }

-- `none` is the cached verdict "not listed".
pub record Stored : Type 0 where
  pub at : ℕ
  pub value : Option Hit

abbrev pub Cache : Type 0
Cache = List (Key × Stored)

-- The entry that `_cache_get` answers from, `none` where it reports a miss.
unfoldable pub fresh : ℕ → Option Stored → Option (Option Hit)
fresh now none = none
fresh now (some stored) = if ltb cache_ttl (now - stored.at) then none else some stored.value

unfoldable pub cache_get : ℕ → Key → Cache → Option (Option Hit)
unfolding fresh
cache_get now key cache = fresh now (lookup key cache)

-- What `_cache_get` leaves: an expired entry is popped.
unfoldable pub after_get : ℕ → Key → Cache → Cache
unfolding cache_get
after_get now key cache = elim (cache_get now key cache) [
  | none ↦ remove key cache
  | some value ↦ cache
]

-- `sorted(_CACHE.items(), key=…)`: a stable sort by the time of the entry.
insert_by_time : Key × Stored → Cache → Cache
insert_by_time e [] = e ∷ []
insert_by_time e (f ∷ l) = if leb e.1.at f.1.at then e ∷ f ∷ l else f ∷ insert_by_time e l

by_time : Cache → Cache
unfolding insert_by_time
by_time [] = []
by_time (e ∷ l) = insert_by_time e (by_time l)

drop_all : Cache → Cache → Cache
drop_all [] cache = cache
drop_all (e ∷ l) cache = drop_all l (remove e.0 cache)

-- The oldest tenth goes when the cache is full.
evict : Cache → Cache
unfolding by_time drop_all
evict cache =
    if leb cache_max (length cache)
    then drop_all (take (cache_max / 10) (by_time cache)) cache
    else cache

unfoldable pub cache_set : ℕ → Key → Option Hit → Cache → Cache
unfolding evict
cache_set now key value cache = put key (record { at = now; value = value }) (evict cache)
