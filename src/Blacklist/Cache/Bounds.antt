-- ===== src/Blacklist/Cache/Bounds.antt =====
-- The size of the lookup cache of app/blacklist.py.
use dmarc_geeks.Common.{
  Bool-cases, Option, [], arith, beq_refl, inl, inr, leb, length, length-put, length-remove,
  length-remove_present, lookup, refl, remove, some, suc, take, ℕ, ◌<◌, ◌==◌, ◌∷◌, ◌≡◌, ◌≢◌, ◌≤◌,
  nat_eq, text_eq,
}
use dmarc_geeks.Blacklist.Zones.{Hit}
use dmarc_geeks.Blacklist.Cache.{
  cache_max, Key, key_eq, Stored, Cache, insert_by_time, by_time, drop_all, evict, cache_set,
  after_get,
}

abbrev Known : Cache → Key → Type 0
Known cache k = (s : Stored) × (lookup k cache ≡ some s)

Known-cons : (e : Key × Stored) (k : Key) (cache : Cache) → Known cache k → Known (e ∷ cache) k
unfolding lookup
Known-cons (j, v) k cache (s, h) = elim (Bool-cases (j == k)) [
  | inl same ↦ (v, rw same)
  | inr other ↦ (s, rw other h)
]

Known-head : (e : Key × Stored) (cache : Cache) → Known (e ∷ cache) e.0
unfolding lookup
Known-head (j, v) cache = (v, rw (beq_refl j))

abbrev HeadKnown : Cache → Cache → Type 0
HeadKnown [] cache = Unit
HeadKnown (e ∷ l) cache = Known cache e.0

HeadKnown-cons :
    (l : Cache) (e : Key × Stored) (cache : Cache) → HeadKnown l cache → HeadKnown l (e ∷ cache)
HeadKnown-cons [] e cache h = tt
HeadKnown-cons (f ∷ l) e cache h = Known-cons e f.0 cache h

insert_by_time-HeadKnown :
    (e : Key × Stored) (l cache : Cache)
    → Known cache e.0
    → HeadKnown l cache
    → HeadKnown (insert_by_time e l) cache
unfolding insert_by_time
insert_by_time-HeadKnown e [] cache h k = h
insert_by_time-HeadKnown e (f ∷ l) cache h k = elim (Bool-cases (leb e.1.at f.1.at)) [
  | inl first ↦ rw first h
  | inr later ↦ rw later k
]

by_time-HeadKnown : (cache : Cache) → HeadKnown (by_time cache) cache
unfolding by_time
by_time-HeadKnown [] = tt
by_time-HeadKnown (e ∷ l) =
    insert_by_time-HeadKnown e (by_time l) (e ∷ l) (Known-head e l)
      (HeadKnown-cons (by_time l) e l (by_time-HeadKnown l))

by_time-ne-nil : (e : Key × Stored) (l : Cache) → by_time (e ∷ l) ≢ []
unfolding by_time
by_time-ne-nil e l =
    unfold insert_by_time in
    elim (by_time l) as (λ s. insert_by_time e s ≢ []) [ [] ↦ ground arith | f ∷ r ↦ ground arith ]

length-drop_all : (l cache : Cache) → length (drop_all l cache) ≤ length cache
unfolding drop_all
length-drop_all [] cache = omega arith
length-drop_all (e ∷ l) cache =
    omega (arith, length-drop_all l (remove e.0 cache), length-remove e.0 cache)

length-drop_oldest :
    (n : ℕ) (l cache : Cache)
    → l ≢ []
    → HeadKnown l cache
    → length (drop_all (take (suc n) l) cache) < length cache
unfolding drop_all
length-drop_oldest n [] cache h k = absurd (h refl)
length-drop_oldest n (e ∷ l) cache h (s, k) =
    omega
      (arith, length-drop_all (take n l) (remove e.0 cache), length-remove_present e.0 s cache k)

length-evict : (cache : Cache) → length cache ≤ cache_max → length (evict cache) < cache_max
unfolding evict
length-evict [] h = ground arith
length-evict (e ∷ l) h = ground (
  arith,
  length-drop_oldest 999 (by_time (e ∷ l)) (e ∷ l) (by_time-ne-nil e l) (by_time-HeadKnown (e ∷ l)),
)

-- The cache holds at most `cache_max` entries: `_cache_set` and `_cache_get` keep that bound.
pub cache_bounded :
    (now : ℕ) (key : Key) (value : Option Hit) (cache : Cache)
    → length cache ≤ cache_max
    → (length (cache_set now key value cache) ≤ cache_max)
      × (length (after_get now key cache) ≤ cache_max)
unfolding cache_set after_get
cache_bounded now key value cache h = (
  omega (
    arith,
    length-put key (record { at = now; value = value }) (evict cache),
    length-evict cache h,
  ),
  ground (arith, length-remove key cache),
)
