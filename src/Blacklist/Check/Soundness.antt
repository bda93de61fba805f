-- ===== src/Blacklist/Check/Soundness.antt =====
-- The codes of the hits that `check_ip` of app/blacklist.py reports and caches.
use dmarc_geeks.Common.{
  All, Bool, Bool-cases, List, Option, Option-cases, Text, [], ap, arith, false, filter, inl, inr,
  is_empty, lookup, none, refl, some, subst_some, sym, true, ℕ, ◌∙◌, ◌∷◌, ◌≡◌, ◌≢◌, nat_eq, text_eq,
}
use dmarc_geeks.Blacklist.Zones.{Zone, Hit, is_listing_code}
use dmarc_geeks.Blacklist.Address.{reverse_ip}
use dmarc_geeks.Blacklist.Cache.{Key, key_eq, Stored, Cache, cache_get, after_get, cache_set}
use dmarc_geeks.Blacklist.Cache.Laws.{lookup-cache_set, lookup-after_get}
use dmarc_geeks.Blacklist.Resolver.{
  RdType, Answer, Lookup, found, absent, raised, Dnsbl, resolvers_for, resolvers_for-cache,
}
use dmarc_geeks.Blacklist.Check.{
  prepend, hit_of, judge, ask, query, check_zone, check_zones, check_ip,
}

-- The hit is from the zone, it has codes, and each of them means "listed".
abbrev pub IsGenuine : Text → Hit → Type 0
IsGenuine zone h = (h.zone ≡ zone) × (h.codes ≢ []) × All (λ c. is_listing_code c ≡ true) h.codes

-- Every hit in the cache is genuine for the zone of its key.
pub record IsSound (cache : Cache) : Type 0 where
  pub genuine :
      (k : Key) (st : Stored) (h : Hit)
      → lookup k cache ≡ some st
      → st.value ≡ some h
      → IsGenuine k.zone h

cached-IsGenuine :
    (now : ℕ) (key : Key) (cache : Cache) (h : Hit)
    → IsSound cache
    → cache_get now key cache ≡ some (some h)
    → IsGenuine key.zone h
unfolding cache_get
cached-IsGenuine now key cache h sound e = elim (Option-cases (lookup key cache)) [
  | inl missing ↦ absurd (no_entry missing)
  | inr (st, present) ↦ sound.genuine key st h present (held st present)
]
  where
    no_entry : lookup key cache ≡ none → ⊥
    no_entry missing = ground arith

    held : (st : Stored) → lookup key cache ≡ some st → st.value ≡ some h
    held st present = ground arith

after_get-IsSound :
    (now : ℕ) (key : Key) (cache : Cache) → IsSound cache → IsSound (after_get now key cache)
after_get-IsSound now key cache sound = record {
  genuine = λ k st h e v. sound.genuine k st h (lookup-after_get now key k cache st e) v;
}

cache_set-IsSound :
    (now : ℕ) (key : Key) (value : Option Hit) (cache : Cache)
    → IsSound cache
    → ((h : Hit) → value ≡ some h → IsGenuine key.zone h)
    → IsSound (cache_set now key value cache)
cache_set-IsSound now key value cache sound fine = record {
  genuine = λ k st h e v. elim (lookup-cache_set now key k value cache st e) [
    | inl (same, stored) ↦ rw (← same) (fine h (sym stored ∙ v))
    | inr old ↦ sound.genuine k st h old v
  ];
}

filter-All : (p : Text → Bool) (l : List Text) → All (λ c. p c ≡ true) (filter p l)
filter-All p [] = tt
filter-All p (x ∷ l) = elim (Bool-cases (p x)) [
  | inl good ↦ rw good (good, filter-All p l)
  | inr bad ↦ rw bad (filter-All p l)
]

-- What one step guarantees: its hit is genuine, and so is its cache.
abbrev Sound : Text → Option Hit × Dnsbl → Type 0
Sound zone r = ((h : Hit) → r.0 ≡ some h → IsGenuine zone h) × IsSound r.1.cache

module _ (resolve : ℕ → Text → RdType → Answer) (now : ℕ) where
  hit_of-IsGenuine :
      (z : Zone) (qname : Text) (pool : List ℕ) (answers : List Text)
      → is_empty (filter is_listing_code answers) ≡ false
      → IsGenuine z.zone (hit_of resolve now z qname pool (filter is_listing_code answers))
  unfolding hit_of
  hit_of-IsGenuine z qname pool answers some_left =
      (refl, ground arith, filter-All is_listing_code answers)

  judge-Sound :
      (z : Zone) (ip qname : Text) (pool : List ℕ) (s : Dnsbl) (l : Lookup)
      → IsSound s.cache
      → Sound z.zone (judge resolve now z (record { zone = z.zone; ip = ip }) qname pool s l)
  unfolding judge
  judge-Sound z ip qname pool s (raised e) sound = (λ h p. cc, sound)
  judge-Sound z ip qname pool s absent sound =
      (λ h p. cc, cache_set-IsSound now _ none s.cache sound (λ h p. cc))
  judge-Sound z ip qname pool s (found []) sound =
      (λ h p. cc, cache_set-IsSound now _ none s.cache sound (λ h p. cc))
  judge-Sound z ip qname pool s (found (c ∷ cs)) sound =
      elim (Bool-cases (is_empty (filter is_listing_code (c ∷ cs)))) [
        | inl nothing ↦ rw nothing (λ h p. cc, sound)
        | inr codes ↦
            let genuine = hit_of-IsGenuine z qname pool (c ∷ cs) codes in
            rw codes (
              λ h p. subst_some (IsGenuine z.zone) _ h p genuine,
              cache_set-IsSound now _ _ s.cache sound
                  (λ h p. subst_some (IsGenuine z.zone) _ h p genuine),
            )
      ]

  ask-Sound :
      (z : Zone) (ip qname : Text) (pool : List ℕ) (s : Dnsbl)
      → IsSound s.cache
      → Sound z.zone (ask resolve now z (record { zone = z.zone; ip = ip }) qname pool s)
  unfolding ask
  ask-Sound z ip qname [] s sound = (λ h p. cc, sound)
  ask-Sound z ip qname (r ∷ pool) s sound = judge-Sound z ip qname (r ∷ pool) s _ sound

  query-Sound :
      (z : Zone) (ip rev : Text) (s : Dnsbl)
      → IsSound s.cache
      → Sound z.zone (query resolve now z (record { zone = z.zone; ip = ip }) rev s)
  unfolding query
  query-Sound z ip rev s sound =
      ask-Sound z ip _ _ (resolvers_for resolve now z.zone s).1
        (rw (resolvers_for-cache resolve now z.zone s) sound)

  check_zone-Sound :
      (rev ip : Text) (z : Zone) (s : Dnsbl)
      → IsSound s.cache
      → Sound z.zone (check_zone resolve now rev ip z s)
  unfolding check_zone
  check_zone-Sound rev ip z s sound =
      by_cache (cache_get now (record { zone = z.zone; ip = ip }) s.cache) refl
    where
      by_cache :
          (c : Option (Option Hit))
          → cache_get now (record { zone = z.zone; ip = ip }) s.cache ≡ c
          → Sound z.zone (check_zone resolve now rev ip z s)
      by_cache none e =
          rw (e, check_zone) (query-Sound z ip rev _ (after_get-IsSound now _ s.cache sound))
      by_cache (some value) e =
          rw (e, check_zone) (λ h p. cached-IsGenuine now _ s.cache h sound (e ∙ ap some p), sound)

  -- The hits of a loop are genuine for their own zones, and the cache is kept sound.
  check_zones-IsSound :
      (rev ip : Text) (zs : List Zone) (s : Dnsbl)
      → IsSound s.cache
      → All (λ h. IsGenuine h.zone h) (check_zones resolve now rev ip zs s).0
        × IsSound (check_zones resolve now rev ip zs s).1.cache
  unfolding check_zones
  check_zones-IsSound rev ip [] s sound = (tt, sound)
  check_zones-IsSound rev ip (z ∷ zs) s sound =
      let (fine, sound') = check_zone-Sound rev ip z s sound in
      let (rest, sound'') =
        check_zones-IsSound rev ip zs (check_zone resolve now rev ip z s).1 sound' in
      (prepend_fine (check_zone resolve now rev ip z s).0 _ fine rest, sound'')
    where
      prepend_fine :
          (o : Option Hit) (hs : List Hit)
          → ((h : Hit) → o ≡ some h → IsGenuine z.zone h)
          → All (λ h. IsGenuine h.zone h) hs
          → All (λ h. IsGenuine h.zone h) (prepend o hs)
      prepend_fine none hs fine rest = rest
      prepend_fine (some h) hs fine rest =
          let (same, codes, listed) = fine h refl in ((refl, codes, listed), rest)

  -- Whatever the DNS answers, every hit that `check_ip` reports carries at least one return code,
  -- and each of its codes is in 127.0.0.0/8 outside the refusal range 127.255.255.0/24; and the
  -- cache that the call leaves holds such hits only, if it did before.
  pub check_ip-IsSound :
      (dqs_key ip : Text) (lists : Option (List Zone)) (s : Dnsbl)
      → IsSound s.cache
      → All (λ h. IsGenuine h.zone h) (check_ip resolve now dqs_key ip lists s).0
        × IsSound (check_ip resolve now dqs_key ip lists s).1.cache
  unfolding check_ip
  check_ip-IsSound dqs_key ip lists s sound = elim (Option-cases (reverse_ip ip)) [
    | inl no_ipv4 ↦ rw (no_ipv4, check_ip) (tt, sound)
    | inr (rev, ipv4) ↦ rw (ipv4, check_ip) (check_zones-IsSound rev ip _ s sound)
  ]
