-- ===== src/Blacklist/Check/Verdicts.antt =====
-- When one round of the loop of `check_ip` in app/blacklist.py claims a verdict, and which.
use dmarc_geeks.Common.{
  Bool, Bool-cases, List, Option, Text, [], any, arith, false, filter, inl, inr, is_empty, mem,
  none, refl, some, text, true, ℕ, ◌++◌, ◌∷◌, ◌≡◌, ◌⊎◌, nat_eq, text_eq, int_eq, option_eq, pair_eq,
}
use dmarc_geeks.Blacklist.Zones.{Zone, Hit, is_listing_code}
use dmarc_geeks.Blacklist.Cache.{Key, cache_get, after_get}
use dmarc_geeks.Blacklist.Cache.Laws.{cache_get-cache_set_now, cache_get-after_get}
use dmarc_geeks.Blacklist.Resolver.{
  RdType, a, Answer, records, no_such_name, no_response, broken, Lookup, LookupError, found, absent,
  raised, refused, unreachable, failure, Dnsbl, resolvers_for, resolvers_for-cache,
  resolve_with_retry, is_refusal,
}
use dmarc_geeks.Blacklist.Check.{judge, ask, query, check_zone, hit_of}

abbrev pub key_for : Zone → Text → Key
key_for z ip = record { zone = z.zone; ip = ip }

-- An answer that settles the question: a code that means "listed", or NXDOMAIN.
abbrev pub is_definitive : Answer → Bool
is_definitive (records l) = any is_listing_code l
is_definitive no_such_name = true
is_definitive no_response = false
is_definitive broken = false

module _ (resolve : ℕ → Text → RdType → Answer) (qname : Text) where
  -- What the lookup of the retry loop means for the answers of the resolvers.
  data Heard (pool : List ℕ) : Lookup → Type 0 where
    heard :
        (r : ℕ) (l : List Text)
        → mem r pool ≡ true
        → resolve r qname a ≡ records l
        → any is_listing_code l ≡ true
        → Heard pool (found l)
    denied : (r : ℕ) → mem r pool ≡ true → resolve r qname a ≡ no_such_name → Heard pool absent
    silent :
        (e : LookupError)
        → any (λ r. is_definitive (resolve r qname a)) pool ≡ false
        → Heard pool (raised e)

  Heard-more :
      (r : ℕ) (pool : List ℕ) (l : Lookup)
      → is_definitive (resolve r qname a) ≡ false
      → Heard pool l
      → Heard (r ∷ pool) l
  unfolding mem
  Heard-more r pool l vague (heard s ans m e h) = heard s ans (ground (arith, m)) e h
  Heard-more r pool l vague (denied s m e) = denied s (ground (arith, m)) e
  Heard-more r pool l vague (silent e q) = silent e (ground (arith, vague, q))

  Heard-first :
      (last : Option LookupError) (r : ℕ) (pool : List ℕ)
      → ((e : LookupError) → Heard pool (resolve_with_retry resolve qname a (some e) pool))
      → Heard (r ∷ pool) (resolve_with_retry resolve qname a last (r ∷ pool))
  unfolding resolve_with_retry mem is_refusal
  Heard-first last r pool rest = by_answer (resolve r qname a) refl
    where
      more :
          (e : LookupError)
          → is_definitive (resolve r qname a) ≡ false
          → Heard (r ∷ pool) (resolve_with_retry resolve qname a (some e) pool)
      more e vague = Heard-more r pool _ vague (rest e)

      by_answer :
          (ans : Answer)
          → resolve r qname a ≡ ans
          → Heard (r ∷ pool) (resolve_with_retry resolve qname a last (r ∷ pool))
      by_answer (records l) e = elim (Bool-cases (any is_listing_code l)) [
        | inl listed ↦
            rw (resolve_with_retry, e, is_refusal, listed) (heard r l (ground arith) e listed)
        | inr refusal ↦
            rw (resolve_with_retry, e, is_refusal, refusal)
              (more (refused l) (rw (e, refusal) refl))
      ]
      by_answer no_such_name e = rw (resolve_with_retry, e) (denied r (ground arith) e)
      by_answer no_response e = rw (resolve_with_retry, e) (more unreachable (rw e refl))
      by_answer broken e = rw (resolve_with_retry, e) (more failure (rw e refl))

  Heard-pool :
      (e : LookupError) (pool : List ℕ)
      → Heard pool (resolve_with_retry resolve qname a (some e) pool)
  unfolding resolve_with_retry
  Heard-pool e [] = silent e refl
  Heard-pool e (r ∷ pool) = Heard-first (some e) r pool (λ f. Heard-pool f pool)

  resolve_with_retry-Heard :
      (r : ℕ) (pool : List ℕ)
      → Heard (r ∷ pool) (resolve_with_retry resolve qname a none (r ∷ pool))
  resolve_with_retry-Heard r pool = Heard-first none r pool (λ f. Heard-pool f pool)

-- The outcomes of one round for the name `qname`, by what the resolvers answer: a hit has exactly
-- the listing codes of an answer, and is cached; NXDOMAIN is cached as clean; and where no resolver
-- of the pool settles the question, nothing is returned and nothing is cached.
module _ (resolve : ℕ → Text → RdType → Answer) (now : ℕ) (key : Key) (qname : Text)
    (pool : List ℕ) where
  pub data Judged : Option Hit × Dnsbl → Type 0 where
    listed :
        {r : Option Hit × Dnsbl} (n : ℕ) (l : List Text) (h : Hit)
        → mem n pool ≡ true
        → resolve n qname a ≡ records l
        → h.codes ≡ filter is_listing_code l
        → r.0 ≡ some h
        → cache_get now key r.1.cache ≡ some (some h)
        → Judged r
    clean :
        {r : Option Hit × Dnsbl} (n : ℕ)
        → mem n pool ≡ true
        → resolve n qname a ≡ no_such_name
        → r.0 ≡ none
        → cache_get now key r.1.cache ≡ some none
        → Judged r
    unsettled :
        {r : Option Hit × Dnsbl}
        → any (λ n. is_definitive (resolve n qname a)) pool ≡ false
        → r.0 ≡ none
        → cache_get now key r.1.cache ≡ none
        → Judged r

any-filter :
    (l : List Text) → any is_listing_code l ≡ true → is_empty (filter is_listing_code l) ≡ false
any-filter [] h = cc
any-filter (c ∷ l) h = ground (arith, any-filter l)

module _ (resolve : ℕ → Text → RdType → Answer) (now : ℕ) (z : Zone) (ip : Text) where
  judge-Judged :
      (qname : Text) (pool : List ℕ) (s : Dnsbl) (l : Lookup)
      → cache_get now (key_for z ip) s.cache ≡ none
      → Heard resolve qname pool l
      → Judged resolve now
          (key_for z ip)
          qname
          pool
          (judge resolve now z (key_for z ip) qname pool s l)
  unfolding judge hit_of
  judge-Judged qname pool s _ miss (silent e q) = unsettled q refl miss
  judge-Judged qname pool s _ miss (denied r m e) =
      clean r m e refl (cache_get-cache_set_now now _ none s.cache)
  judge-Judged qname pool s _ miss (heard r [] m e h) = absurd (ground (arith, h))
  judge-Judged qname pool s _ miss (heard r (c ∷ cs) m e h) =
      rw (any-filter (c ∷ cs) h)
        (listed r (c ∷ cs) _ m e refl refl (cache_get-cache_set_now now _ _ s.cache))

  ask-Judged :
      (qname : Text) (pool : List ℕ) (s : Dnsbl)
      → cache_get now (key_for z ip) s.cache ≡ none
      → Judged resolve now (key_for z ip) qname pool (ask resolve now z (key_for z ip) qname pool s)
  unfolding ask
  ask-Judged qname [] s miss = unsettled refl refl miss
  ask-Judged qname (r ∷ pool) s miss =
      judge-Judged qname (r ∷ pool) s _ miss (resolve_with_retry-Heard resolve qname r pool)

  -- The resolvers that the zone is asked with, and the name.
  abbrev pub trusted : Dnsbl → List ℕ
  trusted s =
      (resolvers_for resolve now z.zone
        (record s { cache = after_get now (key_for z ip) s.cache })).0

  abbrev pub zone_name : Text → Text
  zone_name rev = rev ++ text "." ++ z.zone

  query-Judged :
      (rev : Text) (s : Dnsbl)
      → cache_get now (key_for z ip) s.cache ≡ none
      → Judged resolve now
          (key_for z ip)
          (zone_name rev)
          (resolvers_for resolve now z.zone s).0
          (query resolve now z (key_for z ip) rev s)
  unfolding query
  query-Judged rev s miss =
      ask-Judged (zone_name rev) (resolvers_for resolve now z.zone s).0
        (resolvers_for resolve now z.zone s).1 (rw (resolvers_for-cache resolve now z.zone s) miss)

  -- A round returns a cached verdict and changes nothing, or the cache has none and the round is
  -- judged by what the trusted resolvers answer.
  pub Outcome : Text → Dnsbl → Option Hit × Dnsbl → Type 0
  Outcome rev s r =
      ((v : Option Hit) × (cache_get now (key_for z ip) s.cache ≡ some v) × (r ≡ (v, s)))
      ⊎ ((cache_get now (key_for z ip) s.cache ≡ none)
          × Judged resolve now (key_for z ip) (zone_name rev) (trusted s) r)

  -- One round for a zone returns the verdict of the cache and changes nothing; or the cache has none,
  -- and it is so by the answers of the trusted resolvers: a hit has exactly the listing codes that
  -- one of them answers, and is cached; without a hit the address is cached as clean only if one of
  -- them answers NXDOMAIN; and nothing is returned or cached only if none of them settles it.
  pub check_zone-Outcome :
      (rev : Text) (s : Dnsbl) → Outcome rev s (check_zone resolve now rev ip z s)
  unfolding check_zone Outcome
  check_zone-Outcome rev s = by_cache (cache_get now (key_for z ip) s.cache) refl
    where
      by_cache :
          (c : Option (Option Hit))
          → cache_get now (key_for z ip) s.cache ≡ c
          → Outcome rev s (check_zone resolve now rev ip z s)
      by_cache none e =
          inr (e, rw (e, check_zone) (query-Judged rev _ (cache_get-after_get now _ s.cache e)))
      by_cache (some value) e = inl (value, e, rw (e, check_zone) refl)
