-- ===== src/Blacklist/Check.antt =====
-- `check_ip` and `check_ips` of app/blacklist.py. One call reads the clock once here, as `now`.
pub mod Soundness
pub mod Verdicts
use dmarc_geeks.Common.{
  List, Option, Text, [], filter, if◌then◌else◌, is_empty, join, length, none, put, some, take,
  text, ℕ, ◌++◌, ◌∷◌, nat_eq, text_eq,
}
use dmarc_geeks.Blacklist.Zones.{Zone, Hit, active_blacklists, is_listing_code}
use dmarc_geeks.Blacklist.Address.{reverse_ip}
use dmarc_geeks.Blacklist.Cache.{Key, cache_get, after_get, cache_set}
use dmarc_geeks.Blacklist.Resolver.{
  RdType, a, txt, Answer, Lookup, found, absent, raised, Dnsbl, resolve_with_retry, resolvers_for,
}

unfoldable pub join_txt : Lookup → Text
join_txt (found (t ∷ r)) = take 200 (join (text " ") (t ∷ r))
join_txt other = []

-- `hits.append(…)` for a hit, `continue` for none.
unfoldable pub prepend : Option Hit → List Hit → List Hit
prepend none hs = hs
prepend (some h) hs = h ∷ hs

module _ (resolve : ℕ → Text → RdType → Answer) (now : ℕ) where
  store : Key → Option Hit → Dnsbl → Dnsbl
  store key value s = record s { cache = cache_set now key value s.cache }

  hit_of : Zone → Text → List ℕ → List Text → Hit
  hit_of z qname pool codes = record {
    zone = z.zone;
    name = z.name;
    severity = z.severity;
    codes = codes;
    txt = join_txt (resolve_with_retry resolve qname txt none pool);
  }

  -- The tail of the loop body, from the outcome of the A lookup.
  judge : Zone → Key → Text → List ℕ → Dnsbl → Lookup → Option Hit × Dnsbl
  unfolding store hit_of
  judge z key qname pool s (raised e) = (none, s)
  judge z key qname pool s absent = (none, store key none s)
  judge z key qname pool s (found []) = (none, store key none s)
  judge z key qname pool s (found (c ∷ cs)) =
      let codes = filter is_listing_code (c ∷ cs) in
      let hit = hit_of z qname pool codes in
      if is_empty codes then (none, s) else (some hit, store key (some hit) s)

  -- The resolvers are chosen, and the zone is skipped where none is trusted.
  ask : Zone → Key → Text → List ℕ → Dnsbl → Option Hit × Dnsbl
  unfolding judge
  ask z key qname [] s = (none, s)
  ask z key qname (r ∷ pool) s =
      judge z key qname (r ∷ pool) s (resolve_with_retry resolve qname a none (r ∷ pool))

  query : Zone → Key → Text → Dnsbl → Option Hit × Dnsbl
  unfolding ask
  query z key rev s =
      let (pool, s') = resolvers_for resolve now z.zone s in
      ask z key (rev ++ text "." ++ z.zone) pool s'

  -- One round of the loop of `check_ip`.
  unfoldable pub check_zone : Text → Text → Zone → Dnsbl → Option Hit × Dnsbl
  unfolding query
  check_zone rev ip z s =
      let key : Key = record { zone = z.zone; ip = ip } in
      elim (cache_get now key s.cache) [
        | some value ↦ (value, s)
        | none ↦ query z key rev (record s { cache = after_get now key s.cache })
      ]

  unfoldable pub check_zones : Text → Text → List Zone → Dnsbl → List Hit × Dnsbl
  unfolding prepend
  check_zones rev ip [] s = ([], s)
  check_zones rev ip (z ∷ zs) s =
      let (h, s') = check_zone rev ip z s in
      let (hs, s'') = check_zones rev ip zs s' in (prepend h hs, s'')

  -- `lists` is `none` for the active blacklists of the settings' key.
  unfoldable pub check_ip : Text → Text → Option (List Zone) → Dnsbl → List Hit × Dnsbl
  unfolding check_zones
  check_ip dqs_key ip lists s = elim (reverse_ip ip) [
    | none ↦ ([], s)
    | some rev ↦ check_zones rev ip (elim lists [ none ↦ active_blacklists dqs_key | some l ↦ l ]) s
  ]

  unfoldable pub check_ips :
      Text → List Text → Dnsbl → List (Text × List Hit) → List (Text × List Hit)
  unfolding check_ip
  check_ips dqs_key [] s out = out
  check_ips dqs_key (ip ∷ ips) s out =
      let (hits, s') = check_ip dqs_key ip none s in
      check_ips dqs_key ips s' (if is_empty hits then out else put ip hits out)

-- `cache_clear`
cache_clear : Dnsbl → ℕ × Dnsbl
cache_clear s = (length s.cache, record s { cache = []; probes = [] })
