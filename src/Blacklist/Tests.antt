-- ===== src/Blacklist/Tests.antt =====
-- Runs of the DNSBL check of app/blacklist.py.
use dmarc_geeks.Common.{text_beq, nat_eq, text_eq, int_eq, option_eq, pair_eq}
use dmarc_geeks.Common.{ends_with}
use dmarc_geeks.Blacklist.Zones.{is_public_spamhaus}
use dmarc_geeks.Blacklist.Resolver.{resolvers_for}
use dmarc_geeks.Common.{join}
use dmarc_geeks.Common.{split}
use dmarc_geeks.Common.{
  All, Text, [], arith, if◌then◌else◌, leb, length, lookup, map, none, refl, some, suc, text, zero,
  ℕ, ◌-◌, ◌∷◌, ◌≡◌, ◌≤◌, nat_eq, text_eq,
}
use dmarc_geeks.Blacklist.Zones.{Zone, is_listing_code}
use dmarc_geeks.Blacklist.Address.{reverse_ip, reverse_ip-reverse_ip}
use dmarc_geeks.Blacklist.Cache.{Key, cache_get, cache_set, after_get, cache_max, cache_ttl}
use dmarc_geeks.Blacklist.Cache.Bounds.{cache_bounded}
use dmarc_geeks.Blacklist.Cache.Laws.{cache_get-cache_set}
use dmarc_geeks.Blacklist.Resolver.{
  RdType, a, txt, Answer, records, no_response, Dnsbl, resolve_with_retry,
}
use dmarc_geeks.Blacklist.Check.{check_zone, check_ip}
use dmarc_geeks.Blacklist.Check.Soundness.{IsGenuine, IsSound, check_ip-IsSound}
use dmarc_geeks.Blacklist.Check.Verdicts.{Outcome, key_for, check_zone-Outcome}

abbrev ip : Text
ip = text "192.0.2.1"

abbrev spamcop : Zone
spamcop = record { zone = text "bl.spamcop.net"; name = text "SpamCop"; severity = 2 }

abbrev pub empty_state : Dnsbl
empty_state = record { cache = []; probes = []; warned = [] }

-- The first resolver does not answer, the others list the address.
abbrev pub lists_all : ℕ → Text → RdType → Answer
lists_all zero name t = no_response
lists_all (suc n) name a = records (text "127.0.0.2" ∷ text "127.255.255.254" ∷ [])
lists_all (suc n) name txt = records (text "listed" ∷ [])

abbrev key : Key
key = key_for spamcop ip

reverse_ip_run : reverse_ip ip ≡ some (text "1.2.0.192")
unfolding reverse_ip split join
reverse_ip_run = refl

reversed_twice : reverse_ip (text "1.2.0.192") ≡ some ip
reversed_twice = reverse_ip-reverse_ip ip (text "1.2.0.192") reverse_ip_run

reverse_ip_no_address : reverse_ip (text "2001:db8::1") ≡ none
unfolding reverse_ip split
reverse_ip_no_address = refl

hit_codes :
    map (λ h. h.codes) (check_ip lists_all 100 [] ip (some (spamcop ∷ [])) empty_state).0
    ≡ (text "127.0.0.2" ∷ []) ∷ []
unfolding check_ip reverse_ip split check_zone cache_get lookup resolvers_for is_public_spamhaus
    ends_with text_beq resolve_with_retry is_listing_code
hit_codes = refl

empty-IsSound : IsSound []
unfolding lookup
empty-IsSound = record { genuine = λ k st h e v. absurd (none-ne-some e) }
  where
    none-ne-some : {A : Type 0} {x : A} → none ≡ some x → ⊥
    none-ne-some e = cc

check_ip-IsSound_example :
    All (λ h. IsGenuine h.zone h) (check_ip lists_all 100 [] ip none empty_state).0
    × IsSound (check_ip lists_all 100 [] ip none empty_state).1.cache
check_ip-IsSound_example = check_ip-IsSound lists_all 100 [] ip none empty_state empty-IsSound

check_zone-Outcome_example :
    Outcome lists_all 100 spamcop ip
      (text "1.2.0.192")
      empty_state
      (check_zone lists_all 100 (text "1.2.0.192") ip spamcop empty_state)
check_zone-Outcome_example =
    check_zone-Outcome lists_all 100 spamcop ip (text "1.2.0.192") empty_state

read_back :
    cache_get 4000 key (cache_set 100 key none [])
    ≡ (if leb (4000 - 100) cache_ttl then some none else none)
read_back = cache_get-cache_set 100 4000 key none []

cache_bounded_example :
    (length (cache_set 100 key none []) ≤ cache_max) × (length (after_get 100 key []) ≤ cache_max)
cache_bounded_example = cache_bounded 100 key none [] (omega arith)
