-- ===== src/Blacklist/Zones.antt =====
-- The DNSBL zones of app/blacklist.py, the choice of the active ones, and the hits.
use dmarc_geeks.Common.{
  All, Bool, List, Text, [], arith, ends_with, filter, if◌then◌else◌, is_empty, max, not,
  starts_with, strip, text, ℕ, ◌&&◌, ◌++◌, ◌==◌, ◌||◌, ◌∷◌, ◌≤◌, nat_eq, text_eq,
}

pub record Zone : Type 0 where
  pub zone : Text
  pub name : Text
  pub severity : ℕ

-- A hit: the dict that `check_ip` appends.
pub record Hit : Type 0 where
  pub zone : Text
  pub name : Text
  pub severity : ℕ
  pub codes : List Text
  pub txt : Text

abbrev entry : Text → Text → ℕ → Zone
entry z n s = record { zone = z; name = n; severity = s }

abbrev pub public_blacklists : List Zone
public_blacklists =
    entry (text "zen.spamhaus.org") (text "Spamhaus ZEN") 3
    ∷ entry (text "sbl.spamhaus.org") (text "Spamhaus SBL") 3
    ∷ entry (text "xbl.spamhaus.org") (text "Spamhaus XBL") 3
    ∷ entry (text "pbl.spamhaus.org") (text "Spamhaus PBL") 2
    ∷ entry (text "bl.spamcop.net") (text "SpamCop") 2
    ∷ entry (text "cbl.abuseat.org") (text "AbuseAt CBL") 3
    ∷ entry (text "dnsbl.sorbs.net") (text "SORBS") 2
    ∷ entry (text "b.barracudacentral.org") (text "Barracuda") 3
    ∷ entry (text "psbl.surriel.com") (text "PSBL Surriel") 2
    ∷ entry (text "bl.mailspike.net") (text "Mailspike") 2
    ∷ entry (text "ix.dnsbl.manitu.net") (text "Manitu (NiX)") 2
    ∷ entry (text "dnsbl-1.uceprotect.net") (text "UCEProtect L1") 2
    ∷ []

unfoldable pub spamhaus_dqs_zones : Text → List Zone
spamhaus_dqs_zones key =
    entry (key ++ text ".zen.dq.spamhaus.net") (text "Spamhaus ZEN (DQS)") 3
    ∷ entry (key ++ text ".sbl.dq.spamhaus.net") (text "Spamhaus SBL (DQS)") 3
    ∷ entry (key ++ text ".xbl.dq.spamhaus.net") (text "Spamhaus XBL (DQS)") 3
    ∷ entry (key ++ text ".pbl.dq.spamhaus.net") (text "Spamhaus PBL (DQS)") 2
    ∷ []

-- The test that `active_blacklists` keeps a public zone by when a key is set.
unfoldable pub is_other : Zone → Bool
is_other z = not (ends_with z.zone (text "spamhaus.org")) && not (z.zone == text "cbl.abuseat.org")

-- The argument is `settings.spamhaus_dqs_key or ""`.
unfoldable pub active_blacklists : Text → List Zone
unfolding spamhaus_dqs_zones is_other strip
active_blacklists dqs_key =
    let key = strip dqs_key in
    if is_empty key
    then public_blacklists
    else spamhaus_dqs_zones key ++ filter is_other public_blacklists

-- Only 127.0.0.0/8 without 127.255.255.0/24 means "listed".
unfoldable pub is_listing_code : Text → Bool
is_listing_code code =
    starts_with code (text "127.") && not (starts_with code (text "127.255.255."))

unfoldable pub is_public_spamhaus : Text → Bool
is_public_spamhaus zone = ends_with zone (text ".spamhaus.org") || zone == text "cbl.abuseat.org"

-- `severity_for`: the highest severity of a hit-list, 0 if it is empty.
unfoldable pub severity_for : List Hit → ℕ
severity_for [] = 0
severity_for (h ∷ hs) = max h.severity (severity_for hs)

severity_for-le : (n : ℕ) (hs : List Hit) → All (λ h. h.severity ≤ n) hs → severity_for hs ≤ n
unfolding severity_for
severity_for-le n [] h = omega arith
severity_for-le n (x ∷ hs) (p, h) = omega (arith, severity_for-le n hs h)
