-- ===== src/MtScorer/Network.antt =====
-- app/mt_scorer.py: the checks of `score_email` on the sending host: PTR, rDNS, TLS, DNSBL, rspamd,
-- MX.
use dmarc_geeks.Common.{
  Bool, List, Option, Text, [], contains, ends_with, false, if◌then◌else◌, is_empty, lower, ltb,
  max, none, not, or_else, rstrip_by, some, split, starts_with, text, ℕ, ℤ, ◌&&◌, ◌*◌, ◌++◌, ◌-◌,
  ◌==◌, ◌||◌, ◌∷◌, nat_eq, text_eq, negsuc, pos,
}
use dmarc_geeks.MtScorer.{
  Status, pass, fail, warn, ptr, rdns_match, tls, dnsbl, rspamd, sender_mx, counted, full,
  CheckResult, World, get_first, Message, skipped,
}

-- A Python `str | None` is true.
unfoldable pub given : Option Text → Bool
given o = not (is_empty (or_else o []))

-- The last two labels of a host name, or `none` where it has but one.
unfoldable pub apex : List Text → Option Text
apex [] = none
apex (a ∷ []) = none
apex (a ∷ b ∷ []) = some (a ++ b'.' ∷ b)
apex (a ∷ b ∷ c ∷ parts) = apex (b ∷ c ∷ parts)

-- `_rdns_matches_sender`; a domain or a HELO that is missing is the empty text.
unfoldable pub rdns_matches_sender : Option Text → Text → Text → Bool
unfolding given apex
rdns_matches_sender rdns sender helo =
    let host = lower (or_else rdns []) in
    let domain = lower sender in
    given rdns
    && ((not (is_empty domain) && (host == domain || ends_with host (b'.' ∷ domain)))
        || (not (is_empty helo)
            && elim (apex (split b'.' (lower helo))) [ none ↦ false | some a ↦ ends_with host a ]))

unfoldable pub ptr_check : Option Text → CheckResult
unfolding given
ptr_check rdns = if given rdns then counted ptr pass full else counted ptr fail 0

unfoldable pub rdns_check : Option Text → Text → Text → List CheckResult
unfolding rdns_matches_sender given
rdns_check rdns sender helo =
    if rdns_matches_sender rdns sender helo
    then counted rdns_match pass full ∷ []
    else if given rdns
    then counted rdns_match warn 3000 ∷ []
    else []

unfoldable pub tls_check : Option Text → CheckResult
tls_check version =
    if starts_with (or_else version []) (text "TLS") then counted tls pass full else skipped tls

-- `_spamhaus_listed`.
unfoldable pub spamhaus_listed : World → Text → Bool
spamhaus_listed w ip =
    if is_empty ip || contains ip (text ":")
    then false
    else elim (w.blacklist ip) [ none ↦ false | some hits ↦ not (is_empty hits) ]

unfoldable pub dnsbl_check : World → Text → CheckResult
unfolding spamhaus_listed
dnsbl_check w ip = if spamhaus_listed w ip then counted dnsbl fail 0 else counted dnsbl pass full

-- The share for an rspamd score in thousandths.
unfoldable pub rspamd_share : ℤ → ℕ
rspamd_share (negsuc n) = full
rspamd_share (pos n) =
    if ltb n 3000
    then max 4000 (10000 - 2 * n)
    else if ltb n 6000
    then max 1000 (4000 - (n - 3000))
    else 0

unfoldable pub share_status : ℕ → Status
share_status n = if ltb 8000 n then pass else if ltb 4000 n then warn else fail

unfoldable pub rspamd_score : World → Message → Option ℤ
unfolding get_first
rspamd_score w msg =
    let header =
      or_else (some (get_first msg (text "X-Spam-Score")))
        (get_first msg (text "X-Rspamd-Score")) in
    let s = rstrip_by (λ c. c == b',') header in if is_empty s then none else w.to_float s

unfoldable pub rspamd_check : Option ℤ → CheckResult
unfolding rspamd_share share_status
rspamd_check none = skipped rspamd
rspamd_check (some rs) = counted rspamd (share_status (rspamd_share rs)) (rspamd_share rs)

unfoldable pub mx_check : List (ℕ × Text) → CheckResult
mx_check mxs = if is_empty mxs then counted sender_mx warn 3000 else counted sender_mx pass full

-- The checks that run only with a sender's address: PTR and rDNS.
unfoldable pub host_checks : World → Option Text → Text → Text → List CheckResult
unfolding ptr_check rdns_check
host_checks w none sender helo = []
host_checks w (some ip) sender helo =
    let rdns = w.ptr_of ip in ptr_check rdns ∷ rdns_check rdns sender helo

unfoldable pub dnsbl_checks : World → Option Text → List CheckResult
unfolding dnsbl_check
dnsbl_checks w none = []
dnsbl_checks w (some ip) = dnsbl_check w ip ∷ []

unfoldable pub mx_checks : World → Option Text → List CheckResult
unfolding mx_check
mx_checks w none = []
mx_checks w (some []) = []
mx_checks w (some (c ∷ s)) = mx_check (w.mx (c ∷ s)) ∷ []
