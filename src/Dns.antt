-- ===== src/Dns.antt =====
-- app/dns_utils.py: the checks of a domain's records, `full_dns_check`. A TXT query of the DNS
-- library is the parameter `resolve_txt`: the strings of each record, decoded, or `none` where the
-- library raises. An MX query is `resolve_mx`: preference and exchange of each record. The host
-- names that the library prints have no line break.
mod Mx
mod SpfRecord
mod Dmarc
mod Dkim
mod Selectors
mod Score
mod Tests
use dmarc_geeks.Common.{
  Bool, List, Option, Text, [], any, false, find, join, lower, map, none, some, starts_with, strip,
  text, true, ◌++◌, ◌==◌, nat_eq, text_eq,
}

-- A record that is only looked for by its version tag.
pub record Presence : Type 0 where
  pub present : Bool
  pub raw : Option Text

abbrev pub presence : Bool → Option Text → Presence
presence p r = record { present = p; raw = r }

unfoldable pub starts_as : Text → Text → Bool
unfolding lower starts_with
starts_as tag t = starts_with (lower t) tag

module _ (resolve_txt : Text → Option (List (List Text))) where
  unfoldable pub get_txt_records : Text → List Text
  unfolding join
  get_txt_records name = elim (resolve_txt name) [ none ↦ [] | some rs ↦ map (join []) rs ]

  unfoldable pub first_with : Text → Text → Presence
  unfolding get_txt_records starts_as
  first_with tag name = elim (find (starts_as tag) (get_txt_records name)) [
    | none ↦ presence false none
    | some t ↦ presence true (some t)
  ]

  unfoldable pub has_dmarc_record : Text → Bool
  unfolding get_txt_records starts_as
  has_dmarc_record domain =
      any (starts_as (text "v=dmarc1")) (get_txt_records (text "_dmarc." ++ domain))

  unfoldable pub verification_present : Text → Text → Bool
  unfolding get_txt_records strip
  verification_present domain token =
      any (λ t. strip t == (text "dmarc-aggregator-verify=" ++ token)) (get_txt_records domain)

  unfoldable pub lookup_mta_sts : Text → Presence
  unfolding first_with
  lookup_mta_sts domain = first_with (text "v=stsv1") (text "_mta-sts." ++ domain)

  unfoldable pub lookup_tls_rpt : Text → Presence
  unfolding first_with
  lookup_tls_rpt domain = first_with (text "v=tlsrptv1") (text "_smtp._tls." ++ domain)

  unfoldable pub lookup_bimi : Text → Presence
  unfolding first_with
  lookup_bimi domain = first_with (text "v=bimi1") (text "default._bimi." ++ domain)
