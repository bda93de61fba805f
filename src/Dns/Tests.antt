-- ===== src/Dns/Tests.antt =====
-- Runs of the checks of app/dns_utils.py.
use dmarc_geeks.Dns.Selectors.{selectors_or}
use dmarc_geeks.Common.{is_space, mem, nat_eq, text_eq, int_eq, option_eq, pair_eq}
use dmarc_geeks.Common.{text_beq}
use dmarc_geeks.Common.{
  List, Option, Perm, Text, [], any, arith, if◌then◌else◌, length, map, none, not, refl, some, text,
  true, ℕ, ◌++◌, ◌==◌, ◌↔◌, ◌∷◌, ◌≡◌, ◌≤◌, nat_eq, text_eq, pos,
}
use dmarc_geeks.Dns.{get_txt_records, has_dmarc_record, starts_as}
use dmarc_geeks.Dns.Mx.{lookup_mx, mx_of}
use dmarc_geeks.Dns.Mx.Laws.{IsOrdered, lookup_mx-IsOrdered}
use dmarc_geeks.Dns.SpfRecord.{spf_issues, analyze_spf_structure}
use dmarc_geeks.Dns.SpfRecord.Laws.{IsClean, spf_issues-IsClean}
use dmarc_geeks.Dns.Dmarc.{tags_of, default_policy, tags, issues_of, only_reports}
use dmarc_geeks.Dns.Dmarc.Laws.{Plain, tags_of-default_policy}
use dmarc_geeks.Dns.Dkim
use dmarc_geeks.Dns.Dkim.{parse_dkim_record, key_of}
use dmarc_geeks.Dns.Dkim.Laws.{NotMissing, parse_dkim_record-IsKeyed}
use dmarc_geeks.Dns.Score.{full_dns_check, score_check, grade_a}
use dmarc_geeks.Dns.Score.Grades.{IsPerfect, score_check-total}
use dmarc_geeks.Dns.Score.GradeA.{has_key_record, full_dns_check-grade_a}

abbrev zone : Text → Option (List (List Text))
zone name =
    if name == text "t.io"
    then some ((text "v=spf1 mx" ∷ text " -all" ∷ []) ∷ [])
    else if name == text "_dmarc.t.io"
    then some ((text "v=DMARC1; p=reject; rua=mailto:d@t.io" ∷ []) ∷ [])
    else if name == text "default._domainkey.t.io"
    then some ((text "v=DKIM1; p=MIIB" ∷ []) ∷ [])
    else none

abbrev mail_hosts : Text → Option (List (ℕ × Text))
mail_hosts name = some ((20, text "b.t.io.") ∷ (10, text "T.mail.protection.outlook.com.") ∷ [])

microsoft :
    (lookup_mx mail_hosts (text "t.io")).provider ≡ some (text "Microsoft 365 / Exchange Online")
unfolding lookup_mx
microsoft = refl

graded_a : (score_check (full_dns_check zone mail_hosts (text "t.io"))).grade ≡ grade_a
unfolding score_check full_dns_check text_beq mem selectors_or
graded_a = refl

two_hosts :
    Perm
      (map mx_of ((20, text "b.t.io.") ∷ (10, text "T.mail.protection.outlook.com.") ∷ []))
      ((lookup_mx mail_hosts (text "t.io")).records)
    × IsOrdered ((lookup_mx mail_hosts (text "t.io")).records)
two_hosts = lookup_mx-IsOrdered mail_hosts (text "t.io") _ refl

score_check-total_example :
    ((score_check (full_dns_check zone mail_hosts (text "t.io"))).total ≤ 100)
    × (((score_check (full_dns_check zone mail_hosts (text "t.io"))).total ≡ 100)
        ↔ IsPerfect ((score_check (full_dns_check zone mail_hosts (text "t.io"))).checks))
score_check-total_example = score_check-total (full_dns_check zone mail_hosts (text "t.io"))

full_dns_check-grade_a_example :
    (any (starts_as (text "v=spf1")) (get_txt_records zone (text "t.io")) ≡ true)
    × ((full_dns_check zone mail_hosts (text "t.io")).spf.lookup_count ≤ 10)
    × (has_dmarc_record zone (text "t.io") ≡ true)
    × (has_key_record (get_txt_records zone) (selectors_or []) (text "t.io") ≡ true)
full_dns_check-grade_a_example = full_dns_check-grade_a zone mail_hosts (text "t.io") graded_a

spf_issues-IsClean_example :
    (spf_issues (analyze_spf_structure (text "v=spf1 redirect=a.io")) 3 none ≡ [])
    ↔ IsClean (analyze_spf_structure (text "v=spf1 redirect=a.io")) 3 none
spf_issues-IsClean_example =
    spf_issues-IsClean (analyze_spf_structure (text "v=spf1 redirect=a.io")) 3 none

clean_zone : Plain (text "d.io")
unfolding is_space
clean_zone = ground arith

tags_of-default_policy_example :
    (tags_of (default_policy (text "d.io"))
      ≡ tags (some (text "none")) ((text "mailto:dmarc@" ++ text "d.io") ∷ []) (some (pos 100)))
    × (starts_as (text "v=dmarc1") (default_policy (text "d.io")) ≡ true)
    × (issues_of (tags_of (default_policy (text "d.io"))) ≡ only_reports ∷ [])
tags_of-default_policy_example = tags_of-default_policy (text "d.io") clean_zone

abbrev any_length : Text → Option ℕ
any_length t = some (length t)

parse_dkim_record-IsKeyed_example :
    ((parse_dkim_record any_length (text "v=DKIM1; k=rsa")).valid
      ≡ not (key_of (Dkim.tags_of (text "v=DKIM1; k=rsa")) == []))
    × ((parse_dkim_record any_length (text "v=DKIM1; k=rsa")).is_revoked
        ≡ (key_of (Dkim.tags_of (text "v=DKIM1; k=rsa")) == []))
    × NotMissing ((parse_dkim_record any_length (text "v=DKIM1; k=rsa")).issues)
parse_dkim_record-IsKeyed_example =
    parse_dkim_record-IsKeyed any_length (text "v=DKIM1; k=rsa") (ground arith)
