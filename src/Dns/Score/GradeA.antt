-- ===== src/Dns/Score/GradeA.antt =====
-- app/dns_utils.py: what a domain with grade A has.
use dmarc_geeks.Spf.{Lookups}
use dmarc_geeks.Dns.SpfRecord.{
  Structure, SpfIssue, analyze_spf_structure, spf_report, no_spf, spf_issues,
}
use dmarc_geeks.Common.{
  Bool, List, Option, Text, [], any, arith, false, find, find-any, if◌then◌else◌, inl, inr,
  is_empty, ltb, none, refl, some, text, true, ℕ, ◌+◌, ◌<◌, ◌∷◌, ◌≡◌, ◌≢◌, ◌≤◌, ◌⊎◌, nat_eq,
  text_eq, int_eq, option_eq, pair_eq,
}
use dmarc_geeks.Dns.{starts_as, get_txt_records, has_dmarc_record}
use dmarc_geeks.Dns.SpfRecord.Laws.{lookup_spf-cases, IsClean, spf_issues-IsClean}
use dmarc_geeks.Dns.Dmarc.Laws.{lookup_dmarc-cases}
use dmarc_geeks.Dns.Dmarc.{lookup_dmarc, no_dmarc}
use dmarc_geeks.Dns.Dkim.{has_mark, key_records, lookup_dkim_selectors}
use dmarc_geeks.Dns.Selectors.{selectors_or}
use dmarc_geeks.Dns.Score.{
  ok, mx_check, spf_check, dmarc_check, dkim_check, optional_check, Selector, lookup_spf,
  score_check, checks_of, total_of, DnsCheck, check, full_dns_check, grade_a, fail, warn, grade_of,
}
use dmarc_geeks.Dns.Score.Grades.{mx-Worth, spf-Worth, dmarc-Worth, dkim-Worth, optional-Worth}

-- Points for SPF need a count of at most 10.
report_points : (t : Text) (lc : Lookups) → 0 < (spf_check (spf_report t lc)).points → lc.count ≤ 10
unfolding spf_check spf_report
report_points t lc =
    points (spf_issues s (lc.count) (lc.trouble))
      (λ h. (spf_issues-IsClean s (lc.count) (lc.trouble)).0 h)
  where
    s : Structure
    s = analyze_spf_structure t

    points :
        (is : List SpfIssue)
        → (is ≡ [] → IsClean s (lc.count) (lc.trouble))
        → 0
          < (if is_empty is
              then check ok 25
              else if ltb 10 (lc.count)
              then check fail 0
              else check warn 15).points
        → lc.count ≤ 10
    points [] g h = omega (arith, (g refl).lookups)
    points (x ∷ xs) g h = over (lc.count) h
      where
        over : (n : ℕ) → 0 < (if ltb 10 n then check fail 0 else check warn 15).points → n ≤ 10
        over n k = ground (arith, k)

-- What a result of `lookup_spf` is worth: points need a record, and with more than 10 lookups there
-- are none.
spf_points :
    (get : Text → List Text) (domain : Text)
    → 0 < (spf_check (lookup_spf get domain)).points
    → (any (starts_as (text "v=spf1")) (get domain) ≡ true)
      × ((lookup_spf get domain).lookup_count ≤ 10)
spf_points get domain = elim (lookup_spf-cases get domain) [
  | inl (k, e) ↦ rw e (λ h. absurd (unfold spf_check no_spf in ground (arith, h)))
  | inr (t, lc, k, e) ↦ rw e (λ h. (k, unfold spf_report in report_points t lc h))
]

dmarc_points :
    (resolve : Text → Option (List (List Text))) (domain : Text)
    → 0 < (dmarc_check (lookup_dmarc (get_txt_records resolve) domain)).points
    → has_dmarc_record resolve domain ≡ true
unfolding has_dmarc_record
dmarc_points resolve domain = elim (lookup_dmarc-cases (get_txt_records resolve) domain) [
  | inl (k, e) ↦ rw e (λ h. absurd (unfold dmarc_check no_dmarc in ground (arith, h)))
  | inr (t, k, e) ↦ λ h. k
]

grade_a-total : (n : ℕ) → grade_of n ≡ grade_a → 85 ≤ n
unfolding grade_of
grade_a-total n h = ground (arith, h)

-- Grade A needs points in each of the three checks that are worth more than 15.
grade_a-points :
    (r : DnsCheck)
    → (score_check r).grade ≡ grade_a
    → (0 < (spf_check (r.spf)).points)
      × (0 < (dmarc_check (r.dmarc)).points)
      × (0 < (dkim_check (r.dkim)).points)
unfolding score_check checks_of total_of
grade_a-points r h = (
  omega (arith, t, m, d, k, s, l, b),
  omega (arith, t, m, d, k, s, l, b),
  omega (arith, t, m, d, k, s, l, b),
)
  where
    t : 85 ≤ total_of (checks_of r)
    t = grade_a-total (total_of (checks_of r)) h

    m : (mx_check (r.mx)).points ≤ 5
    m = (mx-Worth (r.mx)).0

    d : (dmarc_check (r.dmarc)).points ≤ 30
    d = (dmarc-Worth (r.dmarc)).0

    k : (spf_check (r.spf)).points + (dkim_check (r.dkim)).points ≤ 50
    k = omega (arith, (spf-Worth (r.spf)).0, (dkim-Worth (r.dkim)).0)

    s : ((spf_check (r.spf)).points ≤ 25) × ((dkim_check (r.dkim)).points ≤ 25)
    s = ((spf-Worth (r.spf)).0, (dkim-Worth (r.dkim)).0)

    l : (optional_check (r.mta_sts)).points + (optional_check (r.tls_rpt)).points ≤ 10
    l = omega (arith, (optional-Worth (r.mta_sts)).0, (optional-Worth (r.tls_rpt)).0)

    b : (optional_check (r.bimi)).points ≤ 5
    b = (optional-Worth (r.bimi)).0

dkim_points : (found : List Selector) → 0 < (dkim_check found).points → found ≢ []
unfolding dkim_check
dkim_points [] h = absurd (ground (arith, h))
dkim_points (x ∷ xs) h = ground arith

-- A TXT record under one of the selectors that has a mark of a DKIM record, in any case.
abbrev pub is_key_record : Text → Bool
is_key_record t = has_mark (text "v=dkim1" ∷ text "k=rsa" ∷ text "p=" ∷ []) t

abbrev pub has_key_record : (Text → List Text) → List Text → Text → Bool
has_key_record get sels domain = any (λ sel. any is_key_record (key_records get domain sel)) sels

key_records_found :
    (get : Text → List Text) (sels : List Text) (domain : Text)
    → lookup_dkim_selectors get sels domain ≢ []
    → has_key_record get sels domain ≡ true
unfolding lookup_dkim_selectors
key_records_found get [] domain h = absurd (h refl)
key_records_found get (sel ∷ sels) domain h =
    by_search (find-any is_key_record (key_records get domain sel))
      (key_records_found get sels domain)
  where
    by_search :
        ((find is_key_record (key_records get domain sel) ≡ none)
            × (any is_key_record (key_records get domain sel) ≡ false))
          ⊎ ((t : Text) × (find is_key_record (key_records get domain sel) ≡ some t)
              × (any is_key_record (key_records get domain sel) ≡ true)
              × (is_key_record t ≡ true))
        → (lookup_dkim_selectors get sels domain ≢ [] → has_key_record get sels domain ≡ true)
        → has_key_record get (sel ∷ sels) domain ≡ true
    by_search (inl (e, missed)) rest = rw missed (rest (λ q. h (rw (lookup_dkim_selectors, e) q)))
    by_search (inr (t, e, marked, m)) rest = rw marked refl

-- A domain with grade A has an SPF record for which `_count_spf_lookups` counts at most 10 lookups,
-- which need not be all of them; a DMARC record; and under one of the usual selectors a TXT record
-- that contains "v=dkim1", "k=rsa" or "p=" in any case. The answers of the DNS are arbitrary.
pub full_dns_check-grade_a :
    (resolve : Text → Option (List (List Text))) (resolve_mx : Text → Option (List (ℕ × Text)))
    (domain : Text)
    → (score_check (full_dns_check resolve resolve_mx domain)).grade ≡ grade_a
    → (any (starts_as (text "v=spf1")) (get_txt_records resolve domain) ≡ true)
      × ((full_dns_check resolve resolve_mx domain).spf.lookup_count ≤ 10)
      × (has_dmarc_record resolve domain ≡ true)
      × (has_key_record (get_txt_records resolve) (selectors_or []) domain ≡ true)
unfolding full_dns_check
full_dns_check-grade_a resolve resolve_mx domain h =
    let p = grade_a-points (full_dns_check resolve resolve_mx domain) h in
    let q = spf_points (get_txt_records resolve) domain p.0 in
    (
      q.0,
      q.1,
      dmarc_points resolve domain p.1,
      key_records_found (get_txt_records resolve) (selectors_or []) domain (dkim_points _ p.2),
    )
