-- ===== src/Stats/Tests.antt =====
-- Runs of the aggregations of app/stats.py.
use dmarc_geeks.Common.{text_beq}
use dmarc_geeks.Common.{option_beq}
use dmarc_geeks.Common.{
  List, Text, [], none, refl, showℤ, some, sum_by, text, ℕ, ℤ, ◌*◌, ◌/◌, ◌∷◌, ◌≡◌, pos,
}
use dmarc_geeks.Stats.{Row, Query, query, select, domain_totals}
use dmarc_geeks.Ingest.{Report, Record}
use dmarc_geeks.Stats.Laws.{Counts, domain_totals-Counts}
use dmarc_geeks.Stats.Daily.{daily_series, sparkline}
use dmarc_geeks.Stats.Daily.Laws.{daily_series-domain_totals}
use dmarc_geeks.Stats.Labels.{sender_label}
use dmarc_geeks.Stats.Senders.{sender_breakdown}
use dmarc_geeks.Stats.Senders.Laws.{sender_breakdown-domain_totals}

abbrev row : ℕ → Text → Text → Text → ℕ → Row
row at host dkim disp n = record {
  tenant_id = 7;
  domain_id = 1;
  date_begin = pos at;
  source_ip = text "192.0.2.1";
  source_host = some host;
  dkim_eval = some dkim;
  spf_eval = none;
  disposition = some disp;
  count = n;
}

abbrev rows : List Row
rows =
    row 10 (text "mail-1.google.com") (text "pass") (text "none") 5
    ∷ row 10 (text "mail-1.google.com") (text "pass") (text "none") 2
    ∷ row 20 (text "a.b.example.org") (text "fail") (text "reject") 3
    ∷ row 20 (text "c.example.net") (text "fail") (text "quarantine") 1
    ∷ []

abbrev all_of : Query
all_of = query 7 none (some (pos 0))

abbrev day_of : ℤ → Text
day_of t = showℤ t

abbrev rate : ℕ → ℕ → ℕ
rate p t = 1000 * p / t

totals :
    ((domain_totals all_of rows).total ≡ 11)
    × ((domain_totals all_of rows).pass_count ≡ 7)
    × ((domain_totals all_of rows).reject_count ≡ 3)
unfolding domain_totals option_beq text_beq
totals = (refl, refl, refl)

google : sender_label (some (text "mail-1.google.com")) [] ≡ text "Google"
unfolding sender_label
google = refl

daily_series-domain_totals_example :
    (sum_by (λ b. b.1.pass) (daily_series day_of all_of rows)
      ≡ (domain_totals all_of rows).pass_count)
    × (sum_by (λ b. b.1.fail) (daily_series day_of all_of rows)
        ≡ (domain_totals all_of rows).fail_count)
    × (sum_by (λ n. n) (sparkline day_of all_of rows) ≡ (domain_totals all_of rows).total)
daily_series-domain_totals_example = daily_series-domain_totals day_of all_of rows

sender_breakdown-domain_totals_example :
    (sum_by (λ s. s.volume.total) (sender_breakdown rate all_of 1 rows)
      ≡ (domain_totals all_of rows).total)
    × (sum_by (λ s. s.volume.pass) (sender_breakdown rate all_of 1 rows)
        ≡ (domain_totals all_of rows).pass_count)
    × (sum_by (λ s. s.volume.fail) (sender_breakdown rate all_of 1 rows)
        ≡ (domain_totals all_of rows).fail_count)
sender_breakdown-domain_totals_example = sender_breakdown-domain_totals rate all_of 1 rows

domain_totals-Counts_example : Counts (select all_of rows) (domain_totals all_of rows)
domain_totals-Counts_example = domain_totals-Counts all_of rows

abbrev report : Report
report = record {
  id = 3;
  tenant_id = 7;
  domain_id = 1;
  org_name = text "example.net";
  org_email = text "dmarc@example.net";
  org_extra_contact = none;
  external_report_id = text "r1";
  date_begin = pos 10;
  date_end = pos 20;
  policy_domain = text "example.org";
  policy_adkim = none;
  policy_aspf = none;
  policy_p = none;
  policy_sp = none;
  policy_pct = none;
  policy_fo = none;
  raw_xml = [];
}

abbrev stored : ℕ → Text → ℕ → Record
stored id dkim n = record {
  id = id;
  report_id = 3;
  tenant_id = 7;
  source_ip = text "192.0.2.1";
  source_host = none;
  count = pos n;
  disposition = some (text "none");
  dkim_eval = some dkim;
  spf_eval = none;
  reason_type = none;
  reason_comment = none;
  header_from = none;
  envelope_from = none;
  envelope_to = none;
}

abbrev joined : Text → ℕ → Row
joined dkim n = record {
  tenant_id = 7;
  domain_id = 1;
  date_begin = pos 10;
  source_ip = text "192.0.2.1";
  source_host = none;
  dkim_eval = some dkim;
  spf_eval = none;
  disposition = some (text "none");
  count = n;
}

abbrev records : List Record
records = stored 1 (text "pass") 9 ∷ stored 2 (text "fail") 4 ∷ []

abbrev joined_rows : List Row
joined_rows = joined (text "pass") 9 ∷ joined (text "fail") 4 ∷ []
