-- ===== src/Stats/Joined.antt =====
-- The tables that app/stats.py reads: each record with its report. The other modules take the rows
-- as given, with counts that are natural numbers; a stored record with a negative count, which
-- app/parser.py accepts, is outside them.
use dmarc_geeks.Common.{
  List, Option, [], find, none, some, ℕ, ℤ, ◌==◌, ◌∷◌, nat_eq, text_eq, int_eq, option_eq, pair_eq,
  pos, negsuc,
}
use dmarc_geeks.Ingest.{Report, Record}
use dmarc_geeks.Stats.{Row}

joined_row : Report → Record → ℕ → Row
joined_row report r n = record {
  tenant_id = report.tenant_id;
  domain_id = report.domain_id;
  date_begin = report.date_begin;
  source_ip = r.source_ip;
  source_host = r.source_host;
  dkim_eval = r.dkim_eval;
  spf_eval = r.spf_eval;
  disposition = r.disposition;
  count = n;
}

-- A record whose report is there gives a row.
add_joined : Option Report → Record → ℤ → Option (List Row) → Option (List Row)
unfolding joined_row
add_joined none r n rows = rows
add_joined (some report) r n none = none
add_joined (some report) r (pos n) (some rows) = some (joined_row report r n ∷ rows)
add_joined (some report) r (negsuc n) (some rows) = none

-- The join of the tables; `none` if a count is negative.
unfoldable pub rows_of : List Report → List Record → Option (List Row)
unfolding add_joined
rows_of reports [] = some []
rows_of reports (r ∷ rs) =
    add_joined (find (λ p. p.id == r.report_id) reports) r (r.count) (rows_of reports rs)
