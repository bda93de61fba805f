-- ===== src/Stats.antt =====
-- app/stats.py: the aggregations over the records of the reports. A Row is a record joined with its
-- report, with a count that is not negative; Joined has the join. The database's GROUP BY is `group_by`, on rows that agree in
-- the grouped columns; which order it returns the groups in is open, here it is that of the first
-- rows.
pub mod Joined
pub mod Sums
pub mod Daily
pub mod Labels
pub mod Senders
pub mod Sankey
pub mod Overview
pub mod Laws
mod Tests
use dmarc_geeks.Common.{
  Bool, List, Option, Text, [], false, filter, if◌then◌else◌, lebℤ, none, not, some, text, true, ℕ,
  ℤ, ◌&&◌, ◌+◌, ◌==◌, ◌||◌, ◌∷◌, nat_eq, text_eq, int_eq, option_eq, pair_eq,
}

pub record Row : Type 0 where
  pub tenant_id : ℕ
  pub domain_id : ℕ
  pub date_begin : ℤ
  pub source_ip : Text
  pub source_host : Option Text
  pub dkim_eval : Option Text
  pub spf_eval : Option Text
  pub disposition : Option Text
  pub count : ℕ

-- A `where` clause: the tenant, and the domain and the first date if they are given.
pub record Query : Type 0 where
  pub tenant : ℕ
  pub domain : Option ℕ
  pub since : Option ℤ

abbrev pub query : ℕ → Option ℕ → Option ℤ → Query
query t d s = record { tenant = t; domain = d; since = s }

unfoldable pub selects : Query → Row → Bool
selects q r =
    r.tenant_id == q.tenant
    && (elim (q.domain) [ none ↦ true | some d ↦ r.domain_id == d ])
    && (elim (q.since) [ none ↦ true | some t ↦ lebℤ t (r.date_begin) ])

unfoldable pub select : Query → List Row → List Row
unfolding selects
select q rows = filter (selects q) rows

-- A row added to the group of the rows that are the same as it.
unfoldable pub add_row : (Row → Row → Bool) → Row → List Row → List Row
add_row same r [] = r ∷ []
add_row same r (g ∷ gs) =
    let rest = add_row same r gs in
    if same g r then record g { count = g.count + r.count } ∷ gs else g ∷ rest

unfoldable pub group_from : (Row → Row → Bool) → List Row → List Row → List Row
unfolding add_row
group_from same gs [] = gs
group_from same gs (r ∷ rs) = group_from same (add_row same r gs) rs

-- `GROUP BY` with `sum(count)`.
unfoldable pub group_by : (Row → Row → Bool) → List Row → List Row
unfolding group_from
group_by same rows = group_from same [] rows

-- `record_dkim == "pass" or record_spf == "pass"`
is_pass : Option Text → Bool
is_pass none = false
is_pass (some e) = e == text "pass"

unfoldable pub aligned : Row → Bool
unfolding is_pass
aligned r = is_pass (r.dkim_eval) || is_pass (r.spf_eval)

pub record DispositionTotals : Type 0 where
  pub pass_count : ℕ
  pub fail_count : ℕ
  pub quarantine_count : ℕ
  pub reject_count : ℕ
  pub total : ℕ

abbrev pub no_totals : DispositionTotals
no_totals = record {
  pass_count = 0;
  fail_count = 0;
  quarantine_count = 0;
  reject_count = 0;
  total = 0;
}

unfoldable pub disposed : Text → Row → Bool
disposed d r = elim (r.disposition) [ none ↦ false | some e ↦ e == d ]

unfoldable pub add_totals : Row → DispositionTotals → DispositionTotals
unfolding aligned disposed
add_totals r t = record {
  pass_count = t.pass_count + (if aligned r then r.count else 0);
  fail_count = t.fail_count + (if aligned r then 0 else r.count);
  quarantine_count = t.quarantine_count + (if disposed (text "quarantine") r then r.count else 0);
  reject_count =
      t.reject_count
      + (if not (disposed (text "quarantine") r) && disposed (text "reject") r then r.count else 0);
  total = t.total + r.count;
}

unfoldable pub sum_totals : List Row → DispositionTotals → DispositionTotals
unfolding add_totals
sum_totals [] t = t
sum_totals (r ∷ rs) t = sum_totals rs (add_totals r t)

unfoldable pub same_evals : Row → Row → Bool
same_evals a b = a.dkim_eval == b.dkim_eval && a.spf_eval == b.spf_eval

unfoldable pub same_outcome : Row → Row → Bool
unfolding same_evals
same_outcome a b = same_evals a b && a.disposition == b.disposition

unfoldable pub domain_totals : Query → List Row → DispositionTotals
unfolding select group_by sum_totals same_outcome
domain_totals q rows = sum_totals (group_by same_outcome (select q rows)) no_totals

-- Volume per key: the source's dicts of total, pass and fail.
pub record Volume : Type 0 where
  pub total : ℕ
  pub pass : ℕ
  pub fail : ℕ

abbrev pub no_volume : Volume
no_volume = record { total = 0; pass = 0; fail = 0 }

unfoldable pub add_volume : Row → Volume → Volume
unfolding aligned
add_volume r v = record {
  total = v.total + r.count;
  pass = v.pass + (if aligned r then r.count else 0);
  fail = v.fail + (if aligned r then 0 else r.count);
}
