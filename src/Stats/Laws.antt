-- ===== src/Stats/Laws.antt =====
-- app/stats.py: what `domain_totals` counts.
use dmarc_geeks.Common.{
  Bool, List, Option, Text, [], arith, false, none, not, refl, some, text, text_beq_iff, ◌&&◌, ◌+◌,
  ◌==◌, ◌∷◌, ◌≡◌, nat_eq, text_eq, option_eq,
}
use dmarc_geeks.Stats.{
  Row, DispositionTotals, aligned, disposed, sum_totals, domain_totals, add_totals, Query, select,
  group_by, same_outcome, no_totals,
}
use dmarc_geeks.Stats.Sums.{
  volume, any_row, not_aligned, volume-group_by, any_row-Respects, aligned-Respects,
  not_aligned-Respects, disposed-Respects,
}

-- A message has one disposition.
disposed_once :
    (r : Row)
    → (not (disposed (text "quarantine") r) && disposed (text "reject") r)
      ≡ disposed (text "reject") r
unfolding disposed
disposed_once r = by_disposition (r.disposition)
  where
    is : Text → Option Text → Bool
    is d none = false
    is d (some e) = e == d

    by_disposition :
        (o : Option Text)
        → (not (is (text "quarantine") o) && is (text "reject") o) ≡ is (text "reject") o
    by_disposition none = refl
    by_disposition (some e) =
        ground (arith, text_beq_iff e (text "quarantine"), text_beq_iff e (text "reject"))

-- The totals of the rows, by what each field counts.
pub record Counts (rows : List Row) (t : DispositionTotals) : Type 0 where
  pub total : t.total ≡ volume any_row rows
  pub pass_count : t.pass_count ≡ volume aligned rows
  pub fail_count : t.fail_count ≡ volume not_aligned rows
  pub quarantine_count : t.quarantine_count ≡ volume (disposed (text "quarantine")) rows
  pub reject_count : t.reject_count ≡ volume (disposed (text "reject")) rows

-- What the loop adds to the totals.
record Adds (rows : List Row) (t u : DispositionTotals) : Type 0 where
  total : u.total ≡ t.total + volume any_row rows
  pass_count : u.pass_count ≡ t.pass_count + volume aligned rows
  fail_count : u.fail_count ≡ t.fail_count + volume not_aligned rows
  quarantine_count :
      u.quarantine_count ≡ t.quarantine_count + volume (disposed (text "quarantine")) rows
  reject_count : u.reject_count ≡ t.reject_count + volume (disposed (text "reject")) rows

sum_totals-Adds : (rows : List Row) (t : DispositionTotals) → Adds rows t (sum_totals rows t)
unfolding sum_totals add_totals
sum_totals-Adds [] t = record {
  total = omega arith;
  pass_count = omega arith;
  fail_count = omega arith;
  quarantine_count = omega arith;
  reject_count = omega arith;
}
sum_totals-Adds (r ∷ rs) t =
    let ih = sum_totals-Adds rs (add_totals r t) in
    let once = disposed_once r in
    record {
      total = omega (arith, ih.total);
      pass_count = omega (arith, ih.pass_count);
      fail_count = ground (arith, ih.fail_count);
      quarantine_count = omega (arith, ih.quarantine_count);
      reject_count = ground (arith, ih.reject_count, once);
    }

-- The totals are the sums over the selected records: of all, of those that pass, of those that do
-- not, and of those quarantined and rejected; grouping loses none.
pub domain_totals-Counts :
    (q : Query) (rows : List Row) → Counts (select q rows) (domain_totals q rows)
unfolding domain_totals
domain_totals-Counts q rows =
    let sel = select q rows in
    let sums = sum_totals-Adds (group_by same_outcome sel) no_totals in
    record {
      total = omega (
        arith,
        sums.total,
        volume-group_by same_outcome any_row (any_row-Respects same_outcome) sel,
      );
      pass_count =
          omega (arith, sums.pass_count, volume-group_by same_outcome aligned aligned-Respects sel);
      fail_count = omega (
        arith,
        sums.fail_count,
        volume-group_by same_outcome not_aligned not_aligned-Respects sel,
      );
      quarantine_count = omega (
        arith,
        sums.quarantine_count,
        volume-group_by same_outcome (disposed (text "quarantine"))
            (disposed-Respects (text "quarantine")) sel,
      );
      reject_count = omega (
        arith,
        sums.reject_count,
        volume-group_by same_outcome (disposed (text "reject")) (disposed-Respects (text "reject"))
            sel,
      );
    }
