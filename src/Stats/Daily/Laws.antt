-- ===== src/Stats/Daily/Laws.antt =====
-- app/stats.py: the series by day and the totals.
use dmarc_geeks.Common.{
  Bool, List, Text, [], ap, arith, if◌then◌else◌, map, not, option_beq_iff, refl, sorted, sum_by,
  sum_by-sorted, sum_by-tally, ℕ, ℤ, ◌+◌, ◌∷◌, ◌≡◌, nat_eq, text_eq, int_eq, option_eq,
}
use dmarc_geeks.Stats.{
  Row, Query, Volume, no_volume, add_volume, select, group_by, same_evals, aligned, domain_totals,
}
use dmarc_geeks.Stats.Sums.{
  volume, Respects, volume-group_by, any_row, not_aligned, any_row-Respects,
}
use dmarc_geeks.Stats.Laws.{domain_totals-Counts}
use dmarc_geeks.Stats.Daily.{same_day, same_date, per_day, daily_series, sparkline, earlier}

same_day-aligned : Respects same_day aligned
unfolding same_day same_evals aligned
same_day-aligned = record {
  agree = λ a b h. ground (
    arith,
    h,
    option_beq_iff (a.dkim_eval) (b.dkim_eval),
    option_beq_iff (a.spf_eval) (b.spf_eval),
  );
  count_free = λ a n. refl;
}

same_day-not_aligned : Respects same_day not_aligned
same_day-not_aligned = record {
  agree = λ a b h. ap not (same_day-aligned.agree a b h);
  count_free = λ a n. ap not (same_day-aligned.count_free a n);
}

module _ (day_of : ℤ → Text) where
  -- A field of the volumes by day adds up to the rows that it counts.
  per_day-volume :
      (g : Volume → ℕ) (c : Row → Bool)
      → g no_volume ≡ 0
      → ((r : Row) (v : Volume) → g (add_volume r v) ≡ g v + (if c r then r.count else 0))
      → (rows : List Row)
      → sum_by (λ (b : Text × Volume). g b.1) (sorted earlier (per_day day_of rows)) ≡ volume c rows
  unfolding per_day
  per_day-volume g c z h rows =
      let sum =
        sum_by-tally (λ r. day_of (r.date_begin)) (λ r. no_volume) add_volume g
          (λ r. if c r then r.count else 0) (λ r. z) h rows [] in
      let order = sum_by-sorted earlier (λ (b : Text × Volume). g b.1) (per_day day_of rows) in
      omega (arith, sum, order)

  sum_by-map :
      (f : Text × Volume → ℕ) (bs : List (Text × Volume)) → sum_by (λ n. n) (map f bs) ≡ sum_by f bs
  sum_by-map f [] = refl
  sum_by-map f (b ∷ bs) = omega (arith, sum_by-map f bs)

  -- Over the days of the series the passing and the failing messages add up to those of
  -- `domain_totals` for the same query, and the sparkline adds up to its total.
  pub daily_series-domain_totals :
      (q : Query) (rows : List Row)
      → (sum_by (λ b. b.1.pass) (daily_series day_of q rows) ≡ (domain_totals q rows).pass_count)
        × (sum_by (λ b. b.1.fail) (daily_series day_of q rows) ≡ (domain_totals q rows).fail_count)
        × (sum_by (λ n. n) (sparkline day_of q rows) ≡ (domain_totals q rows).total)
  unfolding daily_series sparkline
  daily_series-domain_totals q rows =
      let sel = select q rows in
      let counts = domain_totals-Counts q rows in
      (
        omega (
          arith,
          counts.pass_count,
          per_day-volume (λ v. v.pass) aligned refl (λ r v. unfold add_volume in refl)
              (group_by same_day sel),
          volume-group_by same_day aligned same_day-aligned sel,
        ),
        omega (
          arith,
          counts.fail_count,
          per_day-volume (λ v. v.fail) not_aligned refl (λ r v. unfold add_volume in ground arith)
              (group_by same_day sel),
          volume-group_by same_day not_aligned same_day-not_aligned sel,
        ),
        omega (
          arith,
          counts.total,
          sum_by-map (λ b. b.1.total) (sorted earlier (per_day day_of (group_by same_date sel))),
          per_day-volume (λ v. v.total) any_row refl (λ r v. unfold add_volume in refl)
              (group_by same_date sel),
          volume-group_by same_date any_row (any_row-Respects same_date) sel,
        ),
      )
