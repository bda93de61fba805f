-- ===== src/Stats/Daily.antt =====
-- app/stats.py: `daily_series`, `sparkline` and `calendar_heatmap`. `day_of` is the text of a date,
-- strftime("%Y-%m-%d"); `since` is the current time less the days. The rate in tenths of a percent,
-- a float of the source, is the parameter `rate`.
pub mod Laws
use dmarc_geeks.Common.{
  Bool, List, Option, Text, [], if◌then◌else◌, lookup, ltb, map, max, none, some, sorted, suc,
  tally, text_leb, zero, ℕ, ℤ, ◌%◌, ◌&&◌, ◌*◌, ◌+◌, ◌-◌, ◌==◌, ◌∷◌, nat_eq, text_eq, int_eq,
  option_eq,
}
use dmarc_geeks.Stats.{Row, Query, Volume, no_volume, add_volume, select, group_by, same_evals}

unfoldable pub same_day : Row → Row → Bool
unfolding same_evals
same_day a b = a.date_begin == b.date_begin && same_evals a b

unfoldable pub same_date : Row → Row → Bool
same_date a b = a.date_begin == b.date_begin

abbrev pub earlier {κ} : {V : Type κ} → Text × V → Text × V → Bool
earlier a b = text_leb a.0 b.0

module _ (day_of : ℤ → Text) where
  unfoldable pub per_day : List Row → List (Text × Volume)
  unfolding tally add_volume
  per_day rows = tally (λ r. day_of (r.date_begin)) (λ r. no_volume) add_volume rows []

  -- Day with its volume, of which the source shows pass and fail.
  unfoldable pub daily_series : Query → List Row → List (Text × Volume)
  unfolding select group_by same_day per_day sorted
  daily_series q rows = sorted earlier (per_day (group_by same_day (select q rows)))

  unfoldable pub sparkline : Query → List Row → List ℕ
  unfolding select group_by same_date per_day sorted
  sparkline q rows =
      map (λ b. b.1.total) (sorted earlier (per_day (group_by same_date (select q rows))))

-- A cell of the heatmap.
pub record Cell : Type 0 where
  pub date : Text
  pub weekday : ℕ
  pub total : ℕ
  pub pass_rate : Option ℕ
  pub intensity : ℕ

-- The ratio of the total to the maximum, against 0.1, 0.33 and 0.66.
unfoldable pub intensity_of : ℕ → ℕ → ℕ
intensity_of total most =
    if ltb 0 most && ltb 0 total
    then (if ltb (10 * total) most
        then 1
        else if ltb (100 * total) (33 * most)
        then 2
        else if ltb (100 * total) (66 * most)
        then 3
        else 4)
    else 0

unfoldable pub most_of : List (Text × Volume) → ℕ
most_of [] = 0
most_of ((d, v) ∷ m) = max (v.total) (most_of m)

-- Days are counted from 1970-01-01, a Thursday; `date_of` is the text of one.
module _ (day_of : ℤ → Text) (date_of : ℕ → Text) (rate : ℕ → ℕ → ℕ) where
  volume_at : Text → List (Text × Volume) → Volume
  unfolding lookup
  volume_at d m = elim (lookup d m) [ none ↦ no_volume | some v ↦ v ]

  unfoldable pub cell : List (Text × Volume) → ℕ → Cell
  unfolding volume_at most_of intensity_of
  cell m day =
      let v = volume_at (date_of day) m in
      record {
        date = date_of day;
        weekday = (day + 3) % 7;
        total = v.total;
        pass_rate = if v.total == 0 then none else some (rate (v.pass) (v.total));
        intensity = intensity_of (v.total) (most_of m);
      }

  -- The cells of the days before `today` down from `days`, and of `today`.
  cells : List (Text × Volume) → ℕ → ℕ → List Cell
  unfolding cell
  cells m today zero = cell m today ∷ []
  cells m today (suc n) = cell m (today - suc n) ∷ cells m today n

  unfoldable pub calendar_heatmap : Query → ℕ → ℕ → List Row → List Cell × ℕ
  unfolding select group_by same_day per_day cells most_of
  calendar_heatmap q today days rows =
      let m = per_day day_of (group_by same_day (select q rows)) in (cells m today days, most_of m)
