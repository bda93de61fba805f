-- ===== src/Notifications/Spike.antt =====
-- `check_spike` of app/notifications.py. The comparison of the two rates, which are floats, is the
-- parameter `is_below`: whether the difference of the rates is below the threshold.
pub mod Laws
use dmarc_geeks.Common.{
  Bool, List, Option, Text, [], filter, if◌then◌else◌, ltb, none, not, some, ℕ, ◌&&◌, ◌*◌, ◌-◌,
  ◌==◌, ◌||◌, ◌∷◌, nat_eq, text_eq, int_eq, option_eq, pair_eq,
}
use dmarc_geeks.Ingest.{Domain}
use dmarc_geeks.Stats.{Row, aligned, same_evals, group_by}
use dmarc_geeks.Stats.Sums.{
  volume, any_row, not_aligned, Respects, any_row-Respects, volume-group_by, volume-aligned,
}
use dmarc_geeks.Notifications.{
  TenantSettings, User, get_settings_of, recipients, is_since, evals_total, evals_aligned,
}

abbrev pub day : ℕ
day = 86400

-- Of `base` messages `fails` fail; `base` is 1 where there are none.
pub record Rate : Type 0 where
  pub total : ℕ
  pub fails : ℕ
  pub base : ℕ

pub record SpikeMail : Type 0 where
  pub to : List Text
  pub domain : Text
  pub cur : Rate
  pub prev : Rate

-- The rows of a domain from `start` seconds ago until `end` seconds ago.
unfoldable pub window : ℕ → ℕ → ℕ → ℕ → List Row → List Row
unfolding is_since
window now domain start end rows =
    filter
      (λ r.
        r.domain_id == domain
        && is_since now start (r.date_begin)
        && not (is_since now end (r.date_begin)))
      rows

unfoldable pub rate : List Row → Rate
unfolding evals_total evals_aligned
rate rows =
    let total = evals_total rows in
    record {
      total = total;
      fails = total - evals_aligned rows;
      base = if total == 0 then 1 else total;
    }

unfoldable pub spike_mail : List Text → Text → Rate → Rate → Option SpikeMail
spike_mail [] domain cur prev = none
spike_mail (e ∷ es) domain cur prev =
    some (record { to = e ∷ es; domain = domain; cur = cur; prev = prev })

module _ (is_below : Rate → Rate → ℕ → Bool) where
  unfoldable pub alarm : TenantSettings → List Text → Text → Rate → Rate → Option SpikeMail
  unfolding spike_mail
  alarm s to name cur prev =
      if not (s.spike_alert_enabled)
      then none
      else if ltb (cur.total) (s.spike_min_volume) || ltb (prev.total) (s.spike_min_volume)
      then none
      else if is_below cur prev (s.spike_threshold_pct)
      then none
      else spike_mail to name cur prev

  unfoldable pub check_spike :
      ℕ → List TenantSettings → List User → ℕ → Domain → List Row → Option SpikeMail
  unfolding get_settings_of alarm recipients rate window
  check_spike now settings us tenant d rows = elim (get_settings_of tenant settings) [
    | none ↦ none
    | some s ↦
        alarm s (recipients s us) (d.name) (rate (window now (d.id) day 0 rows))
          (rate (window now (d.id) (8 * day) day rows))
  ]
