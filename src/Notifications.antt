-- ===== src/Notifications.antt =====
-- app/notifications.py: the spike alarm and the weekly digest, and the form of
-- app/routers/settings.py that sets them up. Times are seconds. A mail is a value with the figures
-- that its text shows; whether the SMTP server takes it is an argument.
pub mod Digest
pub mod Known
pub mod Spacing
pub mod Spike
mod Tests
use dmarc_geeks.Stats.{group_by, same_evals, Row, aligned}
use dmarc_geeks.Common.{
  Bool, List, Option, Text, [], false, filter, if◌then◌else◌, leb, ltb, map, max, min, none, some,
  split, strip, sum_by, true, ℕ, ℤ, ◌&&◌, ◌++◌, ◌+◌, ◌==◌, ◌∷◌, nat_eq, text_eq, int_eq, option_eq,
  pair_eq, pos, negsuc,
}

-- The columns of `tenant_settings` that the notifications read.
pub record TenantSettings : Type 0 where
  pub tenant_id : ℕ
  pub weekly_digest_enabled : Bool
  pub digest_recipients : Option Text
  pub spike_alert_enabled : Bool
  pub spike_threshold_pct : ℕ
  pub spike_min_volume : ℕ
  pub last_digest_sent_at : Option ℕ

pub record User : Type 0 where
  pub email : Text
  pub tenant_id : ℕ
  pub is_admin : Bool

-- `db.get(TenantSettings, tenant)`
unfoldable pub get_settings_of : ℕ → List TenantSettings → Option TenantSettings
get_settings_of tenant [] = none
get_settings_of tenant (s ∷ ss) =
    let rest = get_settings_of tenant ss in if s.tenant_id == tenant then some s else rest

unfoldable pub change_settings :
    (TenantSettings → TenantSettings) → ℕ → List TenantSettings → List TenantSettings
change_settings f tenant [] = []
change_settings f tenant (s ∷ ss) =
    let rest = change_settings f tenant ss in if s.tenant_id == tenant then f s ∷ rest else s ∷ rest

not_empty : Text → Bool
not_empty [] = false
not_empty (c ∷ s) = true

admins : ℕ → List User → List Text
admins tenant us = map (λ u. u.email) (filter (λ u. u.tenant_id == tenant && u.is_admin) us)

unfoldable pub recipients : TenantSettings → List User → List Text
unfolding not_empty admins
recipients s us = elim (s.digest_recipients) [
  | none ↦ admins (s.tenant_id) us
  | some [] ↦ admins (s.tenant_id) us
  | some (c ∷ t) ↦ filter not_empty (map strip (split b',' (c ∷ t)))
]

-- The form of the notifications, and what it stores.
pub record Form : Type 0 where
  pub weekly_digest_enabled : Bool
  pub digest_recipients : Text
  pub spike_alert_enabled : Bool
  pub spike_threshold_pct : ℤ
  pub spike_min_volume : ℤ

at_least_one : ℤ → ℕ
at_least_one (pos n) = max 1 n
at_least_one (negsuc n) = 1

percentage : ℤ → ℕ
percentage (pos n) = max 1 (min 100 n)
percentage (negsuc n) = 1

none_if_empty : Text → Option Text
none_if_empty [] = none
none_if_empty (c ∷ s) = some (c ∷ s)

abbrev pub default_settings : ℕ → TenantSettings
default_settings tenant = record {
  tenant_id = tenant;
  weekly_digest_enabled = true;
  digest_recipients = none;
  spike_alert_enabled = true;
  spike_threshold_pct = 10;
  spike_min_volume = 100;
  last_digest_sent_at = none;
}

unfoldable pub ensure : ℕ → List TenantSettings → List TenantSettings
unfolding get_settings_of
ensure tenant ss = elim (get_settings_of tenant ss) [
  | none ↦ ss ++ default_settings tenant ∷ []
  | some s ↦ ss
]

unfoldable pub filled_in : Form → TenantSettings → TenantSettings
unfolding at_least_one percentage none_if_empty strip
filled_in f s = record s {
  weekly_digest_enabled = f.weekly_digest_enabled;
  digest_recipients = none_if_empty (strip (f.digest_recipients));
  spike_alert_enabled = f.spike_alert_enabled;
  spike_threshold_pct = percentage (f.spike_threshold_pct);
  spike_min_volume = at_least_one (f.spike_min_volume);
}

unfoldable pub save_notifications : ℕ → Form → List TenantSettings → List TenantSettings
unfolding ensure change_settings filled_in
save_notifications tenant f ss = change_settings (filled_in f) tenant (ensure tenant ss)

-- `date >= now - seconds`
unfoldable pub is_since : ℕ → ℕ → ℤ → Bool
is_since now seconds (pos d) = leb now (d + seconds)
is_since now seconds (negsuc d) = ltb (now + d) seconds

-- The volume of a query that groups by the two evaluations.
unfoldable pub evals_total : List Row → ℕ
unfolding group_by same_evals
evals_total rows = sum_by (λ r. r.count) (group_by same_evals rows)

unfoldable pub evals_aligned : List Row → ℕ
unfolding group_by same_evals aligned
evals_aligned rows = sum_by (λ r. if aligned r then r.count else 0) (group_by same_evals rows)
