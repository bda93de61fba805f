-- ===== src/Notifications/Tests.antt =====
-- Runs of app/notifications.py: a week apart, a second less than a week apart, and an alarm.
use dmarc_geeks.Common.{
  Bool, if◌then◌else◌, ltb, text_beq, ◌==◌, nat_eq, text_eq, int_eq, option_eq, pair_eq,
}
use dmarc_geeks.Common.{option_beq}
use dmarc_geeks.Common.{split}
use dmarc_geeks.Common.{
  List, Text, [], false, map, none, refl, some, text, true, ℕ, ◌*◌, ◌+◌, ◌-◌, ◌∷◌, ◌≡◌, pos, negsuc,
}
use dmarc_geeks.Ingest.{Domain}
use dmarc_geeks.Stats.{Row}
use dmarc_geeks.Notifications.{
  Form, TenantSettings, User, recipients, default_settings, save_notifications,
}
use dmarc_geeks.Notifications.Digest.{taken, raises, Event, after, digest_run, form_saved, week}
use dmarc_geeks.Notifications.Spacing.{is_spaced, after-is_spaced}
use dmarc_geeks.Notifications.Spike.{Rate, check_spike}
use dmarc_geeks.Notifications.Spike.Laws.{is_sent}

abbrev domain : Domain
domain = record { id = 1; tenant_id = 7; name = text "example.org"; verification_token = [] }

abbrev users : List User
users =
    record { email = text "a@example.org"; tenant_id = 7; is_admin = true }
    ∷ record { email = text "b@example.org"; tenant_id = 7; is_admin = false }
    ∷ []

abbrev row : ℕ → Text → ℕ → Row
row time dkim n = record {
  tenant_id = 7;
  domain_id = 1;
  date_begin = pos time;
  source_ip = text "192.0.2.1";
  source_host = none;
  dkim_eval = some dkim;
  spf_eval = none;
  disposition = none;
  count = n;
}

abbrev at_time : ℕ → Event
at_time now = digest_run (record {
  tenants = 7 ∷ [];
  users = users;
  domains = domain ∷ [];
  rows = row now (text "pass") 3 ∷ [];
  clock = λ t. now;
  reply = λ t. taken;
})

abbrev settings : List TenantSettings
settings = default_settings 7 ∷ []

abbrev start : ℕ
start = 1000000

sent_weekly :
    map
      (λ d. d.at)
      ((after
        (at_time start ∷ at_time (start + week) ∷ [])
        (record { settings = settings; sent = []; handed = [] })).sent)
    ≡ (start + week) ∷ start ∷ []
unfolding after
sent_weekly = refl

second_week_skipped :
    map
      (λ d. d.at)
      ((after
        (at_time (start + 1) ∷ at_time (start + week) ∷ [])
        (record { settings = settings; sent = []; handed = [] })).sent)
    ≡ (start + 1) ∷ []
unfolding after
second_week_skipped = refl

-- A run that hands over the digest of tenant 7 and fails at tenant 8.
abbrev failing : ℕ → Event
failing now = digest_run (record {
  tenants = 7 ∷ 8 ∷ [];
  users = record { email = text "e@example.com"; tenant_id = 8; is_admin = true } ∷ users;
  domains =
      record { id = 2; tenant_id = 8; name = text "example.com"; verification_token = [] }
      ∷ domain
      ∷ [];
  rows = row now (text "pass") 3 ∷ record (row now (text "pass") 4) { domain_id = 2 } ∷ [];
  clock = λ t. now;
  reply = λ t. if t == 8 then raises else taken;
})

-- The rollback forgets the digest of tenant 7, and it is sent again a minute later.
sent_again :
    map
      (λ d. d.at)
      ((after
        (failing start ∷ at_time (start + 60) ∷ [])
        (record { settings = default_settings 8 ∷ settings; sent = []; handed = [] })).handed)
    ≡ (start + 60) ∷ start ∷ []
unfolding after
sent_again = refl

abbrev form : Form
form = record {
  weekly_digest_enabled = true;
  digest_recipients = text " c@example.org, ,d@example.org ";
  spike_alert_enabled = true;
  spike_threshold_pct = pos 400;
  spike_min_volume = negsuc 4;
}

clamped :
    map (λ s. s.spike_threshold_pct ∷ s.spike_min_volume ∷ []) (save_notifications 7 form settings)
    ≡ (100 ∷ 1 ∷ []) ∷ []
unfolding save_notifications
clamped = refl

listed :
    map (λ s. recipients s users) (save_notifications 7 form settings)
    ≡ (text "c@example.org" ∷ text "d@example.org" ∷ []) ∷ []
unfolding save_notifications recipients split
listed = refl

abbrev events : List Event
events = at_time start ∷ form_saved 7 form ∷ at_time (start + 5) ∷ at_time (start + week) ∷ []

after-is_spaced_example :
    is_spaced ((after events (record { settings = settings; sent = []; handed = [] })).sent) ≡ true
after-is_spaced_example = after-is_spaced events settings

-- Of 200 messages one fails in the week before, and 30 of 200 in the last 24 hours.
abbrev spike_rows : List Row
spike_rows =
    row (start - 100) (text "pass") 170
    ∷ row (start - 100) (text "fail") 30
    ∷ row (start - 200000) (text "pass") 199
    ∷ row (start - 200000) (text "fail") 1
    ∷ []

-- The comparison of the fractions.
abbrev below_exact : Rate → Rate → ℕ → Bool
below_exact cur prev threshold =
    ltb (100 * cur.fails * prev.base)
      (threshold * cur.base * prev.base + 100 * prev.fails * cur.base)

alarmed : is_sent (check_spike below_exact start settings users 7 domain spike_rows) ≡ true
unfolding check_spike option_beq text_beq
alarmed = refl
