-- ===== src/Notifications/Digest.antt =====
-- `send_weekly_digest` of app/notifications.py, in the session that `session_scope` of
-- app/database.py commits at its end and rolls back on an exception.
use dmarc_geeks.Common.{
  Bool, List, Option, Text, [], filter, if◌then◌else◌, leb, none, some, true, ℕ, ◌&&◌, ◌++◌, ◌+◌,
  ◌==◌, ◌∷◌, nat_eq, text_eq, int_eq, option_eq, pair_eq,
}
use dmarc_geeks.Ingest.{Domain}
use dmarc_geeks.Stats.{Row}
use dmarc_geeks.Notifications.{
  TenantSettings, User, get_settings_of, change_settings, recipients, Form, save_notifications,
  is_since, evals_total, evals_aligned,
}

-- One line of the digest; the text shows `aligned` of `total` in percent.
pub record DigestRow : Type 0 where
  pub domain : Text
  pub total : ℕ
  pub aligned : ℕ

pub record Digest : Type 0 where
  pub tenant_id : ℕ
  pub at : ℕ
  pub to : List Text
  pub rows : List DigestRow

-- `timedelta(days=7)` in seconds.
abbrev pub week : ℕ
week = 604800

-- What the call of `send_mail` in a turn does: it returns True or False, or an exception leaves it,
-- such as that of EmailMessage for an address with a line break.
pub data MailReply : Type 0 where
  taken : MailReply
  refused : MailReply
  raises : MailReply

-- What a run reads besides the settings; `clock` is `now` in the turn of a tenant.
pub record Tables : Type 0 where
  pub tenants : List ℕ
  pub users : List User
  pub domains : List Domain
  pub rows : List Row
  pub clock : ℕ → ℕ
  pub reply : ℕ → MailReply

-- `sent` are the digests of the runs that were committed, `handed` all that the mail server took.
pub record State : Type 0 where
  pub settings : List TenantSettings
  pub sent : List Digest
  pub handed : List Digest

-- The session at the end of the turns, or when an exception leaves one.
pub data Session : Type 0 where
  open_at : State → Session
  failed_at : State → Session

unfoldable pub is_due : ℕ → Option ℕ → Bool
is_due now none = true
is_due now (some last) = leb (last + week) now

digest_row : ℕ → List Row → Domain → List DigestRow
unfolding is_since evals_total evals_aligned
digest_row now rows d =
    let own = filter (λ r. r.domain_id == d.id && is_since now week (r.date_begin)) rows in
    if evals_total own == 0
    then []
    else record { domain = d.name; total = evals_total own; aligned = evals_aligned own } ∷ []

unfoldable pub digest_rows : ℕ → List Row → List Domain → List DigestRow
unfolding digest_row
digest_rows now rows [] = []
digest_rows now rows (d ∷ ds) = digest_row now rows d ++ digest_rows now rows ds

-- The mail for a tenant whose digest is due, unless it has no lines or no recipients.
unfoldable pub mail_of : ℕ → ℕ → List Text → List DigestRow → Option Digest
mail_of tenant now to [] = none
mail_of tenant now [] (r ∷ rs) = none
mail_of tenant now (e ∷ es) (r ∷ rs) =
    some (record { tenant_id = tenant; at = now; to = e ∷ es; rows = r ∷ rs })

unfoldable pub digest_for : Tables → ℕ → Option TenantSettings → Option Digest
unfolding is_due digest_rows mail_of recipients
digest_for db tenant none = none
digest_for db tenant (some s) =
    let now = db.clock tenant in
    if s.weekly_digest_enabled && is_due now (s.last_digest_sent_at)
    then mail_of tenant now (recipients s (db.users))
        (digest_rows now (db.rows) (filter (λ d. d.tenant_id == tenant) (db.domains)))
    else none

unfoldable pub stamped : ℕ → TenantSettings → TenantSettings
stamped now s = record s { last_digest_sent_at = some now }

-- What the reply of the mail server makes of it.
unfoldable pub deliver : MailReply → ℕ → Option Digest → State → Session
unfolding change_settings stamped
deliver reply tenant none st = open_at st
deliver refused tenant (some d) st = open_at st
deliver raises tenant (some d) st = failed_at st
deliver taken tenant (some d) st = open_at (record {
  settings = change_settings (stamped (d.at)) tenant (st.settings);
  sent = d ∷ st.sent;
  handed = d ∷ st.handed;
})

unfoldable pub tenant_turn : Tables → ℕ → State → Session
unfolding digest_for get_settings_of deliver
tenant_turn db tenant st =
    deliver (db.reply tenant) tenant (digest_for db tenant (get_settings_of tenant (st.settings)))
      st

-- The loop over the tenants; an exception leaves it.
unfoldable pub turns : Tables → List ℕ → State → Session
unfolding tenant_turn
turns db [] st = open_at st
turns db (t ∷ ts) st = elim (tenant_turn db t st) [
  | open_at st' ↦ turns db ts st'
  | failed_at st' ↦ failed_at st'
]

-- The commit, or the rollback, which cannot take back the mails.
unfoldable pub closed : State → Session → State
closed st (open_at st') = st'
closed st (failed_at st') = record st { handed = st'.handed }

unfoldable pub send_weekly_digest : Tables → State → State
unfolding turns closed
send_weekly_digest db st = closed st (turns db (db.tenants) st)

-- A run of the job, or a form that is saved.
pub data Event : Type 0 where
  digest_run : Tables → Event
  form_saved : ℕ → Form → Event

unfoldable pub after : List Event → State → State
unfolding send_weekly_digest save_notifications
after [] st = st
after (digest_run db ∷ es) st = after es (send_weekly_digest db st)
after (form_saved t f ∷ es) st =
    after es (record st { settings = save_notifications t f (st.settings) })
