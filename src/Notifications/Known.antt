-- ===== src/Notifications/Known.antt =====
-- What the settings of app/notifications.py know of the digests that were sent.
use dmarc_geeks.Common.{
  Bool, List, Option, Text, [], all, arith, false, filter, if◌then◌else◌, leb, none, refl, some,
  sym, true, ℕ, ◌&&◌, ◌++◌, ◌+◌, ◌==◌, ◌∷◌, ◌≡◌, nat_eq, text_eq, int_eq, option_eq, pair_eq,
}
use dmarc_geeks.Notifications.{recipients, TenantSettings, get_settings_of, change_settings}
use dmarc_geeks.Notifications.Digest.{
  Digest, week, mail_of, digest_for, is_due, Tables, DigestRow, stamped, digest_rows, digest_rows,
  stamped,
}

-- The settings know of a digest that was sent at that time or later.
abbrev pub is_known : ℕ → Option TenantSettings → Bool
is_known at none = false
is_known at (some s) = elim (s.last_digest_sent_at) [ none ↦ false | some l ↦ leb at l ]

abbrev pub are_known : List TenantSettings → List Digest → Bool
are_known ss sent = all (λ o. is_known (o.at) (get_settings_of (o.tenant_id) ss)) sent

unfoldable pub map_if :
    (TenantSettings → TenantSettings) → Bool → Option TenantSettings → Option TenantSettings
map_if f true (some s) = some (f s)
map_if f _ o = o

pub get_settings_of-change_settings :
    (f : TenantSettings → TenantSettings)
    → ((s : TenantSettings) → (f s).tenant_id ≡ s.tenant_id)
    → (t u : ℕ) (ss : List TenantSettings)
    → get_settings_of t (change_settings f u ss) ≡ map_if f (t == u) (get_settings_of t ss)
unfolding get_settings_of change_settings map_if
get_settings_of-change_settings f k t u [] = ground arith
get_settings_of-change_settings f k t u (s ∷ ss) =
    ground (arith, k s, get_settings_of-change_settings f k t u ss)

get_settings_of-append :
    (t at : ℕ) (ss us : List TenantSettings)
    → is_known at (get_settings_of t ss) ≡ true
    → is_known at (get_settings_of t (ss ++ us)) ≡ true
unfolding get_settings_of
get_settings_of-append t at [] us h = cc
get_settings_of-append t at (s ∷ ss) us h = ground (arith, get_settings_of-append t at ss us)

-- A change of the settings of one tenant that forgets no digest.
module _ (f : TenantSettings → TenantSettings)
    (keeps : (s : TenantSettings) → (f s).tenant_id ≡ s.tenant_id) (u : ℕ)
    (ss : List TenantSettings) where
  abbrev pub Remembers : ℕ → Type 0
  Remembers at =
      is_known at (get_settings_of u ss) ≡ true
      → is_known at (map_if f true (get_settings_of u ss)) ≡ true

  is_known-map_if :
      (t at : ℕ) (b : Bool)
      → (t == u) ≡ b
      → Remembers at
      → is_known at (get_settings_of t ss) ≡ true
      → is_known at (map_if f b (get_settings_of t ss)) ≡ true
  unfolding map_if
  is_known-map_if t at false e h known = known
  is_known-map_if t at true e h known =
      let same : t ≡ u = ground arith in rw same (h (rw (sym same) known))

  is_known-change_settings :
      (t at : ℕ)
      → Remembers at
      → is_known at (get_settings_of t ss) ≡ true
      → is_known at (get_settings_of t (change_settings f u ss)) ≡ true
  is_known-change_settings t at h known =
      rw (get_settings_of-change_settings f keeps t u ss)
        (is_known-map_if t at (t == u) refl h known)

  pub are_known-change_settings :
      ((at : ℕ) → Remembers at)
      → (sent : List Digest) → are_known ss sent ≡ true
      → are_known (change_settings f u ss) sent ≡ true
  are_known-change_settings h [] known = refl
  are_known-change_settings h (d ∷ ds) known = ground (
    arith,
    are_known-change_settings h ds,
    is_known-change_settings (d.tenant_id) (d.at) (h (d.at)),
  )

pub are_known-append :
    (ss us : List TenantSettings) (sent : List Digest)
    → are_known ss sent ≡ true
    → are_known (ss ++ us) sent ≡ true
are_known-append ss us [] known = refl
are_known-append ss us (d ∷ ds) known =
    ground (arith, are_known-append ss us ds, get_settings_of-append (d.tenant_id) (d.at) ss us)

-- A digest that is sent is due by the settings that were read.
abbrev pub is_open : ℕ → Option TenantSettings → Bool
is_open now none = false
is_open now (some s) = is_due now (s.last_digest_sent_at)

pub record IsDue (tenant : ℕ) (o : Option TenantSettings) (d : Digest) : Type 0 where
  pub own : d.tenant_id ≡ tenant
  pub due : is_open (d.at) o ≡ true

mail_of-Sent :
    (tenant now : ℕ) (to : List Text) (rs : List DigestRow) (d : Digest)
    → mail_of tenant now to rs ≡ some d
    → (d.tenant_id ≡ tenant) × (d.at ≡ now)
unfolding mail_of
mail_of-Sent tenant now to [] d h = cc
mail_of-Sent tenant now [] (r ∷ rs) d h = cc
mail_of-Sent tenant now (e ∷ es) (r ∷ rs) d h = (cc, cc)

pub digest_for-IsDue :
    (db : Tables) (tenant : ℕ) (o : Option TenantSettings) (d : Digest)
    → digest_for db tenant o ≡ some d
    → IsDue tenant o d
unfolding digest_for
digest_for-IsDue db tenant none d h = cc
digest_for-IsDue db tenant (some s) d h =
    by_due (s.weekly_digest_enabled && is_due (db.clock tenant) (s.last_digest_sent_at)) refl h
  where
    lines : List DigestRow
    lines =
        digest_rows (db.clock tenant) (db.rows) (filter (λ e. e.tenant_id == tenant) (db.domains))

    by_due :
        (b : Bool)
        → (s.weekly_digest_enabled && is_due (db.clock tenant) (s.last_digest_sent_at)) ≡ b
        → (if b then mail_of tenant (db.clock tenant) (recipients s (db.users)) lines else none)
          ≡ some d
        → IsDue tenant (some s) d
    by_due true e m =
        let sent = mail_of-Sent tenant (db.clock tenant) (recipients s (db.users)) lines d m in
        record { own = sent.0; due = rw (sent.1) (ground (arith, e)) }
    by_due false e m = cc

-- A digest that is due comes a week or more after those that the settings know of.
pub known_earlier :
    (now at : ℕ) (o : Option TenantSettings)
    → is_open now o ≡ true
    → is_known at o ≡ true
    → leb (at + week) now ≡ true
unfolding is_due
known_earlier now at none h known = cc
known_earlier now at (some s) h known = by_last (s.last_digest_sent_at) h known
  where
    by_last :
        (l : Option ℕ)
        → is_due now l ≡ true
        → (elim l [ none ↦ false | some u ↦ leb at u ]) ≡ true
        → leb (at + week) now ≡ true
    by_last none h k = cc
    by_last (some l) h k = ground (arith, h, k)

pub stamp_remembers :
    (now at : ℕ) (o : Option TenantSettings)
    → is_open now o ≡ true
    → is_known at o ≡ true
    → is_known at (map_if (stamped now) true o) ≡ true
unfolding stamped map_if
stamp_remembers now at none h known = cc
stamp_remembers now at (some s) h known = ground (arith, known_earlier now at (some s) h known)

pub stamp_known :
    (now : ℕ) (o : Option TenantSettings)
    → is_open now o ≡ true
    → is_known now (map_if (stamped now) true o) ≡ true
unfolding stamped map_if
stamp_known now none h = cc
stamp_known now (some s) h = ground arith
