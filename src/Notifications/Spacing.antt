-- ===== src/Notifications/Spacing.antt =====
-- The spacing of the digests that `send_weekly_digest` of app/notifications.py sends.
use dmarc_geeks.Common.{
  Bool, List, Option, [], all, arith, false, leb, none, not, refl, some, sym, true, ℕ, ◌&&◌, ◌+◌,
  ◌==◌, ◌||◌, ◌∷◌, ◌≡◌, nat_eq, text_eq, int_eq, option_eq, pair_eq,
}
use dmarc_geeks.Notifications.{
  Form, ensure, default_settings, save_notifications, filled_in, TenantSettings, get_settings_of,
  change_settings,
}
use dmarc_geeks.Notifications.Digest.{
  MailReply, taken, refused, raises, Session, open_at, failed_at, closed, Digest, State, week,
  digest_for, Tables, stamped, deliver, turns, tenant_turn, send_weekly_digest, Event, after,
  digest_run, form_saved, stamped, deliver,
}
use dmarc_geeks.Notifications.Known.{
  is_known, are_known, map_if, get_settings_of-change_settings, are_known-change_settings,
  are_known-append, IsDue, digest_for-IsDue, known_earlier, stamp_remembers, stamp_known,
}

-- The digest came a week or more after the earlier one, or it is for another tenant.
abbrev pub is_apart : Digest → Digest → Bool
is_apart d o = not (d.tenant_id == o.tenant_id) || leb (o.at + week) (d.at)

-- The digests that were sent, newest first.
abbrev pub is_spaced : List Digest → Bool
is_spaced [] = true
is_spaced (d ∷ ds) = all (is_apart d) ds && is_spaced ds

pub record IsKept (st : State) : Type 0 where
  pub known : are_known (st.settings) (st.sent) ≡ true
  pub spaced : is_spaced (st.sent) ≡ true

-- A session that goes on keeps what a commit keeps.
unfoldable pub IsKeptIn : Session → Type 0
IsKeptIn (open_at st) = IsKept st
IsKeptIn (failed_at st) = Unit

-- A digest that the mail server took.
module _ (tenant : ℕ) (d : Digest) (st : State)
    (r : IsDue tenant (get_settings_of tenant (st.settings)) d) (kept : IsKept st) where
  all-is_apart :
      (sent : List Digest) → are_known (st.settings) sent ≡ true → all (is_apart d) sent ≡ true
  all-is_apart [] known = refl
  all-is_apart (o ∷ sent) known =
      by_tenant (d.tenant_id == o.tenant_id) refl (ground (arith, known))
        (all-is_apart sent (ground (arith, known)))
    where
      by_tenant :
          (b : Bool)
          → (d.tenant_id == o.tenant_id) ≡ b
          → is_known (o.at) (get_settings_of (o.tenant_id) (st.settings)) ≡ true
          → all (is_apart d) sent ≡ true
          → all (is_apart d) (o ∷ sent) ≡ true
      by_tenant false e k ih = ground (arith, e, ih)
      by_tenant true e k ih =
          let same : o.tenant_id ≡ tenant = ground (arith, e, r.own) in
          let later =
            known_earlier (d.at) (o.at) (get_settings_of tenant (st.settings)) (r.due)
              (rw (sym same) k) in
          ground (arith, later, ih)

  remembers :
      (at : ℕ)
      → is_known at (get_settings_of tenant (st.settings)) ≡ true
      → is_known at (map_if (stamped (d.at)) true (get_settings_of tenant (st.settings))) ≡ true
  remembers at = stamp_remembers (d.at) at (get_settings_of tenant (st.settings)) (r.due)

  new_known :
      is_known
        (d.at)
        (get_settings_of tenant (change_settings (stamped (d.at)) tenant (st.settings)))
      ≡ true
  unfolding stamped
  new_known =
      let same : (tenant == tenant) ≡ true = ground arith in
      rw
        (
          get_settings_of-change_settings (stamped (d.at)) (λ s. refl) tenant tenant (st.settings),
          same,
        )
        (stamp_known (d.at) (get_settings_of tenant (st.settings)) (r.due))

  and_both : (a b : Bool) → a ≡ true → b ≡ true → (a && b) ≡ true
  and_both a b h k = ground arith

  deliver_sent : IsKeptIn (deliver taken tenant (some d) st)
  unfolding deliver stamped IsKeptIn
  deliver_sent =
      let others =
        are_known-change_settings (stamped (d.at)) (λ s. refl) tenant (st.settings) remembers
          (st.sent) (kept.known) in
      let first : is_known (d.at)
            (get_settings_of (d.tenant_id) (change_settings (stamped (d.at)) tenant (st.settings)))
          ≡ true =
        rw (r.own) new_known in
      record {
        known = and_both _ _ first others;
        spaced = ground (arith, all-is_apart (st.sent) (kept.known), kept.spaced);
      }

module _ (db : Tables) where
  deliver-IsKeptIn :
      (reply : MailReply) (tenant : ℕ) (o : Option Digest) (st : State)
      → ((d : Digest) → o ≡ some d → IsDue tenant (get_settings_of tenant (st.settings)) d)
      → IsKept st
      → IsKeptIn (deliver reply tenant o st)
  unfolding deliver IsKeptIn
  deliver-IsKeptIn reply tenant none st h kept = kept
  deliver-IsKeptIn refused tenant (some d) st h kept = kept
  deliver-IsKeptIn raises tenant (some d) st h kept = tt
  deliver-IsKeptIn taken tenant (some d) st h kept = deliver_sent tenant d st (h d refl) kept

  tenant_turn-IsKeptIn : (t : ℕ) (st : State) → IsKept st → IsKeptIn (tenant_turn db t st)
  unfolding tenant_turn
  tenant_turn-IsKeptIn t st kept =
      let o = get_settings_of t (st.settings) in
      deliver-IsKeptIn (db.reply t) t (digest_for db t o) st (digest_for-IsDue db t o) kept

  turns-IsKeptIn : (ts : List ℕ) (st : State) → IsKept st → IsKeptIn (turns db ts st)
  unfolding turns IsKeptIn
  turns-IsKeptIn [] st kept = kept
  turns-IsKeptIn (t ∷ ts) st kept =
      by_turn (tenant_turn db t st) (tenant_turn-IsKeptIn t st kept) (turns-IsKeptIn ts)
    where
      by_turn :
          (r : Session)
          → IsKeptIn r
          → ((st' : State) → IsKept st' → IsKeptIn (turns db ts st'))
          → IsKeptIn (elim r [ open_at st' ↦ turns db ts st' | failed_at st' ↦ failed_at st' ])
      by_turn (open_at st') k rest = rest st' k
      by_turn (failed_at st') k rest = tt

closed-IsKept : (st : State) (r : Session) → IsKept st → IsKeptIn r → IsKept (closed st r)
unfolding closed IsKeptIn
closed-IsKept st (open_at st') kept k = k
closed-IsKept st (failed_at st') kept k = record { known = kept.known; spaced = kept.spaced }

ensure_known :
    (tenant : ℕ) (ss : List TenantSettings) (sent : List Digest)
    → are_known ss sent ≡ true
    → are_known (ensure tenant ss) sent ≡ true
unfolding ensure
ensure_known tenant ss sent known = by_search (get_settings_of tenant ss) refl
  where
    by_search :
        (o : Option TenantSettings)
        → get_settings_of tenant ss ≡ o
        → are_known (ensure tenant ss) sent ≡ true
    by_search none e =
        rw (ensure, e) (are_known-append ss (default_settings tenant ∷ []) sent known)
    by_search (some s) e = rw (ensure, e) known

-- The form changes no time of a digest.
save_notifications-IsKept :
    (tenant : ℕ) (f : Form) (st : State)
    → IsKept st
    → IsKept (record st { settings = save_notifications tenant f (st.settings) })
unfolding save_notifications filled_in map_if
save_notifications-IsKept tenant f st kept = record {
  known =
      are_known-change_settings (filled_in f) (λ s. refl) tenant (ensure tenant (st.settings))
        (λ at. form_remembers at (get_settings_of tenant (ensure tenant (st.settings)))) (st.sent)
        (ensure_known tenant (st.settings) (st.sent) (kept.known));
  spaced = kept.spaced;
}
  where
    form_remembers :
        (at : ℕ) (o : Option TenantSettings)
        → is_known at o ≡ true
        → is_known at (map_if (filled_in f) true o) ≡ true
    form_remembers at none known = cc
    form_remembers at (some s) known = known

after-IsKept : (es : List Event) (st : State) → IsKept st → IsKept (after es st)
unfolding after send_weekly_digest
after-IsKept [] st kept = kept
after-IsKept (digest_run db ∷ es) st kept =
    after-IsKept es _
      (closed-IsKept st (turns db (db.tenants) st) kept (turns-IsKeptIn db (db.tenants) st kept))
after-IsKept (form_saved t f ∷ es) st kept =
    after-IsKept es _ (save_notifications-IsKept t f st kept)

-- Whatever runs of the job and saved forms follow on each other, at whatever times, with whatever
-- tables and replies of the mail server: from a state without digests, two digests to one tenant
-- from runs that ended without an exception are at least seven days apart.
pub after-is_spaced :
    (es : List Event) (settings : List TenantSettings)
    → is_spaced ((after es (record { settings = settings; sent = []; handed = [] })).sent) ≡ true
after-is_spaced es settings =
    (after-IsKept es (record { settings = settings; sent = []; handed = [] })
      (record { known = refl; spaced = refl })).spaced
