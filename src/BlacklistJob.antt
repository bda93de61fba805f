-- ===== src/BlacklistJob.antt =====
-- app/blacklist_job.py: the scheduled DNSBL check of one domain. The table `blacklist_checks` is a
-- list of its rows, the newest first. The rows that a run adds are committed at its end, and the
-- session does not flush before a query (app/database.py), so the queries of a run read the table
-- as it was before.
pub mod Targets
pub mod Domain
pub mod Spacing
pub mod Stability
mod Tests
use dmarc_geeks.Common.{
  Bool, List, Option, Text, [], all, any, false, filter, if◌then◌else◌, is_empty, leb, length, ltb,
  map, max, none, not, some, take, true, ℕ, ◌&&◌, ◌*◌, ◌+◌, ◌-◌, ◌==◌, ◌∷◌, nat_eq, text_eq,
}
use dmarc_geeks.Blacklist.Zones.{Hit, severity_for}
use dmarc_geeks.Blacklist.Resolver.{RdType, Answer, Dnsbl}
use dmarc_geeks.Blacklist.Check.{check_ip}

pub data Event : Type 0 where
  blacklist_alerts blacklist_resolved : Event

pub data Role : Type 0 where
  mx sender : Role

pub record Target : Type 0 where
  pub ip : Text
  pub role : Role

-- A row of `BlacklistCheck`; `hits` is the content of `hits_json`.
pub record Row : Type 0 where
  pub domain_id : ℕ
  pub ip : Text
  pub role : Role
  pub listed_count : ℕ
  pub severity : ℕ
  pub hits : List Hit
  pub alerted_event : Option Event
  pub alerted_at : Option ℕ

abbrev pub same_event : Event → Event → Bool
same_event blacklist_alerts blacklist_alerts = true
same_event blacklist_resolved blacklist_resolved = true
same_event _ _ = false

-- `ALERT_COOLDOWN_HOURS`, in seconds.
abbrev pub cooldown : ℕ
cooldown = 6 * 3600

-- `max(1, int(settings.dnsbl_stability_threshold or 2))`
unfoldable pub threshold_of : ℕ → ℕ
threshold_of setting = max 1 (if setting == 0 then 2 else setting)

is_for : ℕ → Text → Row → Bool
is_for domain_id ip r = r.domain_id == domain_id && r.ip == ip

-- The rows of a (domain, ip) by `checked_at`, the newest first.
unfoldable pub history : ℕ → Text → List Row → List Row
unfolding is_for
history domain_id ip db = filter (is_for domain_id ip) db

unfoldable pub prev_severity : List Row → ℕ
prev_severity [] = 0
prev_severity (r ∷ rs) = r.severity

-- `all(p(s) for s in last_severities)`, which is asked only above a threshold of 1.
unfoldable pub is_stable : ℕ → (ℕ → Bool) → ℕ → List Row → Bool
is_stable threshold p sev past =
    p sev
    && (if ltb 1 threshold
        then all p (sev ∷ map (λ r. r.severity) (take (threshold - 1) past))
        else true)

-- The state change that a check shows, before the cooldown: severity of the hits, rows of the past.
unfoldable pub event_for : Bool → ℕ → List Hit → List Row → Option Event
unfolding is_stable prev_severity
event_for has_tenant threshold hits past =
    let sev = severity_for hits in
    if is_empty hits
    then (if is_stable threshold (λ s. s == 0) sev past
          && not (is_empty past)
          && leb 2 (prev_severity past)
          && has_tenant
        then some blacklist_resolved
        else none)
    else if is_stable threshold (λ s. leb 2 s) sev past
        && ltb (prev_severity past) sev
        && has_tenant
    then some blacklist_alerts
    else none

alerted_since : ℕ → Option ℕ → Bool
alerted_since cutoff none = false
alerted_since cutoff (some t) = leb cutoff t

alerted_by : Event → Option Event → Bool
alerted_by e none = false
alerted_by e (some f) = same_event e f

-- `_recently_alerted`, as a test.
unfoldable pub recently_alerted : ℕ → ℕ → Text → Event → List Row → Bool
unfolding is_for alerted_by alerted_since
recently_alerted now domain_id ip e db =
    any
      (λ r.
        is_for domain_id ip r
        && alerted_by e r.alerted_event
        && alerted_since (now - cooldown) r.alerted_at)
      db

-- The event that is sent: `none` also where the cooldown suppresses it.
unfoldable pub sent_event : ℕ → ℕ → Text → List Row → Option Event → Option Event
unfolding recently_alerted
sent_event now domain_id ip db none = none
sent_event now domain_id ip db (some e) =
    if recently_alerted now domain_id ip e db then none else some e

-- The row that the loop body of `check_domain` adds for one target.
unfoldable pub row_for : ℕ → ℕ → Bool → ℕ → Target → List Hit → List Row → Row
unfolding history event_for sent_event
row_for now domain_id has_tenant threshold t hits db =
    let event =
      sent_event now domain_id t.ip db
        (event_for has_tenant threshold hits (history domain_id t.ip db)) in
    record {
      domain_id = domain_id;
      ip = t.ip;
      role = t.role;
      listed_count = length hits;
      severity = severity_for hits;
      hits = hits;
      alerted_event = event;
      alerted_at = elim event [ none ↦ none | some e ↦ some now ];
    }

pub record Counts : Type 0 where
  pub checked : ℕ
  pub listed : ℕ
  pub alerted : ℕ

abbrev pub one_if : Bool → ℕ
one_if true = 1
one_if false = 0

abbrev pub is_some {ℓ} : {A : Type ℓ} → Option A → Bool
is_some none = false
is_some (some a) = true

unfoldable pub count_row : Row → Counts → Counts
count_row r c = record {
  checked = c.checked + 1;
  listed = c.listed + one_if (not (is_empty r.hits));
  alerted = c.alerted + one_if (is_some r.alerted_event);
}

module _ (resolve : ℕ → Text → RdType → Answer) (dqs_key : Text) (now : ℕ) where
  -- The loop over the targets. It returns the added rows with the counts.
  unfoldable pub run : ℕ → Bool → ℕ → List Row → List Target → Dnsbl → Counts → List Row × Counts
  unfolding row_for count_row
  run domain_id has_tenant threshold db [] s c = ([], c)
  run domain_id has_tenant threshold db (t ∷ ts) s c =
      let (hits, s') = check_ip resolve now dqs_key t.ip none s in
      let r = row_for now domain_id has_tenant threshold t hits db in
      let (rows, c') = run domain_id has_tenant threshold db ts s' (count_row r c) in (r ∷ rows, c')
