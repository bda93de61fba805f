-- ===== src/BlacklistJob/Stability.antt =====
-- What the stability threshold of app/blacklist_job.py lets through.
use dmarc_geeks.BlacklistJob.Domain.{check_domain, Domain, check_all, zero_counts}
use dmarc_geeks.Blacklist.Resolver.{RdType, Answer, Dnsbl}
use dmarc_geeks.Common.{
  All, All-append, Bool, List, Option, Text, [], arith, inl, inr, none, refl, some, suc, zero, ℕ,
  ◌∷◌, ◌≡◌, ◌≢◌, ◌≤◌, ◌⊎◌,
}
use dmarc_geeks.Blacklist.Zones.{Hit}
use dmarc_geeks.BlacklistJob.{
  blacklist_alerts, blacklist_resolved, Row, prev_severity, event_for, sent_event, row_for, Target,
  Event, run, history, threshold_of, Counts,
}

event_for-ne-resolved :
    (has_tenant : Bool) (n : ℕ) (hits : List Hit) (past : List Row)
    → event_for has_tenant (suc (suc n)) hits past ≢ some blacklist_resolved
unfolding event_for
event_for-ne-resolved has_tenant n hits [] = ground arith
event_for-ne-resolved has_tenant n hits (r ∷ past) = ground arith

event_for_alert :
    (has_tenant : Bool) (n : ℕ) (hits : List Hit) (past : List Row)
    → event_for has_tenant (suc (suc n)) hits past ≡ some blacklist_alerts
    → (past ≡ []) ⊎ (2 ≤ prev_severity past)
unfolding event_for
event_for_alert has_tenant n hits [] h = inl refl
event_for_alert has_tenant n hits (r ∷ past) h = inr (ground arith)

sent_event-eq :
    (now domain_id : ℕ) (ip : Text) (db : List Row) (o : Option Event) (e : Event)
    → sent_event now domain_id ip db o ≡ some e
    → o ≡ some e
unfolding sent_event
sent_event-eq now domain_id ip db none e h = h
sent_event-eq now domain_id ip db (some f) e h = ground arith

-- With a stability threshold of at least 2, an alert for an IP is sent only at its first check
-- ever, or if its previous check already had severity 2 or more. So an IP that was checked before
-- and was clean at its previous check raises no alert when it gets listed.
pub row_for_alert :
    (now domain_id : ℕ) (has_tenant : Bool) (threshold : ℕ) (t : Target) (hits : List Hit)
    (db : List Row)
    → 2 ≤ threshold
    → (row_for now domain_id has_tenant threshold t hits db).alerted_event ≡ some blacklist_alerts
    → (history domain_id t.ip db ≡ []) ⊎ (2 ≤ prev_severity (history domain_id t.ip db))
unfolding row_for
row_for_alert now domain_id has_tenant zero t hits db h e = absurd (omega arith)
row_for_alert now domain_id has_tenant (suc zero) t hits db h e = absurd (omega arith)
row_for_alert now domain_id has_tenant (suc (suc n)) t hits db h e =
    event_for_alert has_tenant n hits (history domain_id t.ip db)
      (sent_event-eq now domain_id t.ip db _ blacklist_alerts e)

row_for-ne-resolved :
    (now domain_id : ℕ) (has_tenant : Bool) (threshold : ℕ) (t : Target) (hits : List Hit)
    (db : List Row)
    → 2 ≤ threshold
    → (row_for now domain_id has_tenant threshold t hits db).alerted_event ≢ some blacklist_resolved
unfolding row_for
row_for-ne-resolved now domain_id has_tenant zero t hits db h = absurd (omega arith)
row_for-ne-resolved now domain_id has_tenant (suc zero) t hits db h = absurd (omega arith)
row_for-ne-resolved now domain_id has_tenant (suc (suc n)) t hits db h = λ e.
    event_for-ne-resolved has_tenant n hits (history domain_id t.ip db)
      (sent_event-eq now domain_id t.ip db _ blacklist_resolved e)

abbrev pub IsNotResolved : Row → Type 0
IsNotResolved r = r.alerted_event ≢ some blacklist_resolved

module _ (resolve : ℕ → Text → RdType → Answer) (dqs_key : Text) where
  run-IsNotResolved :
      (now domain_id : ℕ) (has_tenant : Bool) (threshold : ℕ) (db : List Row) (ts : List Target)
      (s : Dnsbl) (c : Counts)
      → 2 ≤ threshold
      → All IsNotResolved (run resolve dqs_key now domain_id has_tenant threshold db ts s c).0
  unfolding run
  run-IsNotResolved now domain_id has_tenant threshold db [] s c h = tt
  run-IsNotResolved now domain_id has_tenant threshold db (t ∷ ts) s c h = (
    row_for-ne-resolved now domain_id has_tenant threshold t _ db h,
    run-IsNotResolved now domain_id has_tenant threshold db ts _ _ h,
  )

  module _ (setting : ℕ) (at_least_2 : 2 ≤ threshold_of setting) where
    check_domain-IsNotResolved :
        (now : ℕ) (d : Domain) (s : Dnsbl) (db : List Row)
        → All IsNotResolved db
        → All IsNotResolved (check_domain resolve dqs_key setting now d s db).0
    unfolding check_domain
    check_domain-IsNotResolved now d s db h =
        All-append IsNotResolved _ db
          (run-IsNotResolved now d.id d.has_tenant _ db _ s zero_counts at_least_2) h

    check_all_from-IsNotResolved :
        (checks : List (ℕ × Domain × Dnsbl)) (db : List Row)
        → All IsNotResolved db
        → All IsNotResolved (check_all resolve dqs_key setting checks db)
    unfolding check_all
    check_all_from-IsNotResolved [] db h = h
    check_all_from-IsNotResolved ((now, d, s) ∷ rest) db h =
        check_all_from-IsNotResolved rest _ (check_domain-IsNotResolved now d s db h)

    -- With a stability threshold of at least 2, no sequence of checks from an empty table ever
    -- sends the event "blacklist_resolved".
    pub check_all_never_resolved :
        (checks : List (ℕ × Domain × Dnsbl))
        → All IsNotResolved (check_all resolve dqs_key setting checks [])
    check_all_never_resolved checks = check_all_from-IsNotResolved checks [] tt
