-- ===== src/BlacklistJob/Tests.antt =====
-- Runs of the scheduled check of app/blacklist_job.py.
use dmarc_geeks.Blacklist.Zones.{severity_for}
use dmarc_geeks.Common.{All, List, Text, [], arith, refl, some, text, true, ℕ, ◌∷◌, ◌≡◌, ◌≤◌, ◌⊎◌}
use dmarc_geeks.Blacklist.Zones.{Hit}
use dmarc_geeks.Blacklist.Resolver.{RdType, Answer, records, Dnsbl}
use dmarc_geeks.BlacklistJob.{
  blacklist_alerts, mx, Target, row_for, history, prev_severity, threshold_of,
}
use dmarc_geeks.BlacklistJob.Targets.{targets, IsDistinct, targets-IsDistinct}
use dmarc_geeks.BlacklistJob.Domain.{Domain, check_all}
use dmarc_geeks.BlacklistJob.Stability.{row_for_alert, IsNotResolved, check_all_never_resolved}
use dmarc_geeks.BlacklistJob.Spacing.{is_spaced, check_all-is_spaced}

abbrev ip : Text
ip = text "192.0.2.1"

abbrev hit : Hit
hit = record {
  zone = text "bl.spamcop.net";
  name = text "SpamCop";
  severity = 2;
  codes = text "127.0.0.2" ∷ [];
  txt = [];
}

abbrev target : Target
target = record { ip = ip; role = mx }

abbrev fresh_state : Dnsbl
fresh_state = record { cache = []; probes = []; warned = [] }

abbrev lists_all : ℕ → Text → RdType → Answer
lists_all r name t = records (text "127.0.0.2" ∷ [])

abbrev one_domain : Domain
one_domain = record { id = 1; has_tenant = true; mx_ips = ip ∷ []; sender_ips = ip ∷ [] }

abbrev two_checks : List (ℕ × Domain × Dnsbl)
two_checks = (1000, one_domain, fresh_state) ∷ (50000, one_domain, fresh_state) ∷ []

-- The first check ever of a listed IP alerts.
first_alert : (row_for 1000 1 true 2 target (hit ∷ []) []).alerted_event ≡ some blacklist_alerts
unfolding row_for severity_for
first_alert = refl

no_target_twice : IsDistinct (targets (ip ∷ []) (ip ∷ text "192.0.2.2" ∷ []))
no_target_twice = targets-IsDistinct (ip ∷ []) (ip ∷ text "192.0.2.2" ∷ [])

row_for_alert_example : (history 1 ip [] ≡ []) ⊎ (2 ≤ prev_severity (history 1 ip []))
row_for_alert_example = row_for_alert 1000 1 true 2 target (hit ∷ []) [] (omega arith) first_alert

default_threshold : 2 ≤ threshold_of 0
unfolding threshold_of
default_threshold = ground arith

check_all_never_resolved_example : All IsNotResolved (check_all lists_all [] 0 two_checks [])
check_all_never_resolved_example =
    check_all_never_resolved lists_all [] 0 default_threshold two_checks

check_all-is_spaced_example : is_spaced (check_all lists_all [] 0 two_checks []) ≡ true
check_all-is_spaced_example = check_all-is_spaced lists_all [] 0 two_checks [] refl
