-- ===== src/BlacklistJob/Domain.antt =====
-- `check_domain` and `run_all_blacklist_checks` of app/blacklist_job.py.
use dmarc_geeks.Common.{Bool, List, Text, [], ℕ, ◌++◌, ◌∷◌}
use dmarc_geeks.Blacklist.Resolver.{RdType, Answer, Dnsbl}
use dmarc_geeks.BlacklistJob.{Row, Counts, threshold_of, run}
use dmarc_geeks.BlacklistJob.Targets.{targets}

-- What `check_domain` reads of a domain: the IPs of its MX hosts and its top senders.
pub record Domain : Type 0 where
  pub id : ℕ
  pub has_tenant : Bool
  pub mx_ips : List Text
  pub sender_ips : List Text

abbrev pub zero_counts : Counts
zero_counts = record { checked = 0; listed = 0; alerted = 0 }

module _ (resolve : ℕ → Text → RdType → Answer) (dqs_key : Text) (setting : ℕ) where
  -- The table after the commit, and the counts.
  unfoldable pub check_domain : ℕ → Domain → Dnsbl → List Row → List Row × Counts
  unfolding targets run
  check_domain now d s db =
      let (rows, c) =
        run resolve dqs_key now d.id d.has_tenant (threshold_of setting) db
          (targets d.mx_ips d.sender_ips) s zero_counts in
      (rows ++ db, c)

  -- The table after checks at the given times, from whatever caches each check starts with.
  unfoldable pub check_all : List (ℕ × Domain × Dnsbl) → List Row → List Row
  unfolding check_domain
  check_all [] db = db
  check_all ((now, d, s) ∷ rest) db = check_all rest (check_domain now d s db).0
