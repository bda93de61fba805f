-- ===== src/Advisor/Tests.antt =====
-- Runs of app/advisor.py.
use dmarc_geeks.Common.{text_beq}
use dmarc_geeks.Common.{option_beq}
use dmarc_geeks.Common.{
  All, Bool, List, Text, [], false, none, refl, some, text, ℕ, ℤ, ◌-◌, ◌∷◌, ◌≡◌,
}
use dmarc_geeks.Stats.{Row, aligned}
use dmarc_geeks.Stats.Sums.{volume, any_row}
use dmarc_geeks.Advisor.{ready_for_quarantine, LastReport, last_report, policy_of, evaluate, pos}
use dmarc_geeks.Advisor.Laws.{Backed, month_of, evaluate-Backed}

abbrev row : Text → ℕ → Row
row dkim n = record {
  tenant_id = 7;
  domain_id = 1;
  date_begin = pos 10;
  source_ip = text "192.0.2.1";
  source_host = none;
  dkim_eval = some dkim;
  spf_eval = none;
  disposition = none;
  count = n;
}

abbrev rows : List Row
rows = row (text "pass") 200 ∷ row (text "fail") 2 ∷ []

abbrev reports : List LastReport
reports = record { domain_id = 1; policy_p = some (text "none"); date_end = pos 11 } ∷ []

abbrev ago : ℕ → ℤ
ago n = pos (11 - n)

abbrev days_since : ℤ → ℤ
days_since t = pos 0

abbrev drops : ℕ → ℕ → ℕ → ℕ → Bool
drops t p r q = false

ready :
    evaluate ago days_since drops 1 rows reports (text "192.0.2.1" ∷ []) ≡ ready_for_quarantine ∷ []
unfolding evaluate option_beq text_beq aligned
ready = refl

evaluate-Backed_example :
    All
      (Backed
        (volume any_row (month_of ago days_since drops 1 rows))
        (volume aligned (month_of ago days_since drops 1 rows))
        (policy_of ago days_since drops (last_report 1 reports)))
      (evaluate ago days_since drops 1 rows reports [])
evaluate-Backed_example = evaluate-Backed ago days_since drops 1 rows reports []
