-- ===== src/Advisor.antt =====
-- app/advisor.py: `evaluate`, the advice on the policy of a domain, without the texts, and
-- app/onboarding.py: the checklist of a tenant. `ago n` is the time `n` days ago and `days_since` the
-- whole days since a time; `drops` is the float test that the rate of the last 7 days is 10 points
-- below that of 30 days. The rates of 99 and 90 percent are compared as fractions.
pub mod Laws
pub mod Checklist
mod Tests
use dmarc_geeks.Common.{
  Bool, List, Option, Text, [], filter, if◌then◌else◌, leb, lebℤ, ltb, mem, none, not, or_else,
  some, sorted, starts_with, sum_by, take, text, ℕ, ℤ, ◌&&◌, ◌*◌, ◌++◌, ◌+◌, ◌==◌, ◌||◌, ◌∷◌,
  nat_eq, text_eq, int_eq, option_eq, pair_eq, pos,
}
use dmarc_geeks.Stats.{Row, group_by, same_outcome, same_evals, aligned}
use dmarc_geeks.Stats.Labels.{sender_label}

-- A report of the domain, in the order of the table.
pub record LastReport : Type 0 where
  pub domain_id : ℕ
  pub policy_p : Option Text
  pub date_end : ℤ

pub data Advice : Type 0 where
  no_data : Advice
  stale : ℤ → Advice
  ready_for_quarantine : Advice
  ready_for_reject : Advice
  low_rate : Advice
  not_ripe : Advice
  too_little : ℕ → Advice
  new_sender : Text → Text → ℕ → Advice
  unknown_source : Text → ℕ → Advice
  falling_rate : Advice

-- `order_by(date_end.desc()).limit(1)`
later_of : LastReport → Option LastReport → Option LastReport
later_of r none = some r
later_of r (some s) = if lebℤ (s.date_end) (r.date_end) then some r else some s

unfoldable pub last_report : ℕ → List LastReport → Option LastReport
unfolding later_of
last_report d [] = none
last_report d (r ∷ rs) =
    let rest = last_report d rs in if r.domain_id == d then later_of r rest else rest

unfoldable pub total_of : List Row → ℕ
total_of rows = sum_by (λ r. r.count) rows

unfoldable pub aligned_of : List Row → ℕ
aligned_of rows = sum_by (λ r. if aligned r then r.count else 0) rows

unfoldable pub policy_advice : ℕ → ℕ → Text → List Advice
policy_advice total passed policy =
    if leb 100 total
    then (if leb (99 * total) (100 * passed) && policy == text "none"
        then ready_for_quarantine ∷ []
        else if leb (99 * total) (100 * passed) && policy == text "quarantine"
        then ready_for_reject ∷ []
        else if ltb (100 * passed) (90 * total)
        then low_rate ∷ []
        else if ltb (100 * passed) (99 * total) && policy == text "none"
        then not_ripe ∷ []
        else [])
    else too_little total ∷ []

-- The list for a total: `first` and `rest` are what stands around the advice on the policy.
unfoldable pub advice : ℕ → ℕ → Text → List Advice → List Advice → List Advice
unfolding policy_advice
advice total passed policy first rest =
    if total == 0 then no_data ∷ [] else first ++ (policy_advice total passed policy ++ rest)

-- A source with its first date and its messages.
same_host : Row → Row → Bool
same_host a b = a.source_ip == b.source_ip && a.source_host == b.source_host

add_source : Row → List Row → List Row
unfolding same_host
add_source r [] = r ∷ []
add_source r (g ∷ gs) =
    let rest = add_source r gs in
    if same_host g r
    then record g {
      count = g.count + r.count;
      date_begin = if lebℤ (r.date_begin) (g.date_begin) then r.date_begin else g.date_begin;
    }
      ∷ gs
    else g ∷ rest

sources_from : List Row → List Row → List Row
unfolding add_source
sources_from gs [] = gs
sources_from gs (r ∷ rs) = sources_from (add_source r gs) rs

-- The three largest sources that first appeared since `cutoff`.
unfoldable pub first_seen : ℤ → List Row → List Row
unfolding sources_from sorted
first_seen cutoff rows = take 3 (
    sorted (λ a b. leb (b.count) (a.count))
      (filter (λ g. lebℤ cutoff (g.date_begin)) (sources_from [] rows)))

unfoldable pub source_advice : List Text → List Row → List Advice
unfolding mem sender_label starts_with
source_advice allowed [] = []
source_advice allowed (r ∷ rs) =
    let rest = source_advice allowed rs in
    let label = sender_label (r.source_host) (r.source_ip) in
    if mem (r.source_ip) allowed || ltb (r.count) 5
    then rest
    else if not (label == text "Unbekannt")
        && not (label == text "IP " ++ r.source_ip)
        && not (starts_with label (text "IP "))
    then new_sender label (r.source_ip) (r.count) ∷ rest
    else unknown_source (r.source_ip) (r.count) ∷ rest

module _ (ago : ℕ → ℤ) (days_since : ℤ → ℤ) (drops : ℕ → ℕ → ℕ → ℕ → Bool) where
  unfoldable pub rows_since : ℕ → ℕ → List Row → List Row
  rows_since domain n rows = filter (λ r. r.domain_id == domain && lebℤ (ago n) (r.date_begin)) rows

  stale_advice : Option LastReport → List Advice
  stale_advice none = []
  stale_advice (some r) =
      if lebℤ (pos 6) (days_since (r.date_end)) then stale (days_since (r.date_end)) ∷ [] else []

  unfoldable pub falling_advice : ℕ → ℕ → ℕ → ℕ → List Advice
  falling_advice total passed recent recent_passed =
      if leb 50 recent && drops total passed recent recent_passed then falling_rate ∷ [] else []

  -- `(last[0] if last else None) or "none"`
  unfoldable pub policy_of : Option LastReport → Text
  unfolding or_else
  policy_of none = text "none"
  policy_of (some r) = or_else (r.policy_p) (text "none")

  unfoldable pub evaluate : ℕ → List Row → List LastReport → List Text → List Advice
  unfolding rows_since group_by same_outcome same_evals total_of aligned_of last_report policy_of
      stale_advice advice first_seen source_advice falling_advice
  evaluate domain rows reports allowed =
      let month = group_by same_outcome (rows_since domain 30 rows) in
      let week = group_by same_evals (rows_since domain 7 rows) in
      let last = last_report domain reports in
      let own = filter (λ r. r.domain_id == domain) rows in
      advice (total_of month) (aligned_of month) (policy_of last) (stale_advice last) (
        source_advice allowed (first_seen (ago 3) own)
        ++ falling_advice (total_of month) (aligned_of month) (total_of week) (aligned_of week))
