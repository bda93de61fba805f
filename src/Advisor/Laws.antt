-- ===== src/Advisor/Laws.antt =====
-- app/advisor.py: when the advice is to sharpen the policy.
use mathlib.Core.Path.{subst}
use dmarc_geeks.Stats.Sums.{volume, any_row, volume-group_by, any_row-Respects, aligned-Respects}
use dmarc_geeks.Common.{
  All, All-append, Bool, Bool-cases, List, Option, Text, [], arith, filter, inl, inr, none, some,
  text, text_beq_iff, ℕ, ℤ, ◌*◌, ◌++◌, ◌==◌, ◌∷◌, ◌≡◌, ◌≤◌, nat_eq, text_eq, int_eq, option_eq,
  pair_eq,
}
use dmarc_geeks.Advisor.{
  Advice, ready_for_quarantine, ready_for_reject, policy_advice, stale_advice, evaluate,
  source_advice, Row, falling_advice, rows_since, LastReport, aligned, policy_of, last_report,
  advice, group_by, same_outcome, total_of, aligned_of, same_evals, first_seen,
}

-- What stands behind an advice: for a sharper policy enough messages, nearly all of which pass, and
-- the policy one step below.
unfoldable pub Backed : ℕ → ℕ → Text → Advice → Type 0
Backed total passed policy ready_for_quarantine =
    (100 ≤ total) × (99 * total ≤ 100 * passed) × (policy ≡ text "none")
Backed total passed policy ready_for_reject =
    (100 ≤ total) × (99 * total ≤ 100 * passed) × (policy ≡ text "quarantine")
Backed total passed policy _ = Unit

policy_advice-Backed :
    (total passed : ℕ) (policy : Text)
    → All (Backed total passed policy) (policy_advice total passed policy)
unfolding Backed policy_advice
policy_advice-Backed total passed policy =
    ground (arith, text_beq_iff policy (text "none"), text_beq_iff policy (text "quarantine"))

source_advice-Backed :
    (total passed : ℕ) (policy : Text) (allowed : List Text) (rows : List Row)
    → All (Backed total passed policy) (source_advice allowed rows)
unfolding source_advice Backed
source_advice-Backed total passed policy allowed [] = tt
source_advice-Backed total passed policy allowed (r ∷ rs) =
    ground (arith, source_advice-Backed total passed policy allowed rs)

advice-Backed :
    (total passed : ℕ) (policy : Text) (first rest : List Advice)
    → All (Backed total passed policy) first
    → All (Backed total passed policy) rest
    → All (Backed total passed policy) (advice total passed policy first rest)
unfolding advice
advice-Backed total passed policy first rest h k = elim (Bool-cases (total == 0)) [
  | inl y ↦ rw y (unfold Backed in tt, tt)
  | inr f ↦ rw f (
      All-append (Backed total passed policy) first _ h (
        All-append (Backed total passed policy) _ rest (policy_advice-Backed total passed policy)
          k))
]

module _ (ago : ℕ → ℤ) (days_since : ℤ → ℤ) (drops : ℕ → ℕ → ℕ → ℕ → Bool) where
  stale_advice-Backed :
      (total passed : ℕ) (policy : Text) (last : Option LastReport)
      → All (Backed total passed policy) (stale_advice ago days_since drops last)
  unfolding stale_advice Backed
  stale_advice-Backed total passed policy none = tt
  stale_advice-Backed total passed policy (some r) = ground arith

  falling_advice-Backed :
      (total passed : ℕ) (policy : Text) (a b c d : ℕ)
      → All (Backed total passed policy) (falling_advice ago days_since drops a b c d)
  unfolding falling_advice Backed
  falling_advice-Backed total passed policy a b c d = ground arith

  -- The messages of the domain in the last 30 days.
  abbrev pub month_of : ℕ → List Row → List Row
  month_of domain rows = rows_since ago days_since drops domain 30 rows

  -- The advice is to sharpen the policy to quarantine or reject only if the domain had at least 100
  -- messages in 30 days of which 99 percent passed, and its last report shows the policy one step
  -- below.
  pub evaluate-Backed :
      (domain : ℕ) (rows : List Row) (reports : List LastReport) (allowed : List Text)
      → All
          (Backed
            (volume any_row (month_of domain rows))
            (volume aligned (month_of domain rows))
            (policy_of ago days_since drops (last_report domain reports)))
          (evaluate ago days_since drops domain rows reports allowed)
  unfolding evaluate
  evaluate-Backed domain rows reports allowed =
      let raw = month_of domain rows in
      let month = group_by same_outcome raw in
      let policy = policy_of ago days_since drops (last_report domain reports) in
      let list = evaluate ago days_since drops domain rows reports allowed in
      let week = group_by same_evals (rows_since ago days_since drops domain 7 rows) in
      let new = first_seen (ago 3) (filter (λ r. r.domain_id == domain) rows) in
      let falling =
        falling_advice ago days_since drops (total_of month) (aligned_of month) (total_of week)
          (aligned_of week) in
      let total = volume-group_by same_outcome any_row (any_row-Respects same_outcome) raw in
      let passed = volume-group_by same_outcome aligned aligned-Respects raw in
      subst (λ t. All (Backed t (volume aligned raw) policy) list) total
        (subst (λ p. All (Backed (volume any_row month) p policy) list) passed
          (advice-Backed (total_of month) (aligned_of month) policy
            (stale_advice ago days_since drops (last_report domain reports))
            (source_advice allowed new ++ falling)
            (stale_advice-Backed (total_of month) (aligned_of month) policy
              (last_report domain reports))
            (All-append (Backed (total_of month) (aligned_of month) policy)
              (source_advice allowed new) falling
              (source_advice-Backed (total_of month) (aligned_of month) policy allowed new)
              (falling_advice-Backed (total_of month) (aligned_of month) policy (total_of month)
                (aligned_of month) (total_of week) (aligned_of week)))))
