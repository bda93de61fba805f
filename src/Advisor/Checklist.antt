-- ===== src/Advisor/Checklist.antt =====
-- app/onboarding.py: the checklist of a tenant, without its texts. The counts of the tables are
-- those of the tenant's rows.
use dmarc_geeks.Common.{
  Bool, List, [], arith, false, filter, if◌then◌else◌, length, ltb, not, refl, suc, true, zero, ℕ,
  ◌&&◌, ◌*◌, ◌==◌, ◌||◌, ◌↔◌, ◌∷◌, ◌≡◌, ◌≤◌, nat_eq, text_eq, int_eq, option_eq, pair_eq,
}
use dmarc_geeks.MtScorer.Body.{round_div}

pub data Key : Type 0 where
  domain dns ingest reports api : Key

pub record CheckItem : Type 0 where
  pub key : Key
  pub done : Bool
  pub optional : Bool

abbrev item : Key → Bool → Bool → CheckItem
item k d o = record { key = k; done = d; optional = o }

abbrev pub Checklist : Type 0
Checklist = List CheckItem

unfoldable pub done_count : Checklist → ℕ
done_count items = length (filter (λ i. i.done && not (i.optional)) items)

unfoldable pub required_count : Checklist → ℕ
required_count items = length (filter (λ i. not (i.optional)) items)

unfoldable pub percent : Checklist → ℕ
unfolding done_count required_count round_div
percent items =
    if required_count items == 0
    then 100
    else round_div (100 * done_count items) (required_count items)

unfoldable pub all_done : Checklist → Bool
unfolding done_count required_count
all_done items = done_count items == required_count items

-- How many rows of the tenant the tables have: domains, verified domains, mailboxes, reports, and
-- keys that are not revoked.
unfoldable pub compute : ℕ → ℕ → ℕ → ℕ → ℕ → Checklist
compute domains verified mailboxes n_reports keys =
    item domain (ltb 0 domains) false
    ∷ item dns (ltb 0 verified) false
    ∷ item ingest (ltb 0 mailboxes || ltb 0 n_reports) false
    ∷ item reports (ltb 0 n_reports) false
    ∷ item api (ltb 0 keys) true
    ∷ []

done_le_required : (items : Checklist) → done_count items ≤ required_count items
unfolding done_count required_count
done_le_required [] = omega arith
done_le_required (i ∷ items) = ground (arith, done_le_required items)

of_four : (n : ℕ) → n ≤ 4 → ((n == 4) ≡ true) ↔ (round_div (100 * n) 4 ≡ 100)
unfolding round_div
of_four zero h = (λ k. ground (arith, k), λ k. ground (arith, k))
of_four (suc zero) h = (λ k. ground (arith, k), λ k. ground (arith, k))
of_four (suc (suc zero)) h = (λ k. ground (arith, k), λ k. ground (arith, k))
of_four (suc (suc (suc zero))) h = (λ k. ground (arith, k), λ k. ground (arith, k))
of_four (suc (suc (suc (suc zero)))) h = (λ k. refl, λ k. refl)
of_four (suc (suc (suc (suc (suc n))))) h = absurd (omega (arith, h))

-- The checklist of a tenant shows 100 percent exactly if every required item is done.
pub compute-percent :
    (domains verified mailboxes n_reports keys : ℕ)
    → (all_done (compute domains verified mailboxes n_reports keys) ≡ true)
      ↔ (percent (compute domains verified mailboxes n_reports keys) ≡ 100)
unfolding all_done percent compute required_count
compute-percent domains verified mailboxes n_reports keys =
    of_four (done_count (compute domains verified mailboxes n_reports keys))
      (done_le_required (compute domains verified mailboxes n_reports keys))
