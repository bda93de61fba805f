-- ===== src/Stats/Sankey/Laws.antt =====
-- app/stats.py: the flows into and out of the alignment nodes of `sankey_data`.
use dmarc_geeks.Common.{
  Bool, List, Text, sum_at, text, ℕ, ◌==◌, ◌≡◌, nat_eq, text_eq, int_eq, option_eq, pair_eq,
}
use dmarc_geeks.Stats.{Row}
use dmarc_geeks.Stats.Sankey.{alignment}

abbrev node_test : Text → Row → Bool
node_test node r = alignment r == node

-- The flows `a` into the two alignments and the flows `b` out of them.
pub record IsConserved (a b : List ((Text × Text) × ℕ)) (pass fail : ℕ) : Type 0 where
  pub pass_in : sum_at (λ (k : Text × Text). k.1 == text "Aligned") a ≡ pass
  pub pass_out : sum_at (λ (k : Text × Text). k.0 == text "Aligned") b ≡ pass
  pub fail_in : sum_at (λ (k : Text × Text). k.1 == text "Not aligned") a ≡ fail
  pub fail_out : sum_at (λ (k : Text × Text). k.0 == text "Not aligned") b ≡ fail
