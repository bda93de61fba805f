-- ===== src/Stats/Sums.antt =====
-- app/stats.py: sums over rows and over their groups.
use dmarc_geeks.Common.{
  Bool, List, Option, Text, [], ap, arith, false, if◌then◌else◌, none, not, option_beq_iff, refl,
  some, sum_by, true, ℕ, ◌+◌, ◌==◌, ◌∷◌, ◌≡◌, nat_eq, text_eq, option_eq,
}
use dmarc_geeks.Stats.{
  Row, group_by, group_from, add_row, same_evals, same_outcome, aligned, disposed,
}

-- The messages of the rows that `c` selects.
abbrev pub volume : (Row → Bool) → List Row → ℕ
volume c rows = sum_by (λ r. if c r then r.count else 0) rows

-- `c` reads no column that the group does not fix.
pub record Respects (same : Row → Row → Bool) (c : Row → Bool) : Type 0 where
  pub agree : (a b : Row) → same a b ≡ true → c a ≡ c b
  pub count_free : (a : Row) (n : ℕ) → c (record a { count = n }) ≡ c a

module _ (same : Row → Row → Bool) (c : Row → Bool) (h : Respects same c) where
  volume-add_row :
      (r : Row) (gs : List Row)
      → volume c (add_row same r gs) ≡ volume c gs + (if c r then r.count else 0)
  unfolding add_row
  volume-add_row r [] = omega arith
  volume-add_row r (g ∷ gs) = by_same (same g r) refl (volume-add_row r gs)
    where
      by_same :
          (b : Bool)
          → same g r ≡ b
          → volume c (add_row same r gs) ≡ volume c gs + (if c r then r.count else 0)
          → volume c (add_row same r (g ∷ gs)) ≡ volume c (g ∷ gs) + (if c r then r.count else 0)
      by_same true e ih = rw (e, h.count_free g (g.count + r.count), h.agree g r e) (ground arith)
      by_same false e ih = rw e (omega (arith, ih))

  volume-group_from :
      (gs rows : List Row) → volume c (group_from same gs rows) ≡ volume c gs + volume c rows
  unfolding group_from
  volume-group_from gs [] = omega arith
  volume-group_from gs (r ∷ rs) =
      omega (arith, volume-group_from (add_row same r gs) rs, volume-add_row r gs)

  pub volume-group_by : (rows : List Row) → volume c (group_by same rows) ≡ volume c rows
  unfolding group_by
  volume-group_by rows = omega (arith, volume-group_from [] rows)

-- The selections that the statistics add up over.
abbrev pub any_row : Row → Bool
any_row r = true

abbrev pub not_aligned : Row → Bool
not_aligned r = not (aligned r)

pub any_row-Respects : (same : Row → Row → Bool) → Respects same any_row
any_row-Respects same = record { agree = λ a b h. refl; count_free = λ a n. refl }

pub aligned-Respects : Respects same_outcome aligned
unfolding same_outcome same_evals aligned
aligned-Respects = record {
  agree = λ a b h. ground (
    arith,
    h,
    option_beq_iff (a.dkim_eval) (b.dkim_eval),
    option_beq_iff (a.spf_eval) (b.spf_eval),
  );
  count_free = λ a n. refl;
}

pub not_aligned-Respects : Respects same_outcome not_aligned
not_aligned-Respects = record {
  agree = λ a b h. ap not (aligned-Respects.agree a b h);
  count_free = λ a n. ap not (aligned-Respects.count_free a n);
}

pub disposed-Respects : (d : Text) → Respects same_outcome (disposed d)
unfolding same_outcome same_evals disposed
disposed-Respects d = record {
  agree = λ a b h.
      by_disposition (a.disposition) (b.disposition)
        (ground (arith, h, option_beq_iff (a.disposition) (b.disposition)));
  count_free = λ a n. refl;
}
  where
    by_disposition :
        (s t : Option Text)
        → s ≡ t
        → (elim s [ none ↦ false | some e ↦ e == d ]) ≡ (elim t [ none ↦ false | some e ↦ e == d ])
    by_disposition s t e = ap (λ o. elim o as (λ x. Bool) [ none ↦ false | some x ↦ x == d ]) e

-- The messages that pass and those that fail are all of them.
pub volume-aligned :
    (rows : List Row) → volume aligned rows + volume not_aligned rows ≡ volume any_row rows
volume-aligned [] = omega arith
volume-aligned (r ∷ rs) = ground (arith, volume-aligned rs)
