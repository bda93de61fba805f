-- ===== src/Stats/Senders/Laws.antt =====
-- app/stats.py: the senders of `sender_breakdown`, its "Andere" bucket and the totals.
use dmarc_geeks.Common.{
  Bool, Bool-cases, List, Text, [], ap, arith, drop, if◌then◌else◌, inl, inr, length, ltb, not,
  option_beq_iff, refl, sorted, suc, sum_by, sum_by-append, sum_by-sorted, sum_by-take-drop,
  sum_by-tally, sym, take, text, ℕ, ◌+◌, ◌∙◌, ◌∷◌, ◌≡◌, nat_eq, text_eq, int_eq, option_eq,
}
use dmarc_geeks.Stats.{
  Row, Query, Volume, no_volume, add_volume, select, group_by, same_evals, aligned, domain_totals,
}
use dmarc_geeks.Stats.Sums.{
  volume, Respects, volume-group_by, any_row, not_aligned, any_row-Respects,
}
use dmarc_geeks.Stats.Laws.{domain_totals-Counts}
use dmarc_geeks.Stats.Senders.{
  same_source, larger, by_label, sum_of, limited, finish, sender_breakdown, sender_label,
}

same_source-aligned : Respects same_source aligned
unfolding same_source same_evals aligned
same_source-aligned = record {
  agree = λ a b h. ground (
    arith,
    h,
    option_beq_iff (a.dkim_eval) (b.dkim_eval),
    option_beq_iff (a.spf_eval) (b.spf_eval),
  );
  count_free = λ a n. refl;
}

same_source-not_aligned : Respects same_source not_aligned
same_source-not_aligned = record {
  agree = λ a b h. ap not (same_source-aligned.agree a b h);
  count_free = λ a n. ap not (same_source-aligned.count_free a n);
}

-- A field of the volumes, which counts the rows that `c` selects.
record Field (g : Volume → ℕ) (c : Row → Bool) : Type 0 where
  empty : g no_volume ≡ 0
  adds : (r : Row) (v : Volume) → g (add_volume r v) ≡ g v + (if c r then r.count else 0)
  rest : (bs : List (Text × Volume)) → g (sum_of bs) ≡ sum_by (λ (b : Text × Volume). g b.1) bs
  respects : Respects same_source c

module _ (g : Volume → ℕ) (c : Row → Bool) (field : Field g c) where
  limited-sum :
      (limit : ℕ) (bs : List (Text × Volume))
      → sum_by (λ (b : Text × Volume). g b.1) (limited limit bs)
        ≡ sum_by (λ (b : Text × Volume). g b.1) bs
  unfolding limited
  limited-sum limit bs = elim (Bool-cases (ltb limit (length bs))) [
    | inl y ↦ rw y (
        omega (
          arith,
          sum_by-append (λ (b : Text × Volume). g b.1) (take limit bs)
              ((text "Andere", sum_of (drop limit bs)) ∷ []),
          sum_by-take-drop (λ (b : Text × Volume). g b.1) limit bs,
          field.rest (drop limit bs),
        ))
    | inr f ↦ rw f refl
  ]

  finish-sum :
      (rate : ℕ → ℕ → ℕ) (i : ℕ) (bs : List (Text × Volume))
      → sum_by (λ s. g (s.volume)) (finish rate i bs) ≡ sum_by (λ (b : Text × Volume). g b.1) bs
  unfolding finish
  finish-sum rate i [] = refl
  finish-sum rate i ((l, v) ∷ bs) = omega (arith, finish-sum rate (suc i) bs)

  breakdown-sum :
      (rate : ℕ → ℕ → ℕ) (q : Query) (limit : ℕ) (rows : List Row)
      → sum_by (λ s. g (s.volume)) (sender_breakdown rate q limit rows) ≡ volume c (select q rows)
  unfolding sender_breakdown by_label
  breakdown-sum rate q limit rows =
      let groups = group_by same_source (select q rows) in
      let labels = by_label groups in
      let order = sorted (larger (λ (b : Text × Volume). b.1.total)) labels in
      omega (
        arith,
        finish-sum rate 0 (limited limit order),
        limited-sum limit order,
        sum_by-sorted (larger (λ (b : Text × Volume). b.1.total)) (λ (b : Text × Volume). g b.1)
            labels,
        sum_by-tally (λ r. sender_label (r.source_host) (r.source_ip)) (λ r. no_volume) add_volume g
            (λ r. if c r then r.count else 0) (λ r. field.empty) (field.adds) groups [],
        volume-group_by same_source c (field.respects) (select q rows),
      )

-- The senders add up to the totals of the same query, in all three fields, whatever the limit: what
-- the limit cuts off stands under "Andere".
pub sender_breakdown-domain_totals :
    (rate : ℕ → ℕ → ℕ) (q : Query) (limit : ℕ) (rows : List Row)
    → (sum_by (λ s. s.volume.total) (sender_breakdown rate q limit rows)
        ≡ (domain_totals q rows).total)
      × (sum_by (λ s. s.volume.pass) (sender_breakdown rate q limit rows)
          ≡ (domain_totals q rows).pass_count)
      × (sum_by (λ s. s.volume.fail) (sender_breakdown rate q limit rows)
          ≡ (domain_totals q rows).fail_count)
unfolding add_volume sum_of
sender_breakdown-domain_totals rate q limit rows =
    let counts = domain_totals-Counts q rows in
    (
      breakdown-sum (λ v. v.total) any_row
            (record {
              empty = refl;
              adds = λ r v. refl;
              rest = λ bs. refl;
              respects = any_row-Respects same_source;
            })
            rate q limit rows
          ∙ sym (counts.total),
      breakdown-sum (λ v. v.pass) aligned
            (record {
              empty = refl;
              adds = λ r v. refl;
              rest = λ bs. refl;
              respects = same_source-aligned;
            })
            rate q limit rows
          ∙ sym (counts.pass_count),
      breakdown-sum (λ v. v.fail) not_aligned
            (record {
              empty = refl;
              adds = λ r v. ground arith;
              rest = λ bs. refl;
              respects = same_source-not_aligned;
            })
            rate q limit rows
          ∙ sym (counts.fail_count),
    )
