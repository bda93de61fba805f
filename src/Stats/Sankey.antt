-- ===== src/Stats/Sankey.antt =====
-- app/stats.py: `sankey_data`, from the senders over the alignment to the disposition. `title` is
-- `str.title` of the disposition that the table of names has not.
pub mod Laws
use dmarc_geeks.Common.{
  Bool, List, Text, [], filter, if◌then◌else◌, ltb, map, mem, or_else, sorted, take, tally, text, ℕ,
  ◌&&◌, ◌++◌, ◌+◌, ◌==◌, nat_eq, text_eq, int_eq, option_eq, pair_eq,
}
use dmarc_geeks.Stats.{Row, Query, select, group_by, same_outcome, aligned}
use dmarc_geeks.Stats.Labels.{sender_label}
use dmarc_geeks.Stats.Senders.{larger}

unfoldable pub same_path : Row → Row → Bool
unfolding same_outcome
same_path a b = a.source_ip == b.source_ip && a.source_host == b.source_host && same_outcome a b

pub record Flow : Type 0 where
  pub from : Text
  pub to : Text
  pub flow : ℕ

label_of : Row → Text
unfolding sender_label
label_of r = sender_label (r.source_host) (r.source_ip)

-- The labels of the senders with the largest totals.
unfoldable pub top_labels : ℕ → List Row → List Text
unfolding tally label_of sorted
top_labels n rows =
    map (λ p. p.0)
      (take n (sorted (larger (λ p. p.1)) (tally label_of (λ r. 0) (λ r v. v + r.count) rows [])))

unfoldable pub alignment : Row → Text
unfolding aligned
alignment r = if aligned r then text "Aligned" else text "Not aligned"

sender_node : List Text → Row → Text
unfolding label_of mem
sender_node top r = if mem (label_of r) top then label_of r else text "Andere"

module _ (title : Text → Text) where
  disposition_node : Row → Text
  unfolding or_else
  disposition_node r =
      let d = or_else (r.disposition) (text "none") in
      if d == text "none"
      then text "Delivered"
      else if d == text "quarantine"
      then text "Quarantined"
      else if d == text "reject"
      then text "Rejected"
      else title d

  unfoldable pub flows_b : List Row → List ((Text × Text) × ℕ)
  unfolding tally alignment disposition_node
  flows_b rows =
      tally (λ r. (alignment r, disposition_node r)) (λ r. 0) (λ r v. v + r.count) rows []

unfoldable pub flows_a : List Text → List Row → List ((Text × Text) × ℕ)
unfolding tally alignment sender_node
flows_a top rows =
    tally (λ r. (sender_node top r, alignment r)) (λ r. 0) (λ r v. v + r.count) rows []

abbrev pub flow_of : (Text × Text) × ℕ → Flow
flow_of p = record { from = p.0.0; to = p.0.1; flow = p.1 }

-- The grouped rows with messages.
unfoldable pub sankey_rows : Query → List Row → List Row
unfolding select group_by same_path
sankey_rows q rows = filter (λ r. ltb 0 (r.count)) (group_by same_path (select q rows))

unfoldable pub sankey_data : (Text → Text) → Query → ℕ → List Row → List Flow
unfolding sankey_rows top_labels flows_a flows_b
sankey_data title q top_n rows =
    let sel = sankey_rows q rows in
    map flow_of (flows_a (top_labels top_n sel) sel) ++ map flow_of (flows_b title sel)
