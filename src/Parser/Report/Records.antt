-- ===== src/Parser/Report/Records.antt =====
-- What the fields of a report that app/parser.py returns hold.
use dmarc_geeks.Common.{
  All, Bool-cases, List, Option, Text, [], ap, arith, inl, inr, none, or_else-ne-nil, refl, some,
  text, true, ℤ, ◌++◌, ◌==◌, ◌∷◌, ◌≡◌, ◌≢◌, nat_eq, text_eq,
}
use dmarc_geeks.Parser.Element.{Element, tag, find_child, text_at}
use dmarc_geeks.Parser.Report.{
  ParsedRecord, ParsedReport, ParseError, Result, ok, parse_error, uncaught, ◌>>=◌, epoch_to_dt,
  in_datetime_range, parse_record, parse_records, report_of, with_dates, with_sections, parse_tree,
  subst_ok, normalized,
}

-- The fields by which a report is stored and deduplicated are not empty, its dates are datetimes,
-- and each of its records names a source.
pub record IsComplete (raw : Text) (r : ParsedReport) : Type 0 where
  pub named : r.org_name ≢ []
  pub mailed : r.org_email ≢ []
  pub identified : r.external_report_id ≢ []
  pub begins : in_datetime_range r.date_begin ≡ true
  pub ends : in_datetime_range r.date_end ≡ true
  pub sourced : All (λ p. p.source_ip ≢ []) r.records
  pub kept : r.raw_xml ≡ raw

parse_record-source :
    (rec : Element) (p : ParsedRecord) → parse_record rec ≡ some p → p.source_ip ≢ []
unfolding parse_record
parse_record-source rec p h = ground arith

parse_records-source : (recs : List Element) → All (λ p. p.source_ip ≢ []) (parse_records recs)
unfolding parse_records
parse_records-source [] = tt
parse_records-source (rec ∷ recs) = by_record (parse_record rec) refl (parse_records-source recs)
  where
    by_record :
        (o : Option ParsedRecord)
        → parse_record rec ≡ o
        → All (λ p. p.source_ip ≢ []) (parse_records recs)
        → All (λ p. p.source_ip ≢ []) (parse_records (rec ∷ recs))
    by_record none e rest = rw (e, parse_records) rest
    by_record (some p) e rest = rw (e, parse_records) (parse_record-source rec p e, rest)

append-ne-nil : (s t : Text) → s ≢ [] → s ++ t ≢ []
append-ne-nil [] t h = absurd (h refl)
append-ne-nil (c ∷ s) t h = ground arith

report_of-IsComplete :
    (root meta policy : Element) (begin end : ℤ) (raw : Text)
    → in_datetime_range begin ≡ true
    → in_datetime_range end ≡ true
    → IsComplete raw (report_of root meta policy begin end raw)
unfolding report_of
report_of-IsComplete root meta policy begin end raw b e = record {
  named = or_else-ne-nil _ (text "unknown") (ground arith);
  mailed = or_else-ne-nil _ (text "unknown@unknown") (ground arith);
  identified =
      or_else-ne-nil _ _
        (append-ne-nil _ _ (or_else-ne-nil _ (text "unknown@unknown") (ground arith)));
  begins = b;
  ends = e;
  sourced = parse_records-source _;
  kept = refl;
}

epoch_to_dt-in_range :
    (o : Option Text) (ts : ℤ) → epoch_to_dt o ≡ ok (some ts) → in_datetime_range ts ≡ true
unfolding epoch_to_dt
epoch_to_dt-in_range none ts h = cc
epoch_to_dt-in_range (some t) ts h = ground arith

with_dates-IsComplete :
    (root meta policy : Element) (raw : Text) (b e : Option ℤ) (r : ParsedReport)
    → ((ts : ℤ) → b ≡ some ts → in_datetime_range ts ≡ true)
    → ((ts : ℤ) → e ≡ some ts → in_datetime_range ts ≡ true)
    → with_dates root meta policy raw b e ≡ ok r
    → IsComplete raw r
unfolding with_dates
with_dates-IsComplete root meta policy raw (some b) (some e) r hb he h =
    subst_ok (IsComplete raw) _ r h
      (report_of-IsComplete root meta policy b e raw (hb b refl) (he e refl))
with_dates-IsComplete root meta policy raw none _ r hb he h = cc
with_dates-IsComplete root meta policy raw (some b) none r hb he h = cc

dated-IsComplete :
    (root meta policy : Element) (raw : Text) (b e : Result ParseError (Option ℤ))
    (r : ParsedReport)
    → ((ts : ℤ) → b ≡ ok (some ts) → in_datetime_range ts ≡ true)
    → ((ts : ℤ) → e ≡ ok (some ts) → in_datetime_range ts ≡ true)
    → (b >>= λ x. e >>= λ y. with_dates root meta policy raw x y) ≡ ok r
    → IsComplete raw r
dated-IsComplete root meta policy raw (ok b) (ok e) r hb he h =
    with_dates-IsComplete root meta policy raw b e r (λ ts q. hb ts (ap ok q))
      (λ ts q. he ts (ap ok q)) h
dated-IsComplete root meta policy raw (ok b) (parse_error x) r hb he h = cc
dated-IsComplete root meta policy raw (ok b) uncaught r hb he h = cc
dated-IsComplete root meta policy raw (parse_error x) e r hb he h = cc
dated-IsComplete root meta policy raw uncaught e r hb he h = cc

with_sections-IsComplete :
    (root : Element) (raw : Text) (m p : Option Element) (r : ParsedReport)
    → with_sections root raw m p ≡ ok r
    → IsComplete raw r
unfolding with_sections
with_sections-IsComplete root raw none _ r h = cc
with_sections-IsComplete root raw (some meta) none r h = cc
with_sections-IsComplete root raw (some meta) (some policy) r h =
    let range = find_child meta (text "date_range") in
    dated-IsComplete root meta policy raw (epoch_to_dt (text_at range (text "begin")))
      (epoch_to_dt (text_at range (text "end"))) r (epoch_to_dt-in_range _) (epoch_to_dt-in_range _)
      h

-- A report that is parsed without an error is complete: organisation, email and report id are not
-- empty, both dates are within the range of `datetime`, every record has a source ip, and the raw
-- text is kept.
pub parse_tree-IsComplete :
    (raw : Text) (tree : Element) (r : ParsedReport) → parse_tree raw tree ≡ ok r → IsComplete raw r
unfolding parse_tree
parse_tree-IsComplete raw tree r h = elim (Bool-cases (tag (normalized tree) == text "feedback")) [
  | inl feedback ↦
      with_sections-IsComplete (normalized tree) raw
        (find_child (normalized tree) (text "report_metadata"))
        (find_child (normalized tree) (text "policy_published")) r (rw feedback at h)
  | inr other ↦ absurd (cc (rw other at h))
]
