-- ===== src/MtScorer/Auth.antt =====
-- app/mt_scorer.py: the checks of SPF, DKIM and DMARC in `score_email`.
use dmarc_geeks.Common.{
  Bool, List, Option, Text, [], false, find, if◌then◌else◌, is_empty, lookup, lower, none, or_else,
  or_none, some, starts_with, text, ◌++◌, ◌==◌, ◌||◌, ◌∷◌, nat_eq, text_eq,
}
use dmarc_geeks.MtScorer.{pass, fail, warn, spf, dkim, dmarc, counted, full, CheckResult, World}
use dmarc_geeks.MtScorer.Scan.{after, span, is_letter, search_from}

-- `s.rsplit("@", 1)[1]`, or `none` where no `@` occurs.
unfoldable pub after_at : Text → Option Text
after_at [] = none
after_at (c ∷ s) = elim (after_at s) [ some d ↦ some d | none ↦ if c == b'@' then some s else none ]

unfoldable pub result_of : Text → List (Text × Text) → Text
result_of method ar = or_else (lookup method ar) []

unfoldable pub is_failure : Text → Bool
is_failure v =
    v == text "fail" || v == text "softfail" || v == text "permerror" || v == text "temperror"

unfoldable pub spf_check : List (Text × Text) → CheckResult
unfolding result_of is_failure
spf_check ar =
    let v = result_of (text "spf") ar in
    if v == text "pass"
    then counted spf pass full
    else if is_failure v
    then counted spf fail 0
    else counted spf warn 3000

-- The text is the DKIM-Signature header, empty where there is none.
unfoldable pub dkim_check : List (Text × Text) → Text → CheckResult
unfolding result_of is_failure
dkim_check ar signature =
    let v = result_of (text "dkim") ar in
    if v == text "pass"
    then counted dkim pass full
    else if is_failure v
    then counted dkim fail 0
    else if is_empty signature
    then counted dkim fail 0
    else counted dkim warn 5000

-- `_fetch_dmarc_record`.
unfoldable pub fetch_dmarc_record : World → Text → Option Text
fetch_dmarc_record w domain =
    find (λ t. starts_with (lower t) (text "v=dmarc1")) (w.txt (text "_dmarc." ++ domain))

-- `\bp=([a-z]+)` at a position.
policy_at : Bool → Text → Option Text
unfolding after span
policy_at prev s =
    if prev
    then none
    else elim (after (text "p=") s) [ none ↦ none | some rest ↦ or_none ((span is_letter rest).0) ]

-- `dmarc_policy` of a record.
unfoldable pub policy_of : Text → Option Text
unfolding policy_at search_from
policy_of record_text = elim (search_from false policy_at record_text) [
  | none ↦ none
  | some p ↦ some (lower p)
]

unfoldable pub dmarc_check : List (Text × Text) → Option Text → CheckResult
unfolding result_of is_failure policy_of
dmarc_check ar record_text =
    let v = result_of (text "dmarc") ar in
    if v == text "pass"
    then counted dmarc pass full
    else if is_failure v
    then counted dmarc fail 0
    else elim record_text [
      | none ↦ counted dmarc fail 0
      | some t ↦ elim (policy_of t) [
        | none ↦ counted dmarc warn 5000
        | some p ↦ if p == text "none" then counted dmarc warn 4000 else counted dmarc warn 5000
      ]
    ]
