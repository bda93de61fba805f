-- ===== src/Parser/Report.antt =====
-- `parse_xml` of app/parser.py on a parsed tree. A datetime is its seconds since the epoch.
pub mod Records
pub mod Namespace
use mathlib.Core.Path.{subst}
use dmarc_geeks.Common.{
  Bool, List, Option, Text, [], ap, ends_with, if◌then◌else◌, int_of, is_empty, lebℤ, map, negate,
  none, or_else, showℤ, some, text, ℤ, ◌&&◌, ◌++◌, ◌==◌, ◌∷◌, ◌≡◌, nat_eq, text_eq, pos,
}
use dmarc_geeks.Parser.Element.{
  Element, tag, find_child, find_opt, findall_in, children, text_at, int_at, strip_namespace,
}

pub data AuthType : Type 0 where
  dkim spf : AuthType

pub record ParsedAuthResult : Type 0 where
  pub auth_type : AuthType
  pub domain : Option Text
  pub selector : Option Text
  pub result : Option Text
  pub scope : Option Text

pub record ParsedRecord : Type 0 where
  pub source_ip : Text
  pub count : ℤ
  pub disposition : Option Text
  pub dkim_eval : Option Text
  pub spf_eval : Option Text
  pub reason_type : Option Text
  pub reason_comment : Option Text
  pub header_from : Option Text
  pub envelope_from : Option Text
  pub envelope_to : Option Text
  pub auth_results : List ParsedAuthResult

pub record ParsedReport : Type 0 where
  pub org_name : Text
  pub org_email : Text
  pub org_extra_contact : Option Text
  pub external_report_id : Text
  pub date_begin : ℤ
  pub date_end : ℤ
  pub policy_domain : Text
  pub policy_adkim : Option Text
  pub policy_aspf : Option Text
  pub policy_p : Option Text
  pub policy_sp : Option Text
  pub policy_pct : Option ℤ
  pub policy_fo : Option Text
  pub records : List ParsedRecord
  pub raw_xml : Text

-- The reasons of a `DmarcParseError`.
pub data ParseError : Type 0 where
  invalid_xml : ParseError
  unexpected_root : Text → ParseError
  missing_sections : ParseError
  missing_date_range : ParseError

-- A value, a `DmarcParseError` of the given kind, or another exception.
pub data Result {ℓ} (E A : Type ℓ) : Type ℓ where
  ok : A → Result E A
  parse_error : E → Result E A
  uncaught : Result E A

infixl 5 ◌>>=◌
abbrev pub ◌>>=◌ {ℓ} : {E A B : Type ℓ} → Result E A → (A → Result E B) → Result E B
ok a >>= f = f a
parse_error e >>= f = parse_error e
uncaught >>= f = uncaught

value_or {ℓ} : {E A : Type ℓ} → A → Result E A → A
value_or a (ok x) = x
value_or a (parse_error e) = a
value_or a uncaught = a

-- What holds of a value holds of the value of an equal `ok`.
pub subst_ok {ℓ κ} :
    {E A : Type ℓ} (P : A → Type κ) (a b : A) → ◌≡◌ {A = Result E A} (ok a) (ok b) → P a → P b
unfolding value_or
subst_ok P a b e h = subst P (ap (value_or a) e) h

-- The range of `datetime`, the years 1 to 9999; outside `fromtimestamp` raises ValueError.
unfoldable pub in_datetime_range : ℤ → Bool
in_datetime_range ts = lebℤ (negate 62135596800) ts && lebℤ ts (pos 253402300799)

-- `_epoch_to_dt`: `ok none` where the text is missing or no number.
unfoldable pub epoch_to_dt : Option Text → Result ParseError (Option ℤ)
epoch_to_dt none = ok none
epoch_to_dt (some t) = elim (int_of t) [
  | none ↦ ok none
  | some ts ↦ if in_datetime_range ts then ok (some ts) else uncaught
]

unfoldable pub auth_result : AuthType → Element → ParsedAuthResult
auth_result dkim e = record {
  auth_type = dkim;
  domain = text_at (some e) (text "domain");
  selector = text_at (some e) (text "selector");
  result = text_at (some e) (text "result");
  scope = none;
}
auth_result spf e = record {
  auth_type = spf;
  domain = text_at (some e) (text "domain");
  selector = none;
  result = text_at (some e) (text "result");
  scope = text_at (some e) (text "scope");
}

unfoldable pub auth_results_of : Option Element → List ParsedAuthResult
unfolding auth_result
auth_results_of none = []
auth_results_of (some auth) =
    map (auth_result dkim) (findall_in (text "dkim") (children auth))
    ++ map (auth_result spf) (findall_in (text "spf") (children auth))

unfoldable pub int_or_zero : Option ℤ → ℤ
int_or_zero none = pos 0
int_or_zero (some n) = n

unfoldable pub record_of : Element → Element → ParsedRecord
unfolding auth_results_of int_or_zero
record_of rec row =
    let identifiers = find_child rec (text "identifiers") in
    let policy_eval = find_child row (text "policy_evaluated") in
    let reason = find_opt policy_eval (text "reason") in
    record {
      source_ip = or_else (text_at (some row) (text "source_ip")) [];
      count = int_or_zero (int_at (some row) (text "count"));
      disposition = text_at policy_eval (text "disposition");
      dkim_eval = text_at policy_eval (text "dkim");
      spf_eval = text_at policy_eval (text "spf");
      reason_type = text_at reason (text "type");
      reason_comment = text_at reason (text "comment");
      header_from = text_at identifiers (text "header_from");
      envelope_from = text_at identifiers (text "envelope_from");
      envelope_to = text_at identifiers (text "envelope_to");
      auth_results = auth_results_of (find_child rec (text "auth_results"));
    }

-- `none` where the loop continues: no row, or no source ip.
unfoldable pub parse_record : Element → Option ParsedRecord
unfolding record_of
parse_record rec = elim (find_child rec (text "row")) [
  | none ↦ none
  | some row ↦ let pr = record_of rec row in if is_empty pr.source_ip then none else some pr
]

unfoldable pub parse_records : List Element → List ParsedRecord
unfolding parse_record
parse_records [] = []
parse_records (rec ∷ recs) =
    let rest = parse_records recs in elim (parse_record rec) [ none ↦ rest | some pr ↦ pr ∷ rest ]

unfoldable pub report_of : Element → Element → Element → ℤ → ℤ → Text → ParsedReport
unfolding parse_records
report_of root meta policy begin end raw =
    let org_email = or_else (text_at (some meta) (text "email")) (text "unknown@unknown") in
    record {
      org_name = or_else (text_at (some meta) (text "org_name")) (text "unknown");
      org_email = org_email;
      org_extra_contact = text_at (some meta) (text "extra_contact_info");
      external_report_id =
          or_else (text_at (some meta) (text "report_id")) (org_email ++ (text "-" ++ showℤ begin));
      date_begin = begin;
      date_end = end;
      policy_domain = or_else (text_at (some policy) (text "domain")) [];
      policy_adkim = text_at (some policy) (text "adkim");
      policy_aspf = text_at (some policy) (text "aspf");
      policy_p = text_at (some policy) (text "p");
      policy_sp = text_at (some policy) (text "sp");
      policy_pct = int_at (some policy) (text "pct");
      policy_fo = text_at (some policy) (text "fo");
      records = parse_records (findall_in (text "record") (children root));
      raw_xml = raw;
    }

-- Both ends of the date range have to be there.
unfoldable pub with_dates :
    Element → Element → Element → Text → Option ℤ → Option ℤ → Result ParseError ParsedReport
unfolding report_of
with_dates root meta policy raw (some begin) (some end) =
    ok (report_of root meta policy begin end raw)
with_dates root meta policy raw _ _ = parse_error missing_date_range

unfoldable pub with_sections :
    Element → Text → Option Element → Option Element → Result ParseError ParsedReport
unfolding with_dates epoch_to_dt
with_sections root raw (some meta) (some policy) = do
  let date_range = find_child meta (text "date_range")
  begin ← epoch_to_dt (text_at date_range (text "begin"))
  end ← epoch_to_dt (text_at date_range (text "end"))
  with_dates root meta policy raw begin end
with_sections root raw _ _ = parse_error missing_sections

unfoldable pub normalized : Element → Element
unfolding strip_namespace
normalized root = if ends_with (tag root) (text "}feedback") then strip_namespace root else root

-- `parse_xml` after `ET.fromstring`; `raw` is the decoded payload.
unfoldable pub parse_tree : Text → Element → Result ParseError ParsedReport
unfolding with_sections normalized
parse_tree raw tree =
    let root = normalized tree in
    if tag root == text "feedback"
    then with_sections root raw (find_child root (text "report_metadata"))
        (find_child root (text "policy_published"))
    else parse_error (unexpected_root (tag root))
