-- ===== src/Parser/Tests.antt =====
-- Runs of app/parser.py on small documents.
use dmarc_geeks.Parser.Element.{int_at}
use dmarc_geeks.Common.{or_else}
use dmarc_geeks.Parser.Element.{findall_in}
use dmarc_geeks.Parser.Report.{in_datetime_range}
use dmarc_geeks.Common.{int_of}
use dmarc_geeks.Common.{strip}
use dmarc_geeks.Common.{or_none}
use dmarc_geeks.Parser.Element.{text_at}
use dmarc_geeks.Parser.Element.{find_in}
use dmarc_geeks.Common.{text_beq}
use dmarc_geeks.Common.{
  All, List, Text, [], ends_with, false, lower, map, none, refl, some, starts_with, text, true, ℤ,
  ◌||◌, ◌∷◌, ◌≡◌, pos,
}
use dmarc_geeks.Parser.Element.{Element, element, nil, cons}
use dmarc_geeks.Parser.Report.{
  ParsedReport, ParseError, Result, ok, parse_error, uncaught, parse_tree,
}
use dmarc_geeks.Parser.Report.Records.{IsComplete, parse_tree-IsComplete}
use dmarc_geeks.Parser.Report.Namespace.{qualify, parse_tree-qualify}
use dmarc_geeks.Parser.Payload.{
  other_error, not_a_zip, malformed, Codecs, Payload, Failure, extract_xml_payloads, parse_payload,
}
use dmarc_geeks.Parser.Payload.Laws.{IsMalformed, parse_payload_error, parse_payload_truncated}

abbrev leaf : Text → Text → Element
leaf t x = element t (some x) nil

abbrev pub root : Element
root = element (text "feedback") none (
    cons
      (element (text "report_metadata") none (
        cons (leaf (text "email") (text "r@example.org")) (
          cons
            (element (text "date_range") none (
              cons (leaf (text "begin") (text "100"))
                (cons (leaf (text "end") (text " 200 ")) nil)))
            nil)))
      (cons
        (element (text "policy_published") none
          (cons (leaf (text "domain") (text "example.com")) nil))
        (cons
          (element (text "record") none (
            cons
              (element (text "row") none (
                cons (leaf (text "source_ip") (text "192.0.2.1"))
                  (cons (leaf (text "count") (text "7")) nil)))
              nil))
          (cons (element (text "record") none nil) nil))))

abbrev counts_of : Result ParseError ParsedReport → List ℤ
counts_of (ok r) = map (λ p. p.count) (r.records)
counts_of _ = []

-- The record without a row is left out.
parse_run : counts_of (parse_tree [] root) ≡ pos 7 ∷ []
unfolding parse_tree text_beq ends_with find_in text_at or_none strip int_of in_datetime_range
    findall_in or_else int_at
parse_run = refl

abbrev value : Result ParseError ParsedReport → ParsedReport
value (ok r) = r
value _ = record {
  org_name = [];
  org_email = [];
  org_extra_contact = none;
  external_report_id = [];
  date_begin = pos 0;
  date_end = pos 0;
  policy_domain = [];
  policy_adkim = none;
  policy_aspf = none;
  policy_p = none;
  policy_sp = none;
  policy_pct = none;
  policy_fo = none;
  records = [];
  raw_xml = [];
}

parse_ok : parse_tree [] root ≡ ok (value (parse_tree [] root))
unfolding parse_tree text_beq ends_with find_in text_at or_none strip int_of in_datetime_range
parse_ok = refl

parse_tree-IsComplete_example : IsComplete [] (value (parse_tree [] root))
parse_tree-IsComplete_example = parse_tree-IsComplete [] root (value (parse_tree [] root)) parse_ok

parse_tree-qualify_example : parse_tree [] (qualify (text "urn:dmarc") root) ≡ parse_tree [] root
parse_tree-qualify_example = parse_tree-qualify (text "urn:dmarc") [] root refl refl

-- Codecs that refuse everything.
abbrev codecs : Codecs
codecs = record {
  from_string = λ s. malformed;
  decode = λ s. s;
  gunzip = λ s. other_error;
  unzip = λ s. not_a_zip;
}

abbrev junk : List Payload
junk = record { name = text "a.xml"; bytes = text "junk" } ∷ []

abbrev failures : Result (List Failure) (List ParsedReport) → List Failure
failures (parse_error fs) = fs
failures _ = []

extract_run : extract_xml_payloads codecs (text "a.xml") (text "junk") ≡ ok junk
unfolding extract_xml_payloads ends_with lower or_else
extract_run = refl

payload_run :
    parse_payload codecs (text "a.xml") (text "junk")
    ≡ parse_error (failures (parse_payload codecs (text "a.xml") (text "junk")))
unfolding parse_payload ends_with lower
payload_run = refl

parse_payload_error_example :
    All (IsMalformed codecs) junk
    × (map (λ f. f.name) (failures (parse_payload codecs (text "a.xml") (text "junk")))
        ≡ map (λ p. p.name) junk)
parse_payload_error_example =
    parse_payload_error codecs (text "a.xml") (text "junk") junk
      (failures (parse_payload codecs (text "a.xml") (text "junk"))) extract_run payload_run

no_zip_name :
    (ends_with (lower (text "a.gz")) (text ".zip") || starts_with (text "junk") (text "PK")) ≡ false
unfolding ends_with lower
no_zip_name = refl

gz_suffix :
    (ends_with (lower (text "a.gz")) (text ".gz") || starts_with (text "junk") (0x1f ∷ 0x8b ∷ []))
    ≡ true
unfolding ends_with lower
gz_suffix = refl

truncated_stream : parse_payload codecs (text "a.gz") (text "junk") ≡ uncaught
truncated_stream =
    parse_payload_truncated codecs (text "a.gz") (text "junk") no_zip_name gz_suffix refl
