-- ===== src/Ingest/Tests.antt =====
-- Runs of app/ingest.py.
use dmarc_geeks.Parser.Element.{findall_in}
use dmarc_geeks.Parser.Report.{in_datetime_range}
use dmarc_geeks.Common.{int_of}
use dmarc_geeks.Common.{or_none}
use dmarc_geeks.Parser.Report.{parse_tree}
use dmarc_geeks.Common.{ends_with, length}
use dmarc_geeks.Parser.Payload.{parse_payload, tree}
use dmarc_geeks.Parser.Element.{find_in, cons}
use dmarc_geeks.Common.{or_else}
use dmarc_geeks.Common.{text_beq}
use dmarc_geeks.Common.{lower}
use dmarc_geeks.Common.{strip}
use dmarc_geeks.Ingest.Store.{ensure_domain}
use dmarc_geeks.Ingest.Import.{route}
use dmarc_geeks.Ingest.Import.{find_existing}
use dmarc_geeks.Common.{List, Option, Text, [], none, refl, some, text, true, ℕ, ◌∷◌, ◌≡◌, pos}
use dmarc_geeks.Parser.Element.{Element, element, nil, text_at}
use dmarc_geeks.Parser.Report.{ParsedReport, report_of}
use dmarc_geeks.Parser.Payload.{os_error, not_a_zip, Codecs}
use dmarc_geeks.Ingest.{Domain, imported, dup, Db, IngestResult, Context}
use dmarc_geeks.Ingest.Import.{ingest_parsed, ingest_all, ingest_payload}
use dmarc_geeks.Ingest.Effects.{Writes, ingest_parsed-Writes}
use dmarc_geeks.Ingest.Dedup.{
  is_unique, ingest_payload-is_unique, ingest_parsed_again, missing_id_collision,
}
use dmarc_geeks.Ingest.Tenancy.{OnlyAdds, ingest_all-OnlyAdds}
use dmarc_geeks.Ingest.Links.{Links, ingest_parsed-Links}

abbrev token : ℕ → Text
token n = text "token"

abbrev no_ptr : Text → Option Text
no_ptr ip = none

abbrev meta : Element
meta = element (text "report_metadata") none nil

abbrev root : Element
root = element (text "feedback") none nil

abbrev policy : Element
policy = element (text "policy_published") none nil

abbrev report : ParsedReport
report = report_of root meta policy (pos 100) (pos 200) []

abbrev named : ParsedReport
named = record report { policy_domain = text "Example.com" }

abbrev ctx : Context
ctx = record {
  tenant_id = some 7;
  reseller_id = none;
  auto_create_domain = true;
  source = text "upload";
  filename = none;
  resolve_ptr = true;
}

-- The report of an empty document has no domain, so it is routed to the domain with no name.
abbrev any_ctx : Context
any_ctx = record ctx { tenant_id = none }

abbrev unnamed : Domain
unnamed = record { id = 1; tenant_id = 7; name = []; verification_token = [] }

abbrev db : Db
db = record {
  tenants = [];
  domains = unnamed ∷ [];
  reports = [];
  records = [];
  auth_results = [];
  logs = [];
  emitted = [];
  next_domain = 2;
  next_report = 1;
  next_record = 1;
}

abbrev leaf : Text → Text → Element
leaf t x = element t (some x) nil

abbrev document : Element
document = element (text "feedback") none (
    cons
      (element (text "report_metadata") none (
        cons
          (element (text "date_range") none
            (cons (leaf (text "begin") (text "100")) (cons (leaf (text "end") (text "200")) nil)))
          nil))
      (cons (element (text "policy_published") none nil) nil))

-- Every payload is that document.
abbrev codecs : Codecs
codecs = record {
  from_string = λ s. tree document;
  decode = λ s. s;
  gunzip = λ s. os_error;
  unzip = λ s. not_a_zip;
}

named_imported : (ingest_parsed token ctx no_ptr named db).0.status ≡ imported
unfolding ingest_parsed find_existing route ensure_domain strip lower text_beq
named_imported = refl

report_imported : (ingest_parsed token any_ctx no_ptr report db).0.status ≡ imported
unfolding ingest_parsed find_existing route text_beq lower report_of or_else text_at find_in
report_imported = refl

ingest_parsed-Writes_example : Writes ctx named db (ingest_parsed token ctx no_ptr named db)
ingest_parsed-Writes_example = ingest_parsed-Writes token ctx no_ptr named db

ingest_parsed-Links_example : Links named db (ingest_parsed token ctx no_ptr named db)
ingest_parsed-Links_example = ingest_parsed-Links token ctx no_ptr named db

ingest_all-OnlyAdds_example :
    OnlyAdds 7 db.reports (ingest_all token ctx no_ptr (named ∷ report ∷ []) db).1.reports
ingest_all-OnlyAdds_example = ingest_all-OnlyAdds token no_ptr ctx 7 (named ∷ report ∷ []) db refl

abbrev outcome : Option (List IngestResult × Db) → List IngestResult × Db
outcome none = ([], db)
outcome (some r) = r

abbrev run : Option (List IngestResult × Db)
run = ingest_payload token any_ctx no_ptr codecs (text "a.xml") (text "junk") db

payload_run : run ≡ some ((outcome run).0, (outcome run).1)
unfolding ingest_payload parse_payload ends_with lower parse_tree text_beq find_in text_at or_none
    strip int_of in_datetime_range
payload_run = refl

one_report : length ((outcome run).1.reports) ≡ 1
unfolding ingest_payload parse_payload ends_with lower parse_tree text_beq find_in text_at or_none
    strip int_of in_datetime_range find_existing route or_else findall_in
one_report = refl

ingest_payload-is_unique_example : is_unique ((outcome run).1.reports) ≡ true
ingest_payload-is_unique_example =
    ingest_payload-is_unique token no_ptr any_ctx codecs (text "a.xml") (text "junk") db
      ((outcome run).1) ((outcome run).0) refl payload_run

ingest_parsed_again_example :
    let db' = (ingest_parsed token ctx no_ptr named db).1 in
    let r = ingest_parsed token any_ctx no_ptr named db' in
    (r.0.status ≡ dup) × (r.0.report_id ≡ some db.next_report) × (r.1.reports ≡ db'.reports)
ingest_parsed_again_example =
    ingest_parsed_again token no_ptr ctx any_ctx named named db refl refl named_imported

no_id : text_at (some meta) (text "report_id") ≡ none
unfolding text_at find_in
no_id = refl

missing_id_collision_example :
    (ingest_parsed token ctx no_ptr
      (report_of root meta policy (pos 100) (pos 300) [])
      (ingest_parsed token any_ctx no_ptr report db).1).0.status
    ≡ dup
missing_id_collision_example =
    missing_id_collision token no_ptr any_ctx ctx root meta policy root meta policy (pos 100)
      (pos 200) (pos 300) [] [] db no_id no_id refl report_imported
