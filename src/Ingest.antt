-- ===== src/Ingest.antt =====
-- app/ingest.py with the tables of app/models.py that it reads and writes. A session flushes each
-- report and record at once, so a later query of the same session sees them. Rows are in the order
-- of their insertion, and `.first()` is the first row of a query.
pub mod Store
pub mod Import
pub mod Routes
pub mod Effects
pub mod Dedup
pub mod Tenancy
pub mod Links
mod Tests
use dmarc_geeks.Common.{Bool, List, Option, Text, ℕ, ℤ}
use dmarc_geeks.Parser.Report.{AuthType, ParsedAuthResult, ParsedRecord, ParsedReport}
use dmarc_geeks.Parser.Payload.{Failure}

pub record Tenant : Type 0 where
  pub id : ℕ
  pub reseller_id : Option ℕ

pub record Domain : Type 0 where
  pub id : ℕ
  pub tenant_id : ℕ
  pub name : Text
  pub verification_token : Text

pub record Report : Type 0 where
  pub id : ℕ
  pub tenant_id : ℕ
  pub domain_id : ℕ
  pub org_name : Text
  pub org_email : Text
  pub org_extra_contact : Option Text
  pub external_report_id : Text
  pub date_begin : ℤ
  pub date_end : ℤ
  pub policy_domain : Text
  pub policy_adkim : Option Text
  pub policy_aspf : Option Text
  pub policy_p : Option Text
  pub policy_sp : Option Text
  pub policy_pct : Option ℤ
  pub policy_fo : Option Text
  pub raw_xml : Text

pub record Record : Type 0 where
  pub id : ℕ
  pub report_id : ℕ
  pub tenant_id : ℕ
  pub source_ip : Text
  pub source_host : Option Text
  pub count : ℤ
  pub disposition : Option Text
  pub dkim_eval : Option Text
  pub spf_eval : Option Text
  pub reason_type : Option Text
  pub reason_comment : Option Text
  pub header_from : Option Text
  pub envelope_from : Option Text
  pub envelope_to : Option Text

pub record AuthResult : Type 0 where
  pub record_id : ℕ
  pub auth_type : AuthType
  pub domain : Option Text
  pub selector : Option Text
  pub result : Option Text
  pub scope : Option Text

pub data Status : Type 0 where
  imported dup error ignored : Status

-- The message of a result, by its f-string.
pub data Message : Type 0 where
  already_imported : ℕ → Message
  reseller_unregistered : Text → ℕ → Message
  ambiguous : Text → ℕ → Message
  not_registered : Text → ℕ → Message
  records_imported : ℕ → Message
  unparsable : List Failure → Message

pub record IngestLog : Type 0 where
  pub tenant_id : Option ℕ
  pub source : Text
  pub filename : Option Text
  pub status : Status
  pub message : Message
  pub report_id : Option ℕ

-- A webhook that `emit` fires: tenant, report, number of records.
pub record Emitted : Type 0 where
  pub tenant_id : ℕ
  pub report_id : ℕ
  pub records : ℕ

-- The tables, the counters of their keys, and the webhooks that were fired.
pub record Db : Type 0 where
  pub tenants : List Tenant
  pub domains : List Domain
  pub reports : List Report
  pub records : List Record
  pub auth_results : List AuthResult
  pub logs : List IngestLog
  pub emitted : List Emitted
  pub next_domain : ℕ
  pub next_report : ℕ
  pub next_record : ℕ

pub record IngestResult : Type 0 where
  pub status : Status
  pub message : Message
  pub report_id : Option ℕ
  pub parsed : Option ParsedReport

-- What the caller fixes for one payload, and what the server's settings fix.
pub record Context : Type 0 where
  pub tenant_id : Option ℕ
  pub reseller_id : Option ℕ
  pub auto_create_domain : Bool
  pub source : Text
  pub filename : Option Text
  pub resolve_ptr : Bool
