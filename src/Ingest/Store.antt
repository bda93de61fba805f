-- ===== src/Ingest/Store.antt =====
-- The queries and the writes of app/ingest.py.
use dmarc_geeks.Common.{
  Bool, List, Option, Text, [], any, false, find, if◌then◌else◌, lower, map, none, some, strip, ℕ,
  ◌&&◌, ◌++◌, ◌+◌, ◌==◌, ◌∷◌, nat_eq, text_eq,
}
use dmarc_geeks.Parser.Report.{ParsedAuthResult, ParsedRecord, ParsedReport}
use dmarc_geeks.Ingest.{Tenant, Domain, Report, Record, AuthResult, Db}

-- `Domain.tenant_id.in_(sub)`: the tenant belongs to the reseller.
abbrev is_resellers : ℕ → Tenant → Bool
is_resellers reseller t = elim t.reseller_id [ none ↦ false | some r ↦ r == reseller ]

unfoldable pub belongs : Db → ℕ → ℕ → Bool
belongs db reseller tenant = any (λ t. t.id == tenant && is_resellers reseller t) db.tenants

-- The condition of the query of `_find_domain`.
unfoldable pub matches : Db → Option ℕ → Text → Option ℕ → Domain → Bool
unfolding belongs
matches db (some tenant) name reseller d = d.name == name && d.tenant_id == tenant
matches db none name (some reseller) d = d.name == name && belongs db reseller d.tenant_id
matches db none name none d = d.name == name

unfoldable pub find_domain : Db → Option ℕ → Text → Option ℕ → Option Domain
unfolding matches
find_domain db tenant policy_domain reseller =
    find (matches db tenant (lower policy_domain) reseller) db.domains

-- `token` is what `make_token` returns.
abbrev new_domain : Db → ℕ → Text → Text → Domain
new_domain db tenant name token = record {
  id = db.next_domain;
  tenant_id = tenant;
  name = name;
  verification_token = token;
}

unfoldable pub create_domain : Db → ℕ → Text → Text → Option Domain × Db
create_domain db tenant name token =
    let d = new_domain db tenant name token in
    (some d, record db { domains = db.domains ++ d ∷ []; next_domain = db.next_domain + 1 })

-- `_ensure_domain` after the normalisation of the name.
unfoldable pub ensure_named : Db → ℕ → Text → Bool → Text → Option Domain × Db
unfolding create_domain find_domain
ensure_named db tenant [] auto_create token = (none, db)
ensure_named db tenant (c ∷ name) auto_create token =
    elim (find_domain db (some tenant) (c ∷ name) none) [
      | some d ↦ (some d, db)
      | none ↦ if auto_create then create_domain db tenant (c ∷ name) token else (none, db)
    ]

unfoldable pub ensure_domain : Db → ℕ → Text → Bool → Text → Option Domain × Db
unfolding ensure_named
ensure_domain db tenant policy_domain auto_create token =
    ensure_named db tenant (strip (lower policy_domain)) auto_create token

abbrev pub report_row : ℕ → Domain → ParsedReport → Report
report_row id d p = record {
  id = id;
  tenant_id = d.tenant_id;
  domain_id = d.id;
  org_name = p.org_name;
  org_email = p.org_email;
  org_extra_contact = p.org_extra_contact;
  external_report_id = p.external_report_id;
  date_begin = p.date_begin;
  date_end = p.date_end;
  policy_domain = p.policy_domain;
  policy_adkim = p.policy_adkim;
  policy_aspf = p.policy_aspf;
  policy_p = p.policy_p;
  policy_sp = p.policy_sp;
  policy_pct = p.policy_pct;
  policy_fo = p.policy_fo;
  raw_xml = p.raw_xml;
}

abbrev auth_row : ℕ → ParsedAuthResult → AuthResult
auth_row record_id a = record {
  record_id = record_id;
  auth_type = a.auth_type;
  domain = a.domain;
  selector = a.selector;
  result = a.result;
  scope = a.scope;
}

-- `reverse_lookup` of app/dns_utils.py is a parameter: it asks the DNS.
module _ (reverse_lookup : Text → Option Text) (with_ptr : Bool) where
  abbrev pub record_row : ℕ → ℕ → ℕ → ParsedRecord → Record
  record_row id report tenant p = record {
    id = id;
    report_id = report;
    tenant_id = tenant;
    source_ip = p.source_ip;
    source_host = if with_ptr then reverse_lookup p.source_ip else none;
    count = p.count;
    disposition = p.disposition;
    dkim_eval = p.dkim_eval;
    spf_eval = p.spf_eval;
    reason_type = p.reason_type;
    reason_comment = p.reason_comment;
    header_from = p.header_from;
    envelope_from = p.envelope_from;
    envelope_to = p.envelope_to;
  }

  unfoldable pub add_record : ℕ → ℕ → ParsedRecord → Db → Db
  add_record report tenant p db = record db {
    records = db.records ++ record_row db.next_record report tenant p ∷ [];
    auth_results = db.auth_results ++ map (auth_row db.next_record) p.auth_results;
    next_record = db.next_record + 1;
  }

  -- The loop of `_persist` over the records.
  unfoldable pub add_records : ℕ → ℕ → List ParsedRecord → Db → Db
  unfolding add_record
  add_records report tenant [] db = db
  add_records report tenant (p ∷ ps) db =
      add_records report tenant ps (add_record report tenant p db)

  unfoldable pub persist : Domain → ParsedReport → Db → Report × Db
  unfolding add_records
  persist d parsed db =
      let report = report_row db.next_report d parsed in
      (
        report,
        add_records report.id d.tenant_id parsed.records
            (record db { reports = db.reports ++ report ∷ []; next_report = db.next_report + 1 }),
      )
