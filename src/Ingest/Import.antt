-- ===== src/Ingest/Import.antt =====
-- `ingest_parsed` and `ingest_payload` of app/ingest.py. The spike alert that follows an import
-- reads the tables and sends a mail; it changes no table, its exceptions are dropped, and it is
-- left out.
use dmarc_geeks.Common.{
  Bool, List, Option, Text, [], filter, find, length, lower, none, some, ℕ, ◌&&◌, ◌++◌, ◌==◌, ◌∷◌,
  nat_eq, text_eq,
}
use dmarc_geeks.Parser.Report.{ParsedReport, ok, parse_error, uncaught}
use dmarc_geeks.Parser.Payload.{Codecs, parse_payload}
use dmarc_geeks.Ingest.{
  Domain, Report, Status, imported, dup, error, ignored, Message, already_imported,
  reseller_unregistered, ambiguous, not_registered, records_imported, unparsable, Db, IngestResult,
  Context,
}
use dmarc_geeks.Ingest.Store.{find_domain, ensure_domain, persist}

-- The key of the duplicate check.
unfoldable pub same_key : ParsedReport → Report → Bool
same_key p r = r.org_email == p.org_email && r.external_report_id == p.external_report_id

unfoldable pub find_existing : Db → ParsedReport → Option Report
unfolding same_key
find_existing db p = find (same_key p) db.reports

-- The domain that a report goes to, with the tables after a creation, or why there is none.
pub data Routed : Type 0 where
  route_to : Domain → Db → Routed
  no_route : Message → Db → Routed

abbrev pub or_message : Message → Option Domain → Db → Routed
or_message m none db = no_route m db
or_message m (some d) db = route_to d db

-- The only domain of that name, across the tenants.
unfoldable pub single : Text → List Domain → Db → Routed
single name (d ∷ []) db = route_to d db
single name ds db = no_route (ambiguous name (length ds)) db

module _ (make_token : ℕ → Text) (ctx : Context) where
  unfoldable pub route : Option ℕ → Option ℕ → ParsedReport → Db → Routed
  unfolding single find_domain
  route none (some reseller) p db =
      or_message (reseller_unregistered p.policy_domain reseller)
        (find_domain db none p.policy_domain (some reseller)) db
  route none none p db =
      single p.policy_domain (filter (λ d. d.name == lower p.policy_domain) db.domains) db
  route (some tenant) reseller p db =
      let (d, db') =
        ensure_domain db tenant p.policy_domain ctx.auto_create_domain
          (make_token db.next_domain) in
      or_message (not_registered p.policy_domain tenant) d db'

  add_log : Option ℕ → Status → Message → Option ℕ → Db → Db
  add_log tenant status message report db = record db {
    logs =
        db.logs
        ++ record {
          tenant_id = tenant;
          source = ctx.source;
          filename = ctx.filename;
          status = status;
          message = message;
          report_id = report;
        }
          ∷ [];
  }

  abbrev result_of : Status → Message → Option ℕ → Option ParsedReport → IngestResult
  result_of status message report p = record {
    status = status;
    message = message;
    report_id = report;
    parsed = p;
  }

  module _ (reverse_lookup : Text → Option Text) where
    emit : ℕ → ℕ → ParsedReport → Db → Db
    emit tenant report p db = record db {
      emitted =
          db.emitted
          ++ record { tenant_id = tenant; report_id = report; records = length p.records } ∷ [];
    }

    -- The import into a chosen domain.
    unfoldable pub import_into : Domain → ParsedReport → Db → IngestResult × Db
    unfolding persist add_log emit
    import_into d p db =
        let (report, db') = persist reverse_lookup ctx.resolve_ptr d p db in
        let message = records_imported (length p.records) in
        (
          result_of imported message (some report.id) (some p),
          emit d.tenant_id report.id p
              (add_log (some d.tenant_id) imported message (some report.id) db'),
        )

    unfoldable pub import_routed : ParsedReport → Routed → IngestResult × Db
    unfolding import_into add_log
    import_routed p (route_to d db) = import_into d p db
    import_routed p (no_route m db) =
        (result_of ignored m none (some p), add_log ctx.tenant_id ignored m none db)

    -- `ingest_parsed`
    unfoldable pub ingest_parsed : ParsedReport → Db → IngestResult × Db
    unfolding import_routed add_log
    ingest_parsed p db = elim (find_existing db p) [
      | some existing ↦ (
        result_of dup (already_imported existing.id) (some existing.id) (some p),
        add_log ctx.tenant_id dup (already_imported existing.id) (some existing.id) db,
      )
      | none ↦ import_routed p (route ctx.tenant_id ctx.reseller_id p db)
    ]

    unfoldable pub ingest_all : List ParsedReport → Db → List IngestResult × Db
    unfolding ingest_parsed
    ingest_all [] db = ([], db)
    ingest_all (p ∷ ps) db =
        let (r, db') = ingest_parsed p db in let (rs, db'') = ingest_all ps db' in (r ∷ rs, db'')

    -- `ingest_payload`: `none` where an exception leaves it.
    unfoldable pub ingest_payload : Codecs → Text → Text → Db → Option (List IngestResult × Db)
    unfolding ingest_all add_log
    ingest_payload codecs filename bytes db = elim (parse_payload codecs filename bytes) [
      | ok ps ↦ some (ingest_all ps db)
      | parse_error fs ↦ some (
        result_of error (unparsable fs) none none ∷ [],
        add_log ctx.tenant_id error (unparsable fs) none db,
      )
      | uncaught ↦ none
    ]
