-- ===== src/Ingest/Effects.antt =====
-- What one `ingest_parsed` of app/ingest.py writes, on each of its branches.
use mathlib.Core.List.{map-append}
use dmarc_geeks.Common.{
  Bool, List, Option, Text, [], inl, inr, map, none, refl, some, ℕ, ◌++◌, ◌+◌, ◌∙◌, ◌∷◌, ◌≡◌, ◌≢◌,
  ◌⊎◌,
}
use dmarc_geeks.Parser.Report.{ParsedReport, ParsedRecord}
use dmarc_geeks.Ingest.{Domain, Report, imported, Db, Context, IngestResult, IngestLog}
use dmarc_geeks.Ingest.Routes.{Untouched, IsOwn, tables, route-Untouched, route-IsOwn}
use dmarc_geeks.Ingest.Store.{add_record, add_records, report_row}
use dmarc_geeks.Ingest.Import.{
  find_existing, Routed, route_to, no_route, route, import_routed, ingest_parsed,
}

module _ (reverse_lookup : Text → Option Text) (with_ptr : Bool) (report tenant : ℕ) where
  -- The loop over the records leaves the reports and the log alone.
  add_records-reports :
      (ps : List ParsedRecord) (db : Db)
      → (add_records reverse_lookup with_ptr report tenant ps db).reports ≡ db.reports
  unfolding add_records
  add_records-reports [] db = refl
  add_records-reports (p ∷ ps) db =
      add_records-reports ps (add_record reverse_lookup with_ptr report tenant p db)

  add_records-logs :
      (ps : List ParsedRecord) (db : Db)
      → (add_records reverse_lookup with_ptr report tenant ps db).logs ≡ db.logs
  unfolding add_records
  add_records-logs [] db = refl
  add_records-logs (p ∷ ps) db =
      add_records-logs ps (add_record reverse_lookup with_ptr report tenant p db)

  add_records-next_report :
      (ps : List ParsedRecord) (db : Db)
      → (add_records reverse_lookup with_ptr report tenant ps db).next_report ≡ db.next_report
  unfolding add_records
  add_records-next_report [] db = refl
  add_records-next_report (p ∷ ps) db =
      add_records-next_report ps (add_record reverse_lookup with_ptr report tenant p db)

-- What one call writes: a report is added exactly if the status is `imported`, for a domain of the
-- caller's tenant and under a key that no report had; and one log entry has the status.
pub record Writes (ctx : Context) (p : ParsedReport) (db : Db) (r : IngestResult × Db)
    : Type 0 where
  pub reports :
      ((r.0.status ≢ imported) × (r.1.reports ≡ db.reports) × (r.1.next_report ≡ db.next_report))
      ⊎ ((r.0.status ≡ imported)
          × (find_existing db p ≡ none)
          × ((d : Domain) × IsOwn ctx.tenant_id (route_to d db)
              × (r.1.reports ≡ db.reports ++ report_row db.next_report d p ∷ [])
              × (r.1.next_report ≡ db.next_report + 1)))
  pub logged : map (λ l. l.status) r.1.logs ≡ map (λ l. l.status) db.logs ++ r.0.status ∷ []

statuses-add :
    (ls : List IngestLog) (l : IngestLog)
    → map (λ l. l.status) (ls ++ l ∷ []) ≡ map (λ l. l.status) ls ++ l.status ∷ []
statuses-add ls l = map-append _ ls (l ∷ [])

module _ (make_token : ℕ → Text) (ctx : Context) (reverse_lookup : Text → Option Text) where
  import_routed-Writes :
      (p : ParsedReport) (db : Db) (r : Routed)
      → find_existing db p ≡ none
      → Untouched db (tables r)
      → IsOwn ctx.tenant_id r
      → Writes ctx p db (import_routed make_token ctx reverse_lookup p r)
  unfolding import_routed
  import_routed-Writes p db (no_route m db') new u own = record {
    reports = inl (λ e. cc, u.reports, u.next_report);
    logged = rw statuses-add (rw (u.logs) refl);
  }
  import_routed-Writes p db (route_to d db') new u own = record {
    reports = inr (
      refl,
      new,
      (
        d,
        own_of ctx.tenant_id own,
        add_records-reports reverse_lookup ctx.resolve_ptr db'.next_report d.tenant_id p.records _
            ∙ rw (u.reports, u.next_report) refl,
        add_records-next_report reverse_lookup ctx.resolve_ptr db'.next_report d.tenant_id p.records
              _
            ∙ rw (u.next_report) refl,
      ),
    );
    logged =
        rw
          (
            statuses-add,
            add_records-logs reverse_lookup ctx.resolve_ptr db'.next_report d.tenant_id p.records _,
          )
          (rw (u.logs) refl);
  }
    where
      own_of : (t : Option ℕ) → IsOwn t (route_to d db') → IsOwn t (route_to d db)
      own_of none h = tt
      own_of (some tenant) h = h

  -- Every call of `ingest_parsed` writes exactly one log entry, with the status that it returns;
  -- it adds a report exactly if that status is "ok", under a key that was not there, for a domain
  -- of the caller's tenant where one is named; and otherwise it leaves the reports as they are.
  pub ingest_parsed-Writes :
      (p : ParsedReport) (db : Db)
      → Writes ctx p db (ingest_parsed make_token ctx reverse_lookup p db)
  unfolding ingest_parsed
  ingest_parsed-Writes p db = by_key (find_existing db p) refl
    where
      by_key :
          (o : Option Report)
          → find_existing db p ≡ o
          → Writes ctx p db (ingest_parsed make_token ctx reverse_lookup p db)
      by_key none e =
          rw (e, ingest_parsed)
            (import_routed-Writes p db (route make_token ctx ctx.tenant_id ctx.reseller_id p db) e
              (route-Untouched make_token ctx ctx.tenant_id ctx.reseller_id p db)
              (route-IsOwn make_token ctx ctx.tenant_id ctx.reseller_id p db))
      by_key (some r) e =
          rw (e, ingest_parsed)
            (record { reports = inl (λ q. cc, refl, refl); logged = statuses-add db.logs _ })
