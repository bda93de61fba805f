-- ===== src/Ingest/Links.antt =====
-- The rows that app/ingest.py stores for the records of a report.
use mathlib.Core.List.{append-nil, append_assoc}
use dmarc_geeks.Common.{
  All, Bool, List, Option, Text, [], ap, inl, inr, map, none, refl, some, sym, ℕ, ◌++◌, ◌+◌, ◌∙◌,
  ◌∷◌, ◌≡◌, ◌≢◌, ◌⊎◌,
}
use dmarc_geeks.Parser.Report.{ParsedRecord, ParsedReport}
use dmarc_geeks.Ingest.{Report, Record, imported, Db, Context, IngestResult}
use dmarc_geeks.Ingest.Store.{record_row, add_record, add_records, report_row}
use dmarc_geeks.Ingest.Import.{
  find_existing, Routed, route_to, no_route, route, import_routed, ingest_parsed,
}
use dmarc_geeks.Ingest.Routes.{Untouched, tables, route-Untouched}

-- One row for each of the parsed records, in order, for the given report and tenant.
abbrev pub IsRows : ℕ → ℕ → List ParsedRecord → List Record → Type 0
IsRows report tenant ps rows =
    (map (λ r. r.source_ip) rows ≡ map (λ p. p.source_ip) ps)
    × (map (λ r. r.count) rows ≡ map (λ p. p.count) ps)
    × All (λ r. (r.report_id ≡ report) × (r.tenant_id ≡ tenant)) rows

module _ (reverse_lookup : Text → Option Text) (with_ptr : Bool) (report tenant : ℕ) where
  add_records-IsRows :
      (ps : List ParsedRecord) (db : Db)
      → (rows : List Record) × ((add_records reverse_lookup with_ptr report tenant ps db).records
          ≡ db.records ++ rows)
        × IsRows report tenant ps rows
  unfolding add_records
  add_records-IsRows [] db = ([], sym (append-nil db.records), (refl, refl, tt))
  add_records-IsRows (p ∷ ps) db =
      let (rows, same, (ips, counts, linked)) =
        add_records-IsRows ps (add_record reverse_lookup with_ptr report tenant p db) in
      let row = record_row reverse_lookup with_ptr db.next_record report tenant p in
      (
        row ∷ rows,
        same ∙ append_assoc db.records (row ∷ []) rows,
        (ap (λ l. p.source_ip ∷ l) ips, ap (λ l. p.count ∷ l) counts, ((refl, refl), linked)),
      )

abbrev pub Links : ParsedReport → Db → IngestResult × Db → Type 0
Links p db r =
    ((r.0.status ≢ imported) × (r.1.records ≡ db.records))
    ⊎ ((r.0.status ≡ imported)
        × ((tenant : ℕ) × (rows : List Record) × (r.1.records ≡ db.records ++ rows)
            × IsRows db.next_report tenant p.records rows))

module _ (make_token : ℕ → Text) (ctx : Context) (reverse_lookup : Text → Option Text) where
  import_routed-Links :
      (p : ParsedReport) (db : Db) (r : Routed)
      → Untouched db (tables r)
      → Links p db (import_routed make_token ctx reverse_lookup p r)
  unfolding import_routed
  import_routed-Links p db (no_route m db') u = inl (λ e. cc, u.records)
  import_routed-Links p db (route_to d db') u =
      let (rows, same, linked) =
        add_records-IsRows reverse_lookup ctx.resolve_ptr db'.next_report d.tenant_id p.records
          (record db' {
            reports = db'.reports ++ report_row db'.next_report d p ∷ [];
            next_report = db'.next_report + 1;
          }) in
      inr (
        refl,
        (d.tenant_id, rows, same ∙ ap (λ l. l ++ rows) u.records, rw (← u.next_report) linked),
      )

  -- An import stores one row for each record of the report, in order and with its source ip and
  -- count, linked to the new report and to one tenant; a call with another status stores none.
  pub ingest_parsed-Links :
      (p : ParsedReport) (db : Db) → Links p db (ingest_parsed make_token ctx reverse_lookup p db)
  unfolding ingest_parsed
  ingest_parsed-Links p db = by_key (find_existing db p) refl
    where
      by_key :
          (o : Option Report)
          → find_existing db p ≡ o
          → Links p db (ingest_parsed make_token ctx reverse_lookup p db)
      by_key none e =
          rw (e, ingest_parsed)
            (import_routed-Links p db (route make_token ctx ctx.tenant_id ctx.reseller_id p db)
              (route-Untouched make_token ctx ctx.tenant_id ctx.reseller_id p db))
      by_key (some r) e = rw (e, ingest_parsed) (inl (λ q. cc, refl))
