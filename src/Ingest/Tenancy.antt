-- ===== src/Ingest/Tenancy.antt =====
-- The separation of tenants in app/ingest.py.
use mathlib.Core.List.{append-nil, append_assoc}
use dmarc_geeks.Common.{
  All, All-append, List, Option, Text, [], ap, arith, inl, inr, none, some, sym, ℕ, ◌++◌, ◌∙◌, ◌∷◌,
  ◌≡◌,
}
use dmarc_geeks.Parser.Report.{ParsedReport}
use dmarc_geeks.Ingest.{Domain, Report, Db, Context, IngestResult}
use dmarc_geeks.Ingest.Store.{report_row}
use dmarc_geeks.Ingest.Import.{route_to, ingest_parsed, ingest_all}
use dmarc_geeks.Ingest.Routes.{IsOwn}
use dmarc_geeks.Ingest.Effects.{ingest_parsed-Writes, Writes}

abbrev pub IsOf : ℕ → Report → Type 0
IsOf tenant r = r.tenant_id ≡ tenant

-- The old reports stand, and the added ones are the tenant's.
abbrev pub OnlyAdds : ℕ → List Report → List Report → Type 0
OnlyAdds tenant old now = (new : List Report) × (now ≡ old ++ new) × All (IsOf tenant) new

OnlyAdds-trans :
    (tenant : ℕ) (a b c : List Report)
    → OnlyAdds tenant a b
    → OnlyAdds tenant b c
    → OnlyAdds tenant a c
OnlyAdds-trans tenant a b c (x, e, hx) (y, f, hy) =
    (x ++ y, f ∙ ap (λ l. l ++ y) e ∙ append_assoc a x y, All-append (IsOf tenant) x y hx hy)

own_tenant :
    (o : Option ℕ) (tenant : ℕ) (d : Domain) (db : Db)
    → o ≡ some tenant
    → IsOwn o (route_to d db)
    → d.tenant_id ≡ tenant
own_tenant none tenant d db h own = cc
own_tenant (some t) tenant d db h own = ground arith

Writes-OnlyAdds :
    (ctx : Context) (tenant : ℕ) (p : ParsedReport) (db : Db) (r : IngestResult × Db)
    → ctx.tenant_id ≡ some tenant
    → Writes ctx p db r
    → OnlyAdds tenant db.reports r.1.reports
Writes-OnlyAdds ctx tenant p db r mine w = elim (w.reports) [
  | inl (other, reports, next) ↦ ([], reports ∙ sym (append-nil db.reports), tt)
  | inr (done, new, (d, own, reports, next)) ↦ (
    report_row db.next_report d p ∷ [],
    reports,
    (own_tenant ctx.tenant_id tenant d db mine own, tt),
  )
]

-- An ingestion for a tenant changes no stored report, and every report that it adds belongs to
-- that tenant.
pub ingest_all-OnlyAdds :
    (make_token : ℕ → Text) (reverse_lookup : Text → Option Text) (ctx : Context) (tenant : ℕ)
    (ps : List ParsedReport) (db : Db)
    → ctx.tenant_id ≡ some tenant
    → OnlyAdds tenant db.reports (ingest_all make_token ctx reverse_lookup ps db).1.reports
unfolding ingest_all
ingest_all-OnlyAdds make_token reverse_lookup ctx tenant [] db mine =
    ([], sym (append-nil db.reports), tt)
ingest_all-OnlyAdds make_token reverse_lookup ctx tenant (p ∷ ps) db mine =
    OnlyAdds-trans tenant db.reports (ingest_parsed make_token ctx reverse_lookup p db).1.reports _
      (Writes-OnlyAdds ctx tenant p db _ mine
        (ingest_parsed-Writes make_token ctx reverse_lookup p db))
      (ingest_all-OnlyAdds make_token reverse_lookup ctx tenant ps
        (ingest_parsed make_token ctx reverse_lookup p db).1 mine)
