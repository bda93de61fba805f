-- ===== src/Ingest/Routes.antt =====
-- What the choice of the domain in app/ingest.py leaves alone, and whose domain it is.
use dmarc_geeks.Common.{
  Bool, List, Option, Text, [], arith, false, find, lower, none, refl, some, strip, true, ℕ, ◌∷◌,
  ◌≡◌,
}
use dmarc_geeks.Parser.Report.{ParsedReport}
use dmarc_geeks.Ingest.{Domain, Db, Context, Message}
use dmarc_geeks.Ingest.Store.{find_domain, create_domain, ensure_named, ensure_domain, matches}
use dmarc_geeks.Ingest.Import.{Routed, route_to, no_route, or_message, single, route}

-- The tables other than `domains` are as before.
pub record Untouched (db db' : Db) : Type 0 where
  pub reports : db'.reports ≡ db.reports
  pub records : db'.records ≡ db.records
  pub auth_results : db'.auth_results ≡ db.auth_results
  pub logs : db'.logs ≡ db.logs
  pub next_report : db'.next_report ≡ db.next_report
  pub next_record : db'.next_record ≡ db.next_record

Untouched-refl : (db : Db) → Untouched db db
Untouched-refl db = record {
  reports = refl;
  records = refl;
  auth_results = refl;
  logs = refl;
  next_report = refl;
  next_record = refl;
}

abbrev pub tables : Routed → Db
tables (route_to d db) = db
tables (no_route m db) = db

-- The chosen domain belongs to the tenant, where the caller names one.
abbrev pub IsOwn : Option ℕ → Routed → Type 0
IsOwn (some tenant) (route_to d db) = d.tenant_id ≡ tenant
IsOwn _ _ = Unit

ensure_named-Untouched :
    (db : Db) (tenant : ℕ) (name : Text) (auto : Bool) (token : Text)
    → Untouched db (ensure_named db tenant name auto token).1
unfolding ensure_named
ensure_named-Untouched db tenant [] auto token = Untouched-refl db
ensure_named-Untouched db tenant (c ∷ name) auto token =
    by_search (find_domain db (some tenant) (c ∷ name) none) refl auto
  where
    by_search :
        (o : Option Domain)
        → find_domain db (some tenant) (c ∷ name) none ≡ o
        → (auto : Bool) → Untouched db (ensure_named db tenant (c ∷ name) auto token).1
    by_search (some d) e auto = rw (e, ensure_named) (Untouched-refl db)
    by_search none e false = rw (e, ensure_named) (Untouched-refl db)
    by_search none e true =
        rw (e, ensure_named, create_domain)
          (record {
            reports = refl;
            records = refl;
            auth_results = refl;
            logs = refl;
            next_report = refl;
            next_record = refl;
          })

find_sound : (p : Domain → Bool) (ds : List Domain) (d : Domain) → find p ds ≡ some d → p d ≡ true
find_sound p [] d h = cc
find_sound p (x ∷ ds) d h = ground (arith, find_sound p ds d)

find_domain-own :
    (db : Db) (tenant : ℕ) (name : Text) (d : Domain)
    → find_domain db (some tenant) name none ≡ some d
    → d.tenant_id ≡ tenant
unfolding find_domain
find_domain-own db tenant name d h =
    ground (arith, find_sound (matches db (some tenant) (lower name) none) db.domains d h)

ensure_named-own :
    (db : Db) (tenant : ℕ) (name : Text) (auto : Bool) (token : Text) (d : Domain)
    → (ensure_named db tenant name auto token).0 ≡ some d
    → d.tenant_id ≡ tenant
unfolding ensure_named
ensure_named-own db tenant [] auto token d h = cc
ensure_named-own db tenant (c ∷ name) auto token d h =
    by_search (find_domain db (some tenant) (c ∷ name) none) refl
  where
    by_search :
        (o : Option Domain)
        → find_domain db (some tenant) (c ∷ name) none ≡ o
        → d.tenant_id ≡ tenant
    by_search (some x) e = ground (arith, find_domain-own db tenant (c ∷ name) x e)
    by_search none e = ground arith

ensure_domain-own :
    (db : Db) (tenant : ℕ) (policy_domain : Text) (auto : Bool) (token : Text) (d : Domain)
    → (ensure_domain db tenant policy_domain auto token).0 ≡ some d
    → d.tenant_id ≡ tenant
unfolding ensure_domain
ensure_domain-own db tenant policy_domain auto token d =
    ensure_named-own db tenant (strip (lower policy_domain)) auto token d

tables-or_message : (m : Message) (o : Option Domain) (db : Db) → tables (or_message m o db) ≡ db
tables-or_message m none db = refl
tables-or_message m (some d) db = refl

tables-single : (name : Text) (ds : List Domain) (db : Db) → tables (single name ds db) ≡ db
unfolding single
tables-single name [] db = refl
tables-single name (d ∷ []) db = refl
tables-single name (d ∷ e ∷ ds) db = refl

or_message-IsOwn :
    (tenant : ℕ) (m : Message) (o : Option Domain) (db : Db)
    → ((d : Domain) → o ≡ some d → d.tenant_id ≡ tenant)
    → IsOwn (some tenant) (or_message m o db)
or_message-IsOwn tenant m none db h = tt
or_message-IsOwn tenant m (some d) db h = h d refl

module _ (make_token : ℕ → Text) (ctx : Context) where
  pub route-Untouched :
      (tenant reseller : Option ℕ) (p : ParsedReport) (db : Db)
      → Untouched db (tables (route make_token ctx tenant reseller p db))
  unfolding route
  route-Untouched (some tenant) reseller p db =
      rw tables-or_message
        (unfold ensure_domain in ensure_named-Untouched db tenant _ ctx.auto_create_domain _)
  route-Untouched none (some reseller) p db = rw tables-or_message (Untouched-refl db)
  route-Untouched none none p db = rw tables-single (Untouched-refl db)

  pub route-IsOwn :
      (tenant reseller : Option ℕ) (p : ParsedReport) (db : Db)
      → IsOwn tenant (route make_token ctx tenant reseller p db)
  unfolding route
  route-IsOwn none (some reseller) p db = tt
  route-IsOwn none none p db = tt
  route-IsOwn (some tenant) reseller p db = or_message-IsOwn tenant _ _ _ (
      ensure_domain-own db tenant p.policy_domain ctx.auto_create_domain
        (make_token db.next_domain))
