-- ===== src/Ingest/Dedup.antt =====
-- The duplicate check of app/ingest.py.
use dmarc_geeks.Common.{
  Bool, List, Option, Text, [], all, ap, arith, find, inl, inr, none, not, or_else, refl, some,
  subst_some, text, text_beq_iff, true, ℕ, ℤ, ◌&&◌, ◌++◌, ◌==◌, ◌∙◌, ◌∷◌, ◌≡◌, nat_eq, text_eq,
}
use dmarc_geeks.Parser.Element.{Element, text_at}
use dmarc_geeks.Parser.Report.{ParsedReport, Result, ok, parse_error, uncaught, report_of}
use dmarc_geeks.Parser.Payload.{Codecs, Failure, parse_payload}
use dmarc_geeks.Ingest.{Domain, Report, imported, dup, Db, Context, IngestResult}
use dmarc_geeks.Ingest.Store.{report_row}
use dmarc_geeks.Ingest.Import.{same_key, find_existing, ingest_parsed, ingest_all, ingest_payload}
use dmarc_geeks.Ingest.Effects.{ingest_parsed-Writes, Writes}

-- The pair that the table's unique constraint names.
abbrev pub keys_eq : Report → Report → Bool
keys_eq r o = r.org_email == o.org_email && r.external_report_id == o.external_report_id

abbrev pub is_unique : List Report → Bool
is_unique [] = true
is_unique (r ∷ rs) = all (λ o. not (keys_eq r o)) rs && is_unique rs

all-snoc {ℓ} :
    {A : Type ℓ} (p : A → Bool) (xs : List A) (y : A) → all p (xs ++ y ∷ []) ≡ (all p xs && p y)
all-snoc p [] y = ground arith
all-snoc p (x ∷ xs) y = ground (arith, all-snoc p xs y)

find-none {ℓ} :
    {A : Type ℓ} (p : A → Bool) (xs : List A) → find p xs ≡ none → all (λ x. not (p x)) xs ≡ true
find-none p [] h = refl
find-none p (x ∷ xs) h = ground (arith, find-none p xs)

find-snoc {ℓ} :
    {A : Type ℓ} (p : A → Bool) (xs : List A) (y : A)
    → find p xs ≡ none
    → p y ≡ true
    → find p (xs ++ y ∷ []) ≡ some y
find-snoc p [] y h k = ground arith
find-snoc p (x ∷ xs) y h k = ground (arith, find-snoc p xs y)

is_unique-snoc :
    (rs : List Report) (r : Report)
    → is_unique rs ≡ true
    → all (λ o. not (keys_eq o r)) rs ≡ true
    → is_unique (rs ++ r ∷ []) ≡ true
is_unique-snoc [] r h k = refl
is_unique-snoc (x ∷ rs) r h k =
    ground (arith, all-snoc (λ o. not (keys_eq x o)) rs r, is_unique-snoc rs r)

new_key :
    (db : Db) (p : ParsedReport) (d : Domain)
    → find_existing db p ≡ none
    → all (λ o. not (keys_eq o (report_row db.next_report d p))) db.reports ≡ true
unfolding find_existing
new_key db p d h = find-none (same_key p) db.reports h

Writes-is_unique :
    (ctx : Context) (p : ParsedReport) (db : Db) (r : IngestResult × Db)
    → Writes ctx p db r
    → is_unique db.reports ≡ true
    → is_unique r.1.reports ≡ true
Writes-is_unique ctx p db r w h = elim (w.reports) [
  | inl (other, reports, next) ↦ rw reports h
  | inr (done, new, (d, own, reports, next)) ↦
      rw reports (is_unique-snoc db.reports _ h (new_key db p d new))
]

module _ (make_token : ℕ → Text) (reverse_lookup : Text → Option Text) where
  ingest_all-is_unique :
      (ctx : Context) (ps : List ParsedReport) (db : Db)
      → is_unique db.reports ≡ true
      → is_unique (ingest_all make_token ctx reverse_lookup ps db).1.reports ≡ true
  unfolding ingest_all
  ingest_all-is_unique ctx [] db h = h
  ingest_all-is_unique ctx (p ∷ ps) db h =
      ingest_all-is_unique ctx ps (ingest_parsed make_token ctx reverse_lookup p db).1
        (Writes-is_unique ctx p db _ (ingest_parsed-Writes make_token ctx reverse_lookup p db) h)

  -- Whatever the payload, no two stored reports share (org_email, external_report_id) after its
  -- ingestion if none did before.
  pub ingest_payload-is_unique :
      (ctx : Context) (codecs : Codecs) (filename bytes : Text) (db db' : Db)
      (rs : List IngestResult)
      → is_unique db.reports ≡ true
      → ingest_payload make_token ctx reverse_lookup codecs filename bytes db ≡ some (rs, db')
      → is_unique db'.reports ≡ true
  unfolding ingest_payload
  ingest_payload-is_unique ctx codecs filename bytes db db' rs h e =
      by_payload (parse_payload codecs filename bytes) refl
    where
      by_payload :
          (r : Result (List Failure) (List ParsedReport))
          → parse_payload codecs filename bytes ≡ r
          → is_unique db'.reports ≡ true
      by_payload (ok ps) eq =
          subst_some (λ x. is_unique x.1.reports ≡ true)
            (ingest_all make_token ctx reverse_lookup ps db) (rs, db')
            (rw (eq, ingest_payload) at e) (ingest_all-is_unique ctx ps db h)
      by_payload (parse_error fs) eq =
          subst_some (λ x. is_unique x.1.reports ≡ true) _ (rs, db') (rw (eq, ingest_payload) at e)
            h
      by_payload uncaught eq = absurd (cc (rw (eq, ingest_payload) at e))

  found_again :
      (ctx : Context) (p q : ParsedReport) (db : Db) (r : IngestResult × Db)
      → q.org_email ≡ p.org_email
      → q.external_report_id ≡ p.external_report_id
      → Writes ctx p db r
      → r.0.status ≡ imported
      → (x : Report) × (find_existing r.1 q ≡ some x) × (x.id ≡ db.next_report)
  unfolding find_existing
  found_again ctx p q db r mail id w done = elim (w.reports) [
    | inl (other, reports, next) ↦ absurd (other done)
    | inr (done, new, (d, own, reports, next)) ↦ (
      report_row db.next_report d p,
      rw (reports, mail, id, same_key)
          (find-snoc (same_key p) db.reports _ new (
            ground (
              arith,
              text_beq_iff p.org_email p.org_email,
              text_beq_iff p.external_report_id p.external_report_id,
            ))),
      refl,
    )
  ]

  dup_of :
      (ctx : Context) (q : ParsedReport) (db : Db) (x : Report)
      → find_existing db q ≡ some x
      → let r = ingest_parsed make_token ctx reverse_lookup q db in
        (r.0.status ≡ dup) × (r.0.report_id ≡ some x.id) × (r.1.reports ≡ db.reports)
  unfolding ingest_parsed
  dup_of ctx q db x e = rw (e, ingest_parsed) (refl, refl, refl)

  -- After a report was imported, a report with the same organisation email and report id is a
  -- duplicate for every later caller, of any tenant and for any policy domain: the result names the
  -- first report, and the reports stay as they are.
  pub ingest_parsed_again :
      (ctx ctx' : Context) (p q : ParsedReport) (db : Db)
      → q.org_email ≡ p.org_email
      → q.external_report_id ≡ p.external_report_id
      → (ingest_parsed make_token ctx reverse_lookup p db).0.status ≡ imported
      → let db' = (ingest_parsed make_token ctx reverse_lookup p db).1 in
        let r = ingest_parsed make_token ctx' reverse_lookup q db' in
        (r.0.status ≡ dup) × (r.0.report_id ≡ some db.next_report) × (r.1.reports ≡ db'.reports)
  ingest_parsed_again ctx ctx' p q db mail id done =
      let (x, found, first) =
        found_again ctx p q db _ mail id (ingest_parsed-Writes make_token ctx reverse_lookup p db)
          done in
      let (status, report, reports) =
        dup_of ctx' q (ingest_parsed make_token ctx reverse_lookup p db).1 x found in
      (status, report ∙ ap some first, reports)

  -- Two documents without a report id collide if their organisation email and their begin agree:
  -- once the first is imported, the second is dropped as a duplicate, also where it reports on
  -- another policy domain.
  pub missing_id_collision :
      (ctx ctx' : Context) (root meta policy root' meta' policy' : Element) (begin end end' : ℤ)
      (raw raw' : Text) (db : Db)
      → text_at (some meta) (text "report_id") ≡ none
      → text_at (some meta') (text "report_id") ≡ none
      → text_at (some meta') (text "email") ≡ text_at (some meta) (text "email")
      → let p = report_of root meta policy begin end raw in
        let q = report_of root' meta' policy' begin end' raw' in
        (ingest_parsed make_token ctx reverse_lookup p db).0.status ≡ imported
        → (ingest_parsed make_token ctx' reverse_lookup q
            (ingest_parsed make_token ctx reverse_lookup p db).1).0.status
          ≡ dup
  missing_id_collision ctx ctx' root meta policy root' meta' policy' begin end end' raw raw' db h h'
        mail done =
      (ingest_parsed_again ctx ctx' (report_of root meta policy begin end raw)
        (report_of root' meta' policy' begin end' raw') db (unfold report_of in rw mail)
        (unfold report_of or_else in rw (h, h', mail)) done).0
