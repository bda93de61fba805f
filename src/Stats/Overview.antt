-- ===== src/Stats/Overview.antt =====
-- app/stats.py: `domain_summaries`, `reseller_overview` and `classify_top_sources`. The rate, a float
-- of the source, is the parameter `rate`; the order of the domains by name is the tables' order.
use dmarc_geeks.Common.{
  Bool, List, Option, Text, [], filter, find, if◌then◌else◌, lebℤ, length, lookup, map, mem, none,
  or_else, some, sorted, sum_by, tally, text_leb, ℕ, ℤ, ◌&&◌, ◌==◌, ◌∷◌, nat_eq, text_eq, int_eq,
  option_eq, pair_eq,
}
use dmarc_geeks.Stats.{
  Row, query, DispositionTotals, Volume, no_volume, add_volume, group_by, same_evals, domain_totals,
  aligned,
}
use dmarc_geeks.Stats.Daily.{sparkline}
use dmarc_geeks.Stats.Senders.{Source, rate_or_zero}
use dmarc_geeks.SourceClassifier.Rules.{Verdict, classify_source}

pub record Tenant : Type 0 where
  pub id : ℕ
  pub name : Text

pub record Domain : Type 0 where
  pub id : ℕ
  pub tenant_id : ℕ
  pub name : Text

-- The domain and the end of its last report, and its tenant.
pub record LastReport : Type 0 where
  pub domain_id : ℕ
  pub tenant_id : ℕ
  pub date_end : ℤ

pub record Summary : Type 0 where
  pub domain : Domain
  pub totals : DispositionTotals
  pub pass_rate : ℕ
  pub last_report : Option ℤ
  pub sparkline : List ℕ

-- `func.max`
later : ℤ → Option ℤ → Option ℤ
later a none = some a
later a (some b) = if lebℤ b a then some a else some b

unfoldable pub last_end : (LastReport → Bool) → List LastReport → Option ℤ
unfolding later
last_end p [] = none
last_end p (r ∷ rs) = let rest = last_end p rs in if p r then later (r.date_end) rest else rest

-- The domains of the tenant are in the order of their names.
module _ (day_of : ℤ → Text) (rate : ℕ → ℕ → ℕ) where
  -- `since` is the start of the days, `spark_since` that of the last 14 days.
  summary_of : ℕ → ℤ → ℤ → List Row → List LastReport → Domain → Summary
  unfolding domain_totals sparkline last_end
  summary_of tenant since spark_since rows reports d =
      let q = query tenant (some (d.id)) (some since) in
      let t = domain_totals q rows in
      record {
        domain = d;
        totals = t;
        pass_rate = if t.total == 0 then 0 else rate (t.pass_count) (t.total);
        last_report = last_end (λ r. r.domain_id == d.id && r.tenant_id == tenant) reports;
        sparkline = sparkline day_of (query tenant (some (d.id)) (some spark_since)) rows;
      }

  unfoldable pub domain_summaries :
      ℕ → ℤ → ℤ → List Row → List LastReport → List Domain → List Summary
  unfolding summary_of
  domain_summaries tenant since spark_since rows reports domains =
      map (summary_of tenant since spark_since rows reports)
        (filter (λ d. d.tenant_id == tenant) domains)

pub record TenantRow : Type 0 where
  pub tenant : Tenant
  pub n_domains : ℕ
  pub volume : Volume
  pub pass_rate : ℕ

pub record DomainRow : Type 0 where
  pub domain : Domain
  pub tenant : Option Tenant
  pub volume : Volume
  pub pass_rate : ℕ
  pub last_report : Option ℤ

pub record Overview : Type 0 where
  pub n_customers : ℕ
  pub n_domains : ℕ
  pub total_messages : ℕ
  pub avg_pass_rate : ℕ
  pub tenants : List TenantRow
  pub domains : List DomainRow

no_overview : Overview
no_overview = record {
  n_customers = 0;
  n_domains = 0;
  total_messages = 0;
  avg_pass_rate = 0;
  tenants = [];
  domains = [];
}

same_domain : Row → Row → Bool
unfolding same_evals
same_domain a b = a.tenant_id == b.tenant_id && a.domain_id == b.domain_id && same_evals a b

-- `d.get(key, {"total": 0, "pass": 0})`
volume_of : ℕ → List (ℕ × Volume) → Volume
unfolding lookup
volume_of k m = elim (lookup k m) [ none ↦ no_volume | some v ↦ v ]

name_of : Option Tenant → Text
name_of none = []
name_of (some t) = t.name

-- `(tenant name, domain name)` as a sort key.
by_names : DomainRow → DomainRow → Bool
unfolding name_of
by_names a b =
    let s = name_of (a.tenant) in
    let t = name_of (b.tenant) in
    if s == t then text_leb (a.domain.name) (b.domain.name) else text_leb s t

-- The rows of the reseller's tenants; `tenants` are those of the reseller and `domains` all
-- domains, both in the order of their names.
unfoldable pub rows_of : List Tenant → ℤ → List Row → List Row
unfolding group_by same_domain mem
rows_of tenants since rows =
    group_by same_domain
      (filter (λ r. mem (r.tenant_id) (map (λ t. t.id) tenants) && lebℤ since (r.date_begin)) rows)

unfoldable pub reseller_overview :
    (ℕ → ℕ → ℕ) → List Tenant → ℤ → List Domain → List Row → List LastReport → Overview
unfolding no_overview rows_of tally add_volume volume_of rate_or_zero sorted by_names last_end mem
reseller_overview rate [] since all_domains rows reports = no_overview
reseller_overview rate (t ∷ ts) since all_domains rows reports =
    let tenants = t ∷ ts in
    let ids = map (λ u. u.id) tenants in
    let domains = filter (λ d. mem (d.tenant_id) ids) all_domains in
    let sel = rows_of tenants since rows in
    let by_domain = tally (λ r. r.domain_id) (λ r. no_volume) add_volume sel [] in
    let by_tenant = tally (λ r. r.tenant_id) (λ r. no_volume) add_volume sel [] in
    let total = sum_by (λ r. r.count) sel in
    let passed = sum_by (λ r. if aligned r then r.count else 0) sel in
    record {
      n_customers = length tenants;
      n_domains = length domains;
      total_messages = total;
      avg_pass_rate = if total == 0 then 0 else rate passed total;
      tenants =
          map
            (λ u. record {
              tenant = u;
              n_domains = length (filter (λ d. d.tenant_id == u.id) domains);
              volume = volume_of (u.id) by_tenant;
              pass_rate = rate_or_zero rate (volume_of (u.id) by_tenant);
            })
            tenants;
      domains = sorted by_names (
          map
            (λ d. record {
              domain = d;
              tenant = find (λ u. u.id == d.tenant_id) tenants;
              volume = volume_of (d.id) by_domain;
              pass_rate = rate_or_zero rate (volume_of (d.id) by_domain);
              last_report = last_end (λ r. r.domain_id == d.id && mem (r.tenant_id) ids) reports;
            })
            domains);
    }

-- Each source with its class; `none` in it where the classification raises.
unfoldable pub classify_top_sources :
    List Text → List Text → List (Source × ℕ) → List (Source × Option Verdict)
unfolding classify_source mem or_else
classify_top_sources mx_ips allowlist_ips rows =
    map
      (λ r. (
        r.0,
        classify_source (record {
          hostname = or_else (r.0.host) [];
          pass_count = r.0.volume.pass;
          fail_count = r.0.volume.fail;
          total_count = r.0.volume.total;
          is_mx_ip = mem (r.0.ip) mx_ips;
          is_in_allowlist = mem (r.0.ip) allowlist_ips;
          days_seen = 1;
        }),
      ))
      rows
