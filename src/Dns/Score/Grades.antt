-- ===== src/Dns/Score/Grades.antt =====
-- app/dns_utils.py: what the total of `score_check` says of a domain.
use dmarc_geeks.Common.{List, arith, ℕ, ◌↔◌, ◌≡◌, ◌≤◌}
use dmarc_geeks.Dns.{Presence}
use dmarc_geeks.Dns.Dmarc.{DmarcResult}
use dmarc_geeks.Dns.Score.{
  Checks, ok, mx_check, spf_check, dmarc_check, dkim_check, optional_check, SpfResult, Check,
  Selector, MxResult, score_check, checks_of, total_of, DnsCheck,
}

-- The seven checks are all ok.
pub record IsPerfect (c : Checks) : Type 0 where
  pub mx : c.mx.status ≡ ok
  pub spf : c.spf.status ≡ ok
  pub dmarc : c.dmarc.status ≡ ok
  pub dkim : c.dkim.status ≡ ok
  pub mta_sts : c.mta_sts.status ≡ ok
  pub tls_rpt : c.tls_rpt.status ≡ ok
  pub bimi : c.bimi.status ≡ ok

-- The points of a check are at most `n`, and `n` exactly if it is ok.
abbrev pub Worth : ℕ → Check → Type 0
Worth n c = (c.points ≤ n) × ((c.points ≡ n) ↔ (c.status ≡ ok))

pub mx-Worth : (r : MxResult) → Worth 5 (mx_check r)
unfolding mx_check
mx-Worth r = ground arith

pub spf-Worth : (r : SpfResult) → Worth 25 (spf_check r)
unfolding spf_check
spf-Worth r = ground arith

pub dmarc-Worth : (r : DmarcResult) → Worth 30 (dmarc_check r)
unfolding dmarc_check
dmarc-Worth r = ground arith

pub dkim-Worth : (r : List Selector) → Worth 25 (dkim_check r)
unfolding dkim_check
dkim-Worth r = ground arith

pub optional-Worth : (r : Presence) → Worth 5 (optional_check r)
unfolding optional_check
optional-Worth r = ground arith

-- The total is at most 100, and it is 100 exactly if each of the seven checks is ok.
pub score_check-total :
    (r : DnsCheck)
    → ((score_check r).total ≤ 100)
      × (((score_check r).total ≡ 100) ↔ IsPerfect ((score_check r).checks))
unfolding score_check checks_of total_of
score_check-total r = (
  omega (arith, m.0, s.0, d.0, k.0, t.0, l.0, b.0),
  (
    λ h. record {
      mx = m.1.0 (omega (arith, h, m.0, s.0, d.0, k.0, t.0, l.0, b.0));
      spf = s.1.0 (omega (arith, h, m.0, s.0, d.0, k.0, t.0, l.0, b.0));
      dmarc = d.1.0 (omega (arith, h, m.0, s.0, d.0, k.0, t.0, l.0, b.0));
      dkim = k.1.0 (omega (arith, h, m.0, s.0, d.0, k.0, t.0, l.0, b.0));
      mta_sts = t.1.0 (omega (arith, h, m.0, s.0, d.0, k.0, t.0, l.0, b.0));
      tls_rpt = l.1.0 (omega (arith, h, m.0, s.0, d.0, k.0, t.0, l.0, b.0));
      bimi = b.1.0 (omega (arith, h, m.0, s.0, d.0, k.0, t.0, l.0, b.0));
    },
    λ p. omega (
      arith,
      m.1.1 (p.mx),
      s.1.1 (p.spf),
      d.1.1 (p.dmarc),
      k.1.1 (p.dkim),
      t.1.1 (p.mta_sts),
      l.1.1 (p.tls_rpt),
      b.1.1 (p.bimi),
    ),
  ),
)
  where
    m : Worth 5 (mx_check (r.mx))
    m = mx-Worth (r.mx)

    s : Worth 25 (spf_check (r.spf))
    s = spf-Worth (r.spf)

    d : Worth 30 (dmarc_check (r.dmarc))
    d = dmarc-Worth (r.dmarc)

    k : Worth 25 (dkim_check (r.dkim))
    k = dkim-Worth (r.dkim)

    t : Worth 5 (optional_check (r.mta_sts))
    t = optional-Worth (r.mta_sts)

    l : Worth 5 (optional_check (r.tls_rpt))
    l = optional-Worth (r.tls_rpt)

    b : Worth 5 (optional_check (r.bimi))
    b = optional-Worth (r.bimi)
