-- ===== src/Dns/Score.antt =====
-- app/dns_utils.py: `full_dns_check` and `score_check`, without the display texts. Each check of
-- the source's dict is a field of Checks.
pub mod Grades
pub mod GradeA
use dmarc_geeks.Common.{
  Bool, List, Option, Text, [], false, if◌then◌else◌, is_empty, leb, lower, ltb, not, or_else, text,
  true, ℕ, ◌&&◌, ◌++◌, ◌+◌, ◌==◌, ◌||◌, ◌∷◌, nat_eq, text_eq,
}
use dmarc_geeks.Dns.{Presence, lookup_bimi, lookup_mta_sts, lookup_tls_rpt, get_txt_records}
use dmarc_geeks.Dns.Mx.{MxResult, lookup_mx}
use dmarc_geeks.Dns.SpfRecord.{SpfResult, lookup_spf}
use dmarc_geeks.Dns.Dmarc.{DmarcResult, lookup_dmarc}
use dmarc_geeks.Dns.Dkim.{Selector, lookup_dkim_selectors}
use dmarc_geeks.Dns.Selectors.{selectors_or}

pub record DnsCheck : Type 0 where
  pub domain : Text
  pub mx : MxResult
  pub spf : SpfResult
  pub dmarc : DmarcResult
  pub dkim : List Selector
  pub mta_sts : Presence
  pub tls_rpt : Presence
  pub bimi : Presence

module _ (resolve_txt : Text → Option (List (List Text)))
    (resolve_mx : Text → Option (List (ℕ × Text))) where
  unfoldable pub full_dns_check : Text → DnsCheck
  unfolding lookup_mx lookup_spf lookup_dmarc lookup_dkim_selectors lookup_mta_sts lookup_tls_rpt
      lookup_bimi get_txt_records
  full_dns_check domain =
      let txt = get_txt_records resolve_txt in
      record {
        domain = domain;
        mx = lookup_mx resolve_mx domain;
        spf = lookup_spf txt domain;
        dmarc = lookup_dmarc txt domain;
        dkim = lookup_dkim_selectors txt (selectors_or []) domain;
        mta_sts = lookup_mta_sts resolve_txt domain;
        tls_rpt = lookup_tls_rpt resolve_txt domain;
        bimi = lookup_bimi resolve_txt domain;
      }

pub data Status : Type 0 where
  ok warn fail info : Status

pub record Check : Type 0 where
  pub status : Status
  pub points : ℕ

abbrev pub check : Status → ℕ → Check
check s n = record { status = s; points = n }

pub record Checks : Type 0 where
  pub mx : Check
  pub spf : Check
  pub dmarc : Check
  pub dkim : Check
  pub mta_sts : Check
  pub tls_rpt : Check
  pub bimi : Check

pub data Grade : Type 0 where
  grade_a grade_b grade_c grade_d grade_f : Grade

pub data Action : Type 0 where
  add_dmarc : Action
  add_spf : Action
  add_dkim : Action
  sharpen_dmarc : Action
  solid : Action

pub record Score : Type 0 where
  pub total : ℕ
  pub checks : Checks
  pub grade : Grade
  pub actions : List Action

unfoldable pub mx_check : MxResult → Check
mx_check r = if r.present then check ok 5 else check fail 0

unfoldable pub spf_check : SpfResult → Check
spf_check r =
    if r.present && is_empty (r.issues)
    then check ok 25
    else if r.present && ltb 10 (r.lookup_count)
    then check fail 0
    else if r.present
    then check warn 15
    else check fail 0

-- `(policy or "none").lower()`
unfoldable pub policy_of : Option Text → Text
unfolding or_else lower
policy_of p = lower (or_else p (text "none"))

unfoldable pub is_sharp : Text → Bool
is_sharp p = p == text "quarantine" || p == text "reject"

unfoldable pub dmarc_check : DmarcResult → Check
unfolding policy_of is_sharp
dmarc_check r =
    let p = policy_of (r.policy) in
    let has_rua = not (is_empty (r.rua)) in
    if not (r.present)
    then check fail 0
    else if is_sharp p && has_rua
    then check ok 30
    else if p == text "none" && has_rua
    then check warn 18
    else if is_sharp p && not has_rua
    then check warn 18
    else check warn 10

unfoldable pub dkim_check : List Selector → Check
dkim_check found = if is_empty found then check fail 0 else check ok 25

unfoldable pub optional_check : Presence → Check
optional_check r = if r.present then check ok 5 else check info 0

unfoldable pub checks_of : DnsCheck → Checks
unfolding mx_check spf_check dmarc_check dkim_check optional_check
checks_of r = record {
  mx = mx_check (r.mx);
  spf = spf_check (r.spf);
  dmarc = dmarc_check (r.dmarc);
  dkim = dkim_check (r.dkim);
  mta_sts = optional_check (r.mta_sts);
  tls_rpt = optional_check (r.tls_rpt);
  bimi = optional_check (r.bimi);
}

unfoldable pub total_of : Checks → ℕ
total_of c =
    c.mx.points + c.spf.points + c.dmarc.points + c.dkim.points + c.mta_sts.points
    + c.tls_rpt.points + c.bimi.points

unfoldable pub grade_of : ℕ → Grade
grade_of t =
    if leb 85 t
    then grade_a
    else if leb 70 t
    then grade_b
    else if leb 50 t
    then grade_c
    else if leb 30 t
    then grade_d
    else grade_f

is_fail : Check → Bool
is_fail c = elim (c.status) [ fail ↦ true | _ ↦ false ]

is_warn : Check → Bool
is_warn c = elim (c.status) [ warn ↦ true | _ ↦ false ]

or_solid : List Action → List Action
or_solid [] = solid ∷ []
or_solid (x ∷ xs) = x ∷ xs

unfoldable pub actions_for : Checks → Option Text → List Action
unfolding is_fail is_warn or_solid or_else
actions_for c policy = or_solid (
    (if is_fail (c.dmarc) then add_dmarc ∷ [] else [])
    ++ ((if is_fail (c.spf) then add_spf ∷ [] else [])
        ++ ((if is_fail (c.dkim) then add_dkim ∷ [] else [])
            ++ (if is_warn (c.dmarc) && or_else policy [] == text "none"
                then sharpen_dmarc ∷ []
                else []))))

unfoldable pub score_check : DnsCheck → Score
unfolding checks_of total_of grade_of actions_for
score_check r =
    let c = checks_of r in
    let t = total_of c in
    record { total = t; checks = c; grade = grade_of t; actions = actions_for c (r.dmarc.policy) }
