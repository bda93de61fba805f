-- ===== src/Dns/Dmarc.antt =====
-- app/dns_utils.py: `lookup_dmarc`.
pub mod Laws
use dmarc_geeks.Common.{
  Bool, List, Option, Text, [], false, filter, find, if◌then◌else◌, int_of, is_empty, lower, map,
  none, not, some, split, split_once, strip, text, true, ℕ, ℤ, ◌++◌, ◌==◌, ◌∷◌, nat_eq, text_eq,
}
use dmarc_geeks.Dns.{starts_as}

pub data DmarcIssue : Type 0 where
  only_reports : DmarcIssue
  no_reports : DmarcIssue

pub record DmarcResult : Type 0 where
  pub present : Bool
  pub valid : Bool
  pub raw : Option Text
  pub policy : Option Text
  pub rua : List Text
  pub pct : Option ℤ
  pub issues : List DmarcIssue

-- The tags that the loop over the parts sets.
pub record Tags : Type 0 where
  pub policy : Option Text
  pub rua : List Text
  pub pct : Option ℤ

abbrev pub tags : Option Text → List Text → Option ℤ → Tags
tags p r n = record { policy = p; rua = r; pct = n }

-- `s.partition(sep)` without the separator.
unfoldable pub partition : ℕ → Text → Text × Text
unfolding split_once
partition sep s = elim (split_once sep s) [ none ↦ (s, []) | some (a, b) ↦ (a, b) ]

-- `[a.strip() for a in v.split(sep) if a.strip()]`
unfoldable pub items : ℕ → Text → List Text
unfolding split strip
items sep v = filter (λ a. not (is_empty a)) (map strip (split sep v))

set_pct : Tags → Option ℤ → Tags
set_pct s none = s
set_pct s (some n) = tags (s.policy) (s.rua) (some n)

unfoldable pub set_tag : Tags → Text → Text → Tags
unfolding items set_pct int_of
set_tag s k v =
    if k == text "p"
    then tags (some v) (s.rua) (s.pct)
    else if k == text "rua"
    then tags (s.policy) (items b',' v) (s.pct)
    else if k == text "pct"
    then set_pct s (int_of v)
    else s

-- Key and value of a part.
unfoldable pub pair_of : Text → Text × Text
unfolding strip lower partition
pair_of part = let (k, v) = partition b'=' (strip part) in (strip (lower k), strip v)

unfoldable pub set_tags : Tags → List Text → Tags
unfolding pair_of set_tag
set_tags s [] = s
set_tags s (p ∷ ps) = let (k, v) = pair_of p in set_tags (set_tag s k v) ps

unfoldable pub tags_of : Text → Tags
unfolding set_tags split
tags_of t = set_tags (tags none [] none) (split b';' t)

unfoldable pub issues_of : Tags → List DmarcIssue
issues_of s =
    (if (elim (s.policy) [ none ↦ false | some p ↦ p == text "none" ])
      then only_reports ∷ []
      else [])
    ++ (if is_empty (s.rua) then no_reports ∷ [] else [])

unfoldable pub no_dmarc : DmarcResult
no_dmarc = record {
  present = false;
  valid = false;
  raw = none;
  policy = none;
  rua = [];
  pct = none;
  issues = [];
}

unfoldable pub dmarc_result : Text → DmarcResult
unfolding tags_of issues_of
dmarc_result t =
    let s = tags_of t in
    record {
      present = true;
      valid = true;
      raw = some t;
      policy = s.policy;
      rua = s.rua;
      pct = s.pct;
      issues = issues_of s;
    }

module _ (get_txt_records : Text → List Text) where
  unfoldable pub lookup_dmarc : Text → DmarcResult
  unfolding starts_as no_dmarc dmarc_result
  lookup_dmarc domain =
      elim (find (starts_as (text "v=dmarc1")) (get_txt_records (text "_dmarc." ++ domain))) [
        | none ↦ no_dmarc
        | some t ↦ dmarc_result t
      ]

-- app/routers/domains.py: the policy that the 1-click setup publishes under the zone.
unfoldable pub default_policy : Text → Text
default_policy zone = text "v=DMARC1; p=none; rua=mailto:dmarc@" ++ (zone ++ text "; pct=100")
