-- ===== src/Dns/SpfRecord.antt =====
-- app/dns_utils.py: the structure of an SPF record, `_analyze_spf_structure`, and `lookup_spf`.
pub mod Laws
use dmarc_geeks.Common.{
  Bool, List, Option, Text, [], any, drop, false, find, if◌then◌else◌, is_empty, leb, length, lower,
  ltb, mem, none, not, some, split_once, starts_with, text, true, ℕ, ◌&&◌, ◌++◌, ◌==◌, ◌∷◌, nat_eq,
  text_eq,
}
use dmarc_geeks.Spf.{Entry, Lookups, Trouble, count_spf_lookups, start_depth, words_from}
use dmarc_geeks.Dns.{starts_as}

pub record Mechanism : Type 0 where
  pub qualifier : ℕ
  pub kind : Text
  pub value : Text

pub record Structure : Type 0 where
  pub mechanisms : List Mechanism
  pub all_qualifier : Option ℕ
  pub redirects : List Text
  pub explain : Option Text

-- What a token stands for.
pub data Part : Type 0 where
  version : Part
  all_with : ℕ → Part
  redirect_to : Text → Part
  explain_by : Text → Part
  mechanism : Mechanism → Part
  unknown : Part

-- The qualifier, "+" where the token has none, and the rest.
qualified : Text → ℕ × Text
qualified [] = (b'+', [])
qualified (c ∷ t) = if mem c (text "+-~?") then (c, t) else (b'+', c ∷ t)

is_mechanism : Text → Bool
unfolding starts_with
is_mechanism low =
    any (λ p. starts_with low p)
      (text "ip4:"
        ∷ text "ip6:"
        ∷ text "include:"
        ∷ text "a:"
        ∷ text "a"
        ∷ text "mx:"
        ∷ text "mx"
        ∷ text "exists:"
        ∷ text "ptr"
        ∷ [])

-- `s.split(":", 1)[0] if ":" in s else s`, and what follows the colon.
front : Text → Text
unfolding split_once
front s = elim (split_once b':' s) [ none ↦ s | some (a, b) ↦ a ]

back : Text → Text
unfolding split_once
back s = elim (split_once b':' s) [ none ↦ [] | some (a, b) ↦ b ]

rest_of : ℕ → Text → Part
unfolding lower starts_with is_mechanism front back
rest_of q t =
    let low = lower t in
    if low == text "all"
    then all_with q
    else if starts_with low (text "redirect=")
    then redirect_to (drop 9 t)
    else if starts_with low (text "exp=")
    then explain_by (drop 4 t)
    else if is_mechanism low
    then mechanism (record { qualifier = q; kind = front low; value = back t })
    else unknown

unfoldable pub part_of : Text → Part
unfolding starts_as qualified rest_of
part_of token =
    let (q, t) = qualified token in if starts_as (text "v=spf1") token then version else rest_of q t

abbrev pub add_part : Structure → Part → Structure
add_part s version = s
add_part s (all_with q) = record {
  mechanisms = s.mechanisms;
  all_qualifier = some q;
  redirects = s.redirects;
  explain = s.explain;
}
add_part s (redirect_to d) = record {
  mechanisms = s.mechanisms;
  all_qualifier = s.all_qualifier;
  redirects = s.redirects ++ (d ∷ []);
  explain = s.explain;
}
add_part s (explain_by d) = record {
  mechanisms = s.mechanisms;
  all_qualifier = s.all_qualifier;
  redirects = s.redirects;
  explain = some d;
}
add_part s (mechanism m) = record {
  mechanisms = s.mechanisms ++ (m ∷ []);
  all_qualifier = s.all_qualifier;
  redirects = s.redirects;
  explain = s.explain;
}
add_part s unknown = s

abbrev pub no_structure : Structure
no_structure = record { mechanisms = []; all_qualifier = none; redirects = []; explain = none }

-- The loop over the tokens.
unfoldable pub add_parts : Structure → List Text → Structure
unfolding part_of
add_parts s [] = s
add_parts s (t ∷ ts) = add_parts (add_part s (part_of t)) ts

unfoldable pub analyze_spf_structure : Text → Structure
unfolding add_parts words_from
analyze_spf_structure t = add_parts no_structure (words_from [] t)

pub data SpfIssue : Type 0 where
  several_redirects : ℕ → SpfIssue
  redirect_ignored : Text → ℕ → SpfIssue
  redirect_wins : Text → List Mechanism → SpfIssue
  soft_policy : SpfIssue
  pass_all : SpfIssue
  unclear_policy : SpfIssue
  lookup_error : Trouble → SpfIssue
  over_limit : ℕ → SpfIssue
  near_limit : ℕ → SpfIssue

pub record SpfResult : Type 0 where
  pub present : Bool
  pub valid : Bool
  pub raw : Option Text
  pub issues : List SpfIssue
  pub lookup_count : ℕ
  pub lookup_breakdown : List Entry
  pub redirect_target : Option Text
  pub redirect_overrides : Bool

unfoldable pub no_spf : SpfResult
no_spf = record {
  present = false;
  valid = false;
  raw = none;
  issues = [];
  lookup_count = 0;
  lookup_breakdown = [];
  redirect_target = none;
  redirect_overrides = false;
}

unfoldable pub several : List Text → List SpfIssue
several rs = if ltb 1 (length rs) then several_redirects (length rs) ∷ [] else []

-- The issue of the first redirect.
unfoldable pub redirect_issues : Text → Option ℕ → List Mechanism → List SpfIssue
redirect_issues r (some q) ms = redirect_ignored r q ∷ []
redirect_issues r none [] = []
redirect_issues r none (m ∷ ms) = redirect_wins r (m ∷ ms) ∷ []

unfoldable pub conflicts : Structure → List SpfIssue
unfolding redirect_issues
conflicts s = elim (s.redirects) [
  | [] ↦ []
  | r ∷ rs ↦ redirect_issues r (s.all_qualifier) (s.mechanisms)
]

unfoldable pub overrides : Structure → Bool
overrides s =
    not (is_empty (s.redirects))
    && (elim (s.all_qualifier) [ none ↦ true | some q ↦ false ])
    && not (is_empty (s.mechanisms))

unfoldable pub policy_issues : Option ℕ → List Text → List SpfIssue
policy_issues (some q) rs =
    if q == b'?' then soft_policy ∷ [] else if q == b'+' then pass_all ∷ [] else []
policy_issues none [] = unclear_policy ∷ []
policy_issues none (r ∷ rs) = []

unfoldable pub trouble_issues : Option Trouble → List SpfIssue
trouble_issues none = []
trouble_issues (some t) = lookup_error t ∷ []

unfoldable pub limit_issues : ℕ → List SpfIssue
limit_issues n = if ltb 10 n then over_limit n ∷ [] else if leb 8 n then near_limit n ∷ [] else []

head_of : List Text → Option Text
head_of [] = none
head_of (r ∷ rs) = some r

unfoldable pub structure_issues : Structure → List SpfIssue
unfolding several conflicts policy_issues
structure_issues s =
    several (s.redirects) ++ (conflicts s ++ policy_issues (s.all_qualifier) (s.redirects))

unfoldable pub spf_issues : Structure → ℕ → Option Trouble → List SpfIssue
unfolding structure_issues trouble_issues limit_issues
spf_issues s n trouble = structure_issues s ++ (trouble_issues trouble ++ limit_issues n)

-- What is reported of the record `t` whose lookups are `lc`.
unfoldable pub spf_report : Text → Lookups → SpfResult
unfolding analyze_spf_structure spf_issues overrides head_of
spf_report t lc =
    let s = analyze_spf_structure t in
    record {
      present = true;
      valid = true;
      raw = some t;
      issues = spf_issues s (lc.count) (lc.trouble);
      lookup_count = lc.count;
      lookup_breakdown = lc.breakdown;
      redirect_target = head_of (s.redirects);
      redirect_overrides = overrides s;
    }

module _ (get_txt_records : Text → List Text) where
  unfoldable pub lookups_of : Text → Lookups
  unfolding count_spf_lookups
  lookups_of domain = (count_spf_lookups get_txt_records start_depth domain []).0

  unfoldable pub lookup_spf : Text → SpfResult
  unfolding no_spf starts_as spf_report lookups_of
  lookup_spf domain = elim (find (starts_as (text "v=spf1")) (get_txt_records domain)) [
    | none ↦ no_spf
    | some t ↦ spf_report t (lookups_of domain)
  ]
