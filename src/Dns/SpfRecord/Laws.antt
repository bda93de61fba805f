-- ===== src/Dns/SpfRecord/Laws.antt =====
-- app/dns_utils.py: when `lookup_spf` reports no issue.
use dmarc_geeks.Common.{
  List, Option, Text, [], any, ap, both_nil, arith, false, find, find-any, inl, inr, none, refl,
  some, text, true, ℕ, ◌++◌, ◌<◌, ◌↔◌, ◌∷◌, ◌≡◌, ◌≢◌, ◌⊎◌,
}
use dmarc_geeks.Spf.{Trouble, Lookups}
use dmarc_geeks.Dns.{starts_as}
use dmarc_geeks.Dns.SpfRecord.{
  Structure, SpfResult, spf_issues, lookup_spf, no_spf, spf_report, lookups_of, trouble_issues,
  limit_issues, conflicts, several, policy_issues, redirect_issues, structure_issues, Mechanism,
}

-- How a record without issues ends: with an `all` that is neither neutral nor permissive and without
-- a redirect, or with one redirect and no mechanism.
pub data Ending (s : Structure) : Type 0 where
  strict_all :
      (q : ℕ) → s.all_qualifier ≡ some q → q ≢ b'?' → q ≢ b'+' → s.redirects ≡ [] → Ending s
  one_redirect :
      (r : Text) → s.all_qualifier ≡ none → s.redirects ≡ r ∷ [] → s.mechanisms ≡ [] → Ending s

pub record IsClean (s : Structure) (n : ℕ) (trouble : Option Trouble) : Type 0 where
  pub ending : Ending s
  pub lookups : n < 8
  pub no_trouble : trouble ≡ none

abbrev structure : List Mechanism → Option ℕ → List Text → Option Text → Structure
structure ms aq rs e = record { mechanisms = ms; all_qualifier = aq; redirects = rs; explain = e }

-- The clauses of the issues, by the `all`, the redirects and the mechanisms.
structure-Ending :
    (ms : List Mechanism) (aq : Option ℕ) (rs : List Text) (e : Option Text)
    → structure_issues (structure ms aq rs e) ≡ []
    → Ending (structure ms aq rs e)
unfolding structure_issues several conflicts policy_issues redirect_issues
structure-Ending ms (some q) [] e h =
    strict_all q refl (λ k. ground (arith, h)) (λ k. ground (arith, h)) refl
structure-Ending ms none [] e h = absurd (ground (arith, h))
structure-Ending ms (some q) (r ∷ rs) e h = absurd (ground (arith, h))
structure-Ending [] none (r ∷ []) e h = one_redirect r refl refl refl
structure-Ending (m ∷ ms) none (r ∷ []) e h = absurd (ground (arith, h))
structure-Ending ms none (r ∷ t ∷ rs) e h = absurd (ground (arith, h))

Ending-structure : (s : Structure) → Ending s → structure_issues s ≡ []
unfolding structure_issues several conflicts policy_issues redirect_issues
Ending-structure s (strict_all q a n p r) = rw (a, r) (ground arith)
Ending-structure s (one_redirect t a r m) = rw (a, r, m) refl

-- The issues of a record are none exactly if it ends as Ending says, costs less than 8 lookups and
-- the count met no trouble.
pub spf_issues-IsClean :
    (s : Structure) (n : ℕ) (trouble : Option Trouble)
    → (spf_issues s n trouble ≡ []) ↔ IsClean s n trouble
unfolding spf_issues trouble_issues limit_issues
spf_issues-IsClean s n trouble = (clean, issues)
  where
    lookup_issues :
        (o : Option Trouble) → trouble_issues o ++ limit_issues n ≡ [] → (n < 8) × (o ≡ none)
    lookup_issues none h = (ground (arith, h), refl)
    lookup_issues (some t) h = absurd (ground (arith, h))

    clean :
        structure_issues s ++ (trouble_issues trouble ++ limit_issues n) ≡ [] → IsClean s n trouble
    clean h =
        let (k, l) = both_nil (structure_issues s) _ h in
        let (m, o) = lookup_issues trouble l in
        record {
          ending = structure-Ending s.mechanisms s.all_qualifier s.redirects s.explain k;
          lookups = m;
          no_trouble = o;
        }

    issues :
        IsClean s n trouble → structure_issues s ++ (trouble_issues trouble ++ limit_issues n) ≡ []
    issues c = rw (Ending-structure s c.ending, c.no_trouble) (ground (arith, c.lookups))

-- The record that `lookup_spf` reports on, if there is one. The report is on any lookups, so that
-- a client does not compute them.
module _ (get_txt_records : Text → List Text) (domain : Text) where
  pub lookup_spf-cases :
      ((any (starts_as (text "v=spf1")) (get_txt_records domain) ≡ false)
        × (lookup_spf get_txt_records domain ≡ no_spf))
      ⊎ ((t : Text) × (lc : Lookups) × (any (starts_as (text "v=spf1")) (get_txt_records domain)
            ≡ true)
          × (lookup_spf get_txt_records domain ≡ spf_report t lc))
  unfolding lookup_spf no_spf
  lookup_spf-cases = elim (find-any (starts_as (text "v=spf1")) (get_txt_records domain)) [
    | inl (e, k) ↦ inl (k, absent e)
    | inr (t, e, k, j) ↦ inr (t, lookups_of get_txt_records domain, k, reported t e)
  ]
    where
      absent :
          find (starts_as (text "v=spf1")) (get_txt_records domain) ≡ none
          → lookup_spf get_txt_records domain ≡ no_spf
      absent e = rw (lookup_spf, e) refl

      reported :
          (t : Text)
          → find (starts_as (text "v=spf1")) (get_txt_records domain) ≡ some t
          → lookup_spf get_txt_records domain ≡ spf_report t (lookups_of get_txt_records domain)
      reported t e = ap (λ o. by_record o) e
        where
          by_record : Option Text → SpfResult
          by_record none = no_spf
          by_record (some u) = spf_report u (lookups_of get_txt_records domain)
