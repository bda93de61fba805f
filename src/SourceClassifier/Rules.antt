-- ===== src/SourceClassifier/Rules.antt =====
-- `classify_source` of app/source_classifier.py.
use dmarc_geeks.Common.{
  Bool, List, Option, Text, [], false, find, if◌then◌else◌, leb, lower, lstrip_by, ltb, none, not,
  rstrip_by, some, true, ℕ, ◌&&◌, ◌*◌, ◌++◌, ◌+◌, ◌-◌, ◌<◌, ◌==◌, ◌||◌, ◌∷◌, ◌≡◌, ◌≤◌, nat_eq,
  text_eq,
}
use dmarc_geeks.SourceClassifier.Providers.{
  Category, own, mailbox, forwarder, spoofer, unknown, Provider, provider_patterns, matches_host,
}

pub data Confidence : Type 0 where
  high : Confidence
  medium : Confidence
  low : Confidence

pub data Flag : Type 0 where
  low_pass_rate : Flag
  recent : Flag
  high_volume : Flag
  new : Flag

-- The arguments of `classify_source`; a missing hostname is the empty text.
pub record Source : Type 0 where
  pub hostname : Text
  pub pass_count : ℕ
  pub fail_count : ℕ
  pub total_count : ℕ
  pub is_mx_ip : Bool
  pub is_in_allowlist : Bool
  pub days_seen : ℕ

-- The result without its label, which is a display text.
pub record Verdict : Type 0 where
  pub category : Category
  pub confidence : Confidence
  pub provider : Option Text
  pub flags : List Flag

abbrev verdict : Category → Confidence → Option Text → List Flag → Verdict
verdict c k p fs = record { category = c; confidence = k; provider = p; flags = fs }

-- `pass_rate < n` and `pass_rate >= n`; without mails the rate is 0.
unfoldable pub rate_below : Source → ℕ → Bool
rate_below s n =
    if s.total_count == 0 then ltb 0 n else ltb (100 * s.pass_count) (n * s.total_count)

-- `hostname.strip(".").lower()`
unfoldable pub normal_host : Text → Text
normal_host s = lower (rstrip_by (λ d. d == b'.') (lstrip_by (λ d. d == b'.') s))

unfoldable pub provider_of : Text → Option Provider
provider_of [] = none
provider_of (c ∷ s) = find (matches_host (normal_host (c ∷ s))) provider_patterns

unfoldable pub of_provider : Source → Provider → Verdict
unfolding rate_below
of_provider s p =
    verdict (p.category) high (some (p.name))
      (if rate_below s 50 && ltb 10 (s.total_count) then low_pass_rate ∷ [] else [])

-- `abs(fail_count - pass_count) / total_count < 0.3`: `none` where the division fails.
unfoldable pub is_mixed : Source → Option Bool
is_mixed s =
    if ltb 0 (s.fail_count) && ltb 0 (s.pass_count)
    then if s.total_count == 0
      then none
      else some (
          ltb (10 * ((s.fail_count - s.pass_count) + (s.pass_count - s.fail_count)))
            (3 * s.total_count))
    else some false

abbrev of_mixed : Option Bool → Option Verdict
of_mixed none = none
of_mixed (some true) = some (verdict forwarder low none [])
of_mixed (some false) = some (verdict unknown low none [])

-- The rules by volume and pass rate.
unfoldable pub by_rate : Source → Option Verdict
unfolding rate_below is_mixed
by_rate s =
    if leb 100 (s.total_count) && not (rate_below s 95)
    then some (verdict mailbox medium none [])
    else if leb 10 (s.total_count) && not (rate_below s 80)
    then some (verdict unknown medium none [])
    else if leb 5 (s.total_count) && rate_below s 30
    then if ltb 50 (s.fail_count) && leb (s.days_seen) 7
      then some (verdict spoofer medium none (low_pass_rate ∷ recent ∷ []))
      else some (verdict unknown low none (low_pass_rate ∷ []))
    else of_mixed (is_mixed s)

-- The flags that are added at the end.
abbrev late_flags : Source → List Flag
late_flags s =
    (if leb 1000 (s.total_count) then high_volume ∷ [] else [])
    ++ (if leb (s.days_seen) 1 then new ∷ [] else [])

abbrev pub with_flags : Source → Option Verdict → Option Verdict
with_flags s none = none
with_flags s (some v) = some (record v { flags = v.flags ++ late_flags s })

-- `classify_source`: `none` where it raises ZeroDivisionError.
unfoldable pub classify_source : Source → Option Verdict
unfolding provider_of of_provider by_rate
classify_source s =
    if s.is_in_allowlist || s.is_mx_ip
    then some (verdict own high none [])
    else elim (provider_of (s.hostname)) [
      | some p ↦ some (of_provider s p)
      | none ↦ with_flags s (by_rate s)
    ]

-- What the verdict "spoofer" stands for.
pub record IsSuspect (s : Source) : Type 0 where
  pub not_own : (s.is_in_allowlist || s.is_mx_ip) ≡ false
  pub no_provider : provider_of (s.hostname) ≡ none
  pub failures : 50 < s.fail_count
  pub few_passes : 100 * s.pass_count < 30 * s.total_count
  pub fresh : s.days_seen ≤ 7

abbrev pub is_spoofer : Option Verdict → Bool
is_spoofer none = false
is_spoofer (some v) = elim (v.category) [ spoofer ↦ true | _ ↦ false ]
