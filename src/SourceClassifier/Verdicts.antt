-- ===== src/SourceClassifier/Verdicts.antt =====
-- What the verdicts of `classify_source` of app/source_classifier.py stand for.
use dmarc_geeks.Common.{
  Bool, Bool-cases, List, Option, Text, [], all, arith, false, find, inl, inr, none, not, refl,
  some, subst_some, true, ◌*◌, ◌+◌, ◌<◌, ◌||◌, ◌∷◌, ◌≡◌, ◌≢◌, ◌≤◌,
}
use dmarc_geeks.SourceClassifier.Providers.{spoofer, Provider, provider_patterns, matches_host}
use dmarc_geeks.SourceClassifier.Rules.{
  normal_host, with_flags, Source, Verdict, rate_below, provider_of, is_mixed, by_rate,
  classify_source, IsSuspect, is_spoofer,
}

abbrev is_kind : Provider → Bool
is_kind p = not (elim (p.category) [ spoofer ↦ true | _ ↦ false ])

find-all :
    (p q : Provider → Bool) (xs : List Provider) (a : Provider)
    → all q xs ≡ true
    → find p xs ≡ some a
    → q a ≡ true
find-all p q [] a h e = cc
find-all p q (x ∷ xs) a h e = elim (Bool-cases (p x)) [
  | inl hit ↦ subst_some (λ y. q y ≡ true) x a (rw hit at e) (ground (arith, h))
  | inr miss ↦ find-all p q xs a (ground (arith, h)) (rw miss at e)
]

provider_of-is_kind : (host : Text) (p : Provider) → provider_of host ≡ some p → is_kind p ≡ true
unfolding provider_of
provider_of-is_kind [] p e = cc
provider_of-is_kind (c ∷ s) p e =
    find-all (matches_host (normal_host (c ∷ s))) is_kind provider_patterns p refl e

by_rate-suspect :
    (s : Source)
    → is_spoofer (by_rate s) ≡ true
    → (50 < s.fail_count) × (100 * s.pass_count < 30 * s.total_count) × (s.days_seen ≤ 7)
unfolding by_rate rate_below is_mixed
by_rate-suspect s h = ground arith

is_spoofer-with_flags :
    (s : Source) (o : Option Verdict) → is_spoofer (with_flags s o) ≡ is_spoofer o
is_spoofer-with_flags s none = refl
is_spoofer-with_flags s (some v) = refl

by_rate-ne-none :
    (s : Source) → s.total_count ≡ s.pass_count + s.fail_count → with_flags s (by_rate s) ≢ none
unfolding by_rate is_mixed
by_rate-ne-none s h = ground (arith, h)

-- A source is called a spoofer only where it is not in the allowlist, no own MX and of no known
-- provider, and it has more than 50 failures, a pass rate below 30 % and at most seven days.
pub classify_source-IsSuspect : (s : Source) → is_spoofer (classify_source s) ≡ true → IsSuspect s
unfolding classify_source
classify_source-IsSuspect s h =
    by_owner (s.is_in_allowlist || s.is_mx_ip) (provider_of (s.hostname)) refl refl
  where
    by_owner :
        (o : Bool) (p : Option Provider)
        → (s.is_in_allowlist || s.is_mx_ip) ≡ o
        → provider_of (s.hostname) ≡ p
        → IsSuspect s
    by_owner true p e f = absurd (cc (rw (classify_source, e) at h))
    by_owner false (some p) e f =
        absurd
          (ground (arith, provider_of-is_kind (s.hostname) p f, rw (classify_source, e, f) at h))
    by_owner false none e f =
        let suspect =
          by_rate-suspect s
            (rw (← is_spoofer-with_flags s (by_rate s)) (rw (classify_source, e, f) at h)) in
        record {
          not_own = e;
          no_provider = f;
          failures = suspect.0;
          few_passes = suspect.1;
          fresh = suspect.2;
        }

-- The classification raises no exception where the total is the sum of the passes and failures.
pub classify_source-ne-none :
    (s : Source) → s.total_count ≡ s.pass_count + s.fail_count → classify_source s ≢ none
unfolding classify_source
classify_source-ne-none s h = ground (arith, by_rate-ne-none s h)
