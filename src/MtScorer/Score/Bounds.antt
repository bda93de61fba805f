-- ===== src/MtScorer/Score/Bounds.antt =====
-- app/mt_scorer.py: the bounds on the checks and on the total of `score_email`.
use native.Mathlib.Nat.{mul-le-mul_right}
use dmarc_geeks.Common.{
  All, All-append, Bool, Bool-cases, List, Option, Text, [], arith, false, if◌then◌else◌, inl, inr,
  leb, ltb, none, or_else, refl, some, suc, text, true, ℕ, ℤ, ◌%◌, ◌&&◌, ◌*◌, ◌+◌, ◌/◌, ◌<◌, ◌==◌,
  ◌||◌, ◌∷◌, ◌≡◌, ◌≤◌, nat_eq, text_eq, pos, negsuc,
}
use dmarc_geeks.MtScorer.{get_first, CheckResult, World, Message, weight, Part}
use dmarc_geeks.MtScorer.Auth.{spf_check, dkim_check, dmarc_check}
use dmarc_geeks.MtScorer.Network.{
  ptr_check, rdns_check, host_checks, tls_check, dnsbl_check, dnsbl_checks, rspamd_check,
  rspamd_share, mx_check, mx_checks,
}
use dmarc_geeks.MtScorer.Body.{
  unsubscribe_check, subject_check, ratio_check, dangerous_check, alt_check, short_check,
  html_checks, round_div,
}
use dmarc_geeks.MtScorer.Score.{
  applicable_max, earned, total_of, checks_of, auth_checks, score_email, network_checks,
  content_checks, extract_sender_ip, sender_domain_of, received, extract_helo, extract_tls,
}

-- A check gives at most its maximum, and its maximum is at most its weight.
abbrev pub IsFair : CheckResult → Type 0
IsFair c = (c.score ≤ c.max_score) × (c.max_score ≤ weight (c.key) * 10000)

spf_check-IsFair : (ar : List (Text × Text)) → IsFair (spf_check ar)
unfolding spf_check
spf_check-IsFair ar = ground arith

dkim_check-IsFair : (ar : List (Text × Text)) (s : Text) → IsFair (dkim_check ar s)
unfolding dkim_check
dkim_check-IsFair ar s = ground arith

dmarc_check-IsFair : (ar : List (Text × Text)) (r : Option Text) → IsFair (dmarc_check ar r)
unfolding dmarc_check
dmarc_check-IsFair ar r = ground arith

rspamd_share_le : (rs : ℤ) → rspamd_share rs ≤ 10000
unfolding rspamd_share
rspamd_share_le (pos n) = ground arith
rspamd_share_le (negsuc n) = omega arith

rspamd_check-IsFair : (rs : Option ℤ) → IsFair (rspamd_check rs)
unfolding rspamd_check
rspamd_check-IsFair none = ground arith
rspamd_check-IsFair (some rs) = ground (arith, rspamd_share_le rs)

ratio_check-IsFair : (ps : List Part) → IsFair (ratio_check ps)
unfolding ratio_check
ratio_check-IsFair ps = ground arith

host_checks-IsFair :
    (w : World) (ip : Option Text) (sender helo : Text) → All IsFair (host_checks w ip sender helo)
unfolding host_checks ptr_check rdns_check
host_checks-IsFair w none sender helo = tt
host_checks-IsFair w (some ip) sender helo = ground arith

dnsbl_checks-IsFair : (w : World) (ip : Option Text) → All IsFair (dnsbl_checks w ip)
unfolding dnsbl_checks dnsbl_check
dnsbl_checks-IsFair w none = tt
dnsbl_checks-IsFair w (some ip) = ground arith

mx_checks-IsFair : (w : World) (domain : Option Text) → All IsFair (mx_checks w domain)
unfolding mx_checks mx_check
mx_checks-IsFair w none = tt
mx_checks-IsFair w (some []) = tt
mx_checks-IsFair w (some (c ∷ s)) = ground arith

dangerous_check-IsFair : (html : Text) → IsFair (dangerous_check html)
unfolding dangerous_check
dangerous_check-IsFair html = ground arith

alt_check-IsFair : (html : Text) → IsFair (alt_check html)
unfolding alt_check
alt_check-IsFair html = ground arith

short_check-IsFair : (html : Text) → IsFair (short_check html)
unfolding short_check
short_check-IsFair html = ground arith

html_checks-IsFair : (html : Text) → All IsFair (html_checks html)
unfolding html_checks
html_checks-IsFair [] = tt
html_checks-IsFair (c ∷ s) =
    (dangerous_check-IsFair (c ∷ s), (alt_check-IsFair (c ∷ s), (short_check-IsFair (c ∷ s), tt)))

tls_check-IsFair : (v : Option Text) → IsFair (tls_check v)
unfolding tls_check
tls_check-IsFair v = ground arith

unsubscribe_check-IsFair : (msg : Message) → IsFair (unsubscribe_check msg)
unfolding unsubscribe_check
unsubscribe_check-IsFair msg = ground arith

subject_check-IsFair : (w : World) (s : Text) → IsFair (subject_check w s)
unfolding subject_check
subject_check-IsFair w s = ground arith

auth_checks-IsFair : (w : World) (msg : Message) → All IsFair (auth_checks w msg)
unfolding auth_checks
auth_checks-IsFair w msg =
    (spf_check-IsFair _, (dkim_check-IsFair _ _, (dmarc_check-IsFair _ _, tt)))

network_checks-IsFair : (w : World) (msg : Message) → All IsFair (network_checks w msg)
unfolding network_checks
network_checks-IsFair w msg =
    All-append IsFair
      (host_checks w ip (or_else (sender_domain_of w msg) [])
        (or_else (extract_helo (received msg)) []))
      (tls_check (extract_tls (received msg)) ∷ dnsbl_checks w ip) (host_checks-IsFair w ip _ _)
      (tls_check-IsFair _, dnsbl_checks-IsFair w _)
  where
    ip : Option Text
    ip = extract_sender_ip (received msg)

content_checks-IsFair : (w : World) (msg : Message) → All IsFair (content_checks w msg)
unfolding content_checks
content_checks-IsFair w msg = (
  rspamd_check-IsFair _,
  (
    unsubscribe_check-IsFair msg,
    (
      subject_check-IsFair w (get_first msg (text "Subject")),
      (ratio_check-IsFair _, html_checks-IsFair _),
    ),
  ),
)

checks_of-IsFair : (w : World) (msg : Message) → All IsFair (checks_of w msg)
unfolding checks_of
checks_of-IsFair w msg = All-append IsFair (auth_checks w msg) _ (auth_checks-IsFair w msg) (
    All-append IsFair (network_checks w msg) _ (network_checks-IsFair w msg) (
      All-append IsFair (content_checks w msg) _ (content_checks-IsFair w msg)
        (mx_checks-IsFair w (sender_domain_of w msg))))

-- The total of the checks that count.
earned_le : (cs : List CheckResult) → All IsFair cs → earned cs ≤ applicable_max cs
unfolding earned applicable_max
earned_le [] h = omega arith
earned_le (c ∷ cs) (f, h) = ground (arith, earned_le cs h)

pub round_div_near :
    (a b : ℕ)
    → 0 < b
    → (2 * (round_div a b * b) ≤ 2 * a + b) × (2 * a ≤ 2 * (round_div a b * b) + b)
unfolding round_div
round_div_near a b h =
    near (a / b) (a % b) (ltb (2 * (a % b)) b || (2 * (a % b) == b && a / b % 2 == 0))
      (omega (arith, h)) (omega (arith, h)) (λ e. ground arith) (λ e. ground arith)
  where
    mul_suc : (q n : ℕ) → suc q * n ≡ q * n + n
    mul_suc q n = omega arith

    near :
        (q r : ℕ) (t : Bool)
        → q * b + r ≡ a
        → r < b
        → (t ≡ true → 2 * r ≤ b)
        → (t ≡ false → b ≤ 2 * r)
        → (2 * ((if t then q else suc q) * b) ≤ 2 * a + b)
          × (2 * a ≤ 2 * ((if t then q else suc q) * b) + b)
    near q r true e l low high = ground (arith, low refl)
    near q r false e l low high = ground (arith, high refl, mul_suc q b)

spf_counts :
    (ar : List (Text × Text)) (cs : List CheckResult) → 0 < applicable_max (spf_check ar ∷ cs)
unfolding spf_check applicable_max
spf_counts ar cs = ground arith

-- What the checks and the total of a mail satisfy.
pub record IsScored (cs : List CheckResult) (total : ℕ) : Type 0 where
  pub fair : All IsFair cs
  pub counts : 0 < applicable_max cs
  pub low : 2 * (total * applicable_max cs) ≤ 2000 * earned cs + applicable_max cs
  pub high : 2000 * earned cs ≤ 2 * (total * applicable_max cs) + applicable_max cs
  pub at_most_ten : total ≤ 1000

-- `applicable_max` is positive as the SPF check always counts.
checks_of-counts : (w : World) (msg : Message) → 0 < applicable_max (checks_of w msg)
unfolding checks_of auth_checks
checks_of-counts w msg = spf_counts _ _

-- A share of at most the whole rounds to at most ten points.
share_le_ten : (t e m : ℕ) → 0 < m → e ≤ m → 2 * (t * m) ≤ 2 * (1000 * e) + m → t ≤ 1000
share_le_ten t e m h l near = elim (Bool-cases (leb t 1000)) [
  | inl k ↦ ground arith
  | inr k ↦ absurd (ground (arith, mul-le-mul_right {m = 1001} {n = t} m (ground arith)))
]

total_of-IsScored :
    (cs : List CheckResult) → All IsFair cs → 0 < applicable_max cs → IsScored cs (total_of cs)
unfolding total_of
total_of-IsScored cs f h =
    let near = round_div_near (1000 * earned cs) (applicable_max cs) h in
    let le =
      share_le_ten (round_div (1000 * earned cs) (applicable_max cs)) (earned cs)
        (applicable_max cs) h (earned_le cs f) (near.0) in
    let same : total_of cs ≡ round_div (1000 * earned cs) (applicable_max cs) = ground arith in
    record {
      fair = f;
      counts = h;
      low = rw same (omega (arith, near));
      high = rw same (omega (arith, near));
      at_most_ten = rw same le;
    }

-- In every mail's score each check gives at most its maximum, which is at most its weight; some
-- check counts, so that the total is a quotient by a positive number; the total, in hundredths, is
-- within half a hundredth of ten times the share of the counting checks' maximum that was earned;
-- and it is at most 10.00.
pub score_email-IsScored :
    (w : World) (msg : Message) → IsScored ((score_email w msg).checks) ((score_email w msg).total)
unfolding score_email
score_email-IsScored w msg =
    total_of-IsScored (checks_of w msg) (checks_of-IsFair w msg) (checks_of-counts w msg)
