-- ===== src/MtScorer/Score.antt =====
-- app/mt_scorer.py: `score_email`, which runs the checks and adds them up.
pub mod Bounds
pub mod Sender
mod Tests
use dmarc_geeks.MtScorer.Auth.{after_at, spf_check, dkim_check, dmarc_check, fetch_dmarc_record}
use dmarc_geeks.MtScorer.Network.{
  host_checks, tls_check, dnsbl_checks, rspamd_check, rspamd_score, mx_checks,
}
use dmarc_geeks.MtScorer.Body.{
  bodies, round_div, unsubscribe_check, subject_check, ratio_check, html_checks, bodies,
}
use dmarc_geeks.MtScorer.Headers.{
  extract_sender_ip, parse_authentication_results, extract_helo, extract_tls,
}
use dmarc_geeks.Common.{
  Bool, List, Option, Text, [], false, filter, if◌then◌else◌, lower, ltb, min, none, or_else,
  or_none, some, sum_by, text, true, ℕ, ◌*◌, ◌++◌, ◌∷◌,
}
use dmarc_geeks.MtScorer.{
  Status, pass, fail, warn, skip, get_first, CheckResult, get_all, Message, World,
}

-- What the mail is scored on: `ScoreBreakdown` without the texts it passes on.
pub record ScoreBreakdown : Type 0 where
  -- In hundredths of a point.
  pub total : ℕ
  pub checks : List CheckResult
  pub sender_ip : Option Text
  pub sender_domain : Option Text

unfoldable pub sender_domain_of : World → Message → Option Text
unfolding get_first after_at
sender_domain_of w msg = elim (after_at (w.parseaddr (get_first msg (text "From")))) [
  | none ↦ none
  | some d ↦ some (lower d)
]

unfoldable pub received : Message → List Text
unfolding get_all
received msg = get_all (text "Received") (msg.headers)

unfoldable pub auth_checks : World → Message → List CheckResult
unfolding parse_authentication_results spf_check dkim_check dmarc_check fetch_dmarc_record
    sender_domain_of get_first get_all
auth_checks w msg =
    let ar =
      parse_authentication_results [] (get_all (text "Authentication-Results") (msg.headers)) in
    spf_check ar
    ∷ dkim_check ar (get_first msg (text "DKIM-Signature"))
    ∷ dmarc_check ar (elim (or_none (or_else (sender_domain_of w msg) [])) [
      | none ↦ none
      | some d ↦ fetch_dmarc_record w d
    ])
    ∷ []

unfoldable pub network_checks : World → Message → List CheckResult
unfolding host_checks tls_check dnsbl_checks received sender_domain_of extract_sender_ip
    extract_helo extract_tls
network_checks w msg =
    let ip = extract_sender_ip (received msg) in
    host_checks w ip (or_else (sender_domain_of w msg) [])
      (or_else (extract_helo (received msg)) [])
    ++ tls_check (extract_tls (received msg)) ∷ dnsbl_checks w ip

unfoldable pub content_checks : World → Message → List CheckResult
unfolding rspamd_check rspamd_score unsubscribe_check subject_check ratio_check html_checks
    get_first bodies
content_checks w msg =
    rspamd_check (rspamd_score w msg)
    ∷ unsubscribe_check msg
    ∷ subject_check w (get_first msg (text "Subject"))
    ∷ ratio_check (msg.parts)
    ∷ html_checks (bodies (text "text/html") (msg.parts))

-- `breakdown.checks`, in the order of the source.
unfoldable pub checks_of : World → Message → List CheckResult
unfolding auth_checks network_checks content_checks mx_checks sender_domain_of
checks_of w msg =
    auth_checks w msg
    ++ (network_checks w msg ++ (content_checks w msg ++ mx_checks w (sender_domain_of w msg)))

abbrev pub is_applicable : CheckResult → Bool
is_applicable c = elim (c.status) [ pass ↦ true | fail ↦ true | warn ↦ true | skip ↦ false ]

unfoldable pub applicable_max : List CheckResult → ℕ
applicable_max cs = sum_by (λ c. c.max_score) (filter is_applicable cs)

unfoldable pub earned : List CheckResult → ℕ
earned cs = sum_by (λ c. c.score) (filter is_applicable cs)

-- `breakdown.total` of the checks, in hundredths: rounded to the nearest, and not above ten points.
unfoldable pub total_of : List CheckResult → ℕ
unfolding applicable_max earned round_div
total_of cs =
    if ltb 0 (applicable_max cs)
    then min 1000 (round_div (1000 * earned cs) (applicable_max cs))
    else 0

unfoldable pub score_email : World → Message → ScoreBreakdown
unfolding checks_of total_of sender_domain_of extract_sender_ip received
score_email w msg = record {
  total = total_of (checks_of w msg);
  checks = checks_of w msg;
  sender_ip = extract_sender_ip (received msg);
  sender_domain = sender_domain_of w msg;
}
