-- ===== src/MtScorer/Score/Tests.antt =====
-- Runs of `score_email` of app/mt_scorer.py.
use dmarc_geeks.Common.{lower}
use dmarc_geeks.Common.{is_digit}
use dmarc_geeks.Common.{Text, [], false, none, refl, some, text, true, ◌++◌, ◌∷◌, ◌≡◌}
use dmarc_geeks.MtScorer.{Message, World}
use dmarc_geeks.MtScorer.Headers.{extract_sender_ip, last_of, pairs, in_key}
use dmarc_geeks.MtScorer.Score.{score_email}
use dmarc_geeks.MtScorer.Score.Bounds.{IsScored, score_email-IsScored}
use dmarc_geeks.MtScorer.Score.Sender.{extract_sender_ip_from}

abbrev hop : Text
hop = text "from mail.example.org (mail.example.org [192.0.2.1]) by mx"

abbrev mail : Message
mail = record {
  headers =
      (text "From", text "a@example.org")
      ∷ (text "Received", hop)
      ∷ (text "Authentication-Results", text "mx; spf=pass dkim=pass dmarc=fail")
      ∷ [];
  parts = record { content_type = text "text/plain"; body = text "hello" } ∷ [];
}

abbrev world : World
world = record {
  parseaddr = λ s. s;
  to_float = λ s. none;
  txt = λ d. [];
  mx = λ d. (10, text "mx.example.org") ∷ [];
  ptr_of = λ ip. some (text "mail.example.org");
  blacklist = λ ip. some [];
  is_alpha = λ c. true;
  is_upper = λ c. false;
}

results_run : pairs (in_key []) (text "mx; spf=Pass x=") ≡ (text "spf", text "pass") ∷ []
unfolding pairs is_digit lower
results_run = refl

score_email-IsScored_example :
    IsScored ((score_email world mail).checks) ((score_email world mail).total)
score_email-IsScored_example = score_email-IsScored world mail

last_hop :
    last_of (hop ∷ [])
    ≡ some (text "from " ++ text "mail.example.org (mail.example.org [192.0.2.1]) by mx")
unfolding last_of
last_hop = refl

extract_sender_ip_from_example : extract_sender_ip (hop ∷ []) ≡ some (text "f")
extract_sender_ip_from_example =
    extract_sender_ip_from (hop ∷ []) (text "mail.example.org (mail.example.org [192.0.2.1]) by mx")
      last_hop
