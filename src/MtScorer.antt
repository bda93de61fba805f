-- ===== src/MtScorer.antt =====
-- app/mt_scorer.py: the score of a mail. A score is a number of 1/100000 points, so that every
-- product of a weight and a share is exact; the display texts of a check are left out.
pub mod Scan
pub mod Headers
pub mod Auth
pub mod Network
pub mod Body
pub mod Score
use dmarc_geeks.Common.{
  Bool, List, Option, Text, [], if◌then◌else◌, is_empty, lower, none, not, or_else, some, strip, ℕ,
  ℤ, ◌*◌, ◌==◌, ◌∷◌, nat_eq, text_eq,
}

pub data Status : Type 0 where
  pass : Status
  fail : Status
  warn : Status
  skip : Status

pub data Key : Type 0 where
  spf : Key
  dkim : Key
  dmarc : Key
  ptr : Key
  rdns_match : Key
  tls : Key
  dnsbl : Key
  rspamd : Key
  list_unsub : Key
  subject_caps : Key
  html_text : Key
  html_dangerous : Key
  html_alt : Key
  short_urls : Key
  sender_mx : Key

-- `_WEIGHTS`, in tenths of a point.
abbrev pub weight : Key → ℕ
weight spf = 14
weight dkim = 14
weight dmarc = 14
weight ptr = 7
weight rdns_match = 4
weight tls = 6
weight dnsbl = 8
weight rspamd = 14
weight list_unsub = 4
weight subject_caps = 2
weight html_text = 3
weight html_dangerous = 3
weight html_alt = 2
weight short_urls = 2
weight sender_mx = 2

pub record CheckResult : Type 0 where
  pub key : Key
  pub status : Status
  pub score : ℕ
  pub max_score : ℕ

-- A check that counts, with its share of the weight in ten-thousandths.
abbrev pub counted : Key → Status → ℕ → CheckResult
counted k s share = record {
  key = k;
  status = s;
  score = weight k * share;
  max_score = weight k * 10000;
}

abbrev pub full : ℕ
full = 10000

abbrev pub skipped : Key → CheckResult
skipped k = record { key = k; status = skip; score = 0; max_score = 0 }

-- A MIME part with its decoded body, the empty text where decoding fails.
pub record Part : Type 0 where
  pub content_type : Text
  pub body : Text

-- The mail as the `email` package parses it.
pub record Message : Type 0 where
  pub headers : List (Text × Text)
  pub parts : List Part

-- `msg.get_all(name) or []`.
unfoldable pub get_all : Text → List (Text × Text) → List Text
get_all name [] = []
get_all name ((n, v) ∷ hs) =
    let rest = get_all name hs in if lower n == lower name then v ∷ rest else rest

-- `msg.get(name)`.
unfoldable pub get : Text → Message → Option Text
unfolding get_all
get name msg = elim (get_all name (msg.headers)) [ [] ↦ none | v ∷ vs ↦ some v ]

-- `_get_first`.
unfoldable pub get_first : Message → Text → Text
unfolding get
get_first msg name = strip (or_else (get name msg) [])

-- `bool(msg.get(name))`.
unfoldable pub has_header : Text → Message → Bool
unfolding get
has_header name msg = not (is_empty (or_else (get name msg) []))

-- What the scorer asks of the network and of Python's libraries. A failed DNS query gives no
-- record, as in the source; `blacklist` is `none` where `check_ip` raises.
pub record World : Type 0 where
  pub parseaddr : Text → Text
  -- `float`, in thousandths.
  pub to_float : Text → Option ℤ
  pub txt : Text → List Text
  pub mx : Text → List (ℕ × Text)
  pub ptr_of : Text → Option Text
  pub blacklist : Text → Option (List Text)
  pub is_alpha : ℕ → Bool
  pub is_upper : ℕ → Bool
