-- ===== src/MtScorer/Body.antt =====
-- app/mt_scorer.py: the checks of `score_email` on the subject, the list headers and the bodies.
use dmarc_geeks.Common.{
  Bool, List, Option, Text, [], all, any, false, filter, if◌then◌else◌, is_space, leb, length,
  lstrip_by, ltb, max, none, not, some, split, suc, sum_by, text, zero, ℕ, ◌%◌, ◌&&◌, ◌*◌, ◌++◌,
  ◌-◌, ◌/◌, ◌==◌, ◌||◌, ◌∷◌, nat_eq, text_eq,
}
use dmarc_geeks.MtScorer.{
  pass, fail, warn, list_unsub, subject_caps, html_text, html_dangerous, html_alt, short_urls,
  counted, full, has_header, CheckResult, World, Part, get_all, Message, skipped,
}
use dmarc_geeks.MtScorer.Scan.{after, span, at_boundary, found}

-- `is_bulk_mail`.
unfoldable pub is_bulk_mail : Message → Bool
unfolding has_header get_all
is_bulk_mail msg =
    ltb 5 (sum_by (λ a. length (split b',' a)) (get_all (text "To") (msg.headers)))
    || has_header (text "List-Id") msg
    || has_header (text "List-Help") msg
    || has_header (text "Precedence") msg

unfoldable pub unsubscribe_check : Message → CheckResult
unfolding is_bulk_mail has_header
unsubscribe_check msg =
    if has_header (text "List-Unsubscribe") msg
    then counted list_unsub pass full
    else if is_bulk_mail msg
    then counted list_unsub warn 3000
    else skipped list_unsub

-- Half of the letters are capitals, and there are six.
unfoldable pub shouts : World → Text → Bool
shouts w subject =
    let letters = filter (w.is_alpha) subject in
    leb (length letters) (2 * length (filter (w.is_upper) letters)) && leb 6 (length letters)

unfoldable pub subject_check : World → Text → CheckResult
unfolding shouts
subject_check w subject =
    if shouts w subject then counted subject_caps warn 0 else counted subject_caps pass full

-- The bodies of a content type, one after the other.
unfoldable pub bodies : Text → List Part → Text
bodies ct [] = []
bodies ct (p ∷ ps) =
    let rest = bodies ct ps in if p.content_type == ct then p.body ++ rest else rest

unfoldable pub has_part : Text → List Part → Bool
has_part ct ps = any (λ p. p.content_type == ct) ps

-- `round(a / b)`: to the nearest, ties to the even number.
unfoldable pub round_div : ℕ → ℕ → ℕ
round_div a b =
    if ltb (2 * (a % b)) b || (2 * (a % b) == b && a / b % 2 == 0) then a / b else suc (a / b)

unfoldable pub ratio_check : List Part → CheckResult
unfolding bodies has_part round_div
ratio_check parts =
    let html = bodies (text "text/html") parts in
    let plain = bodies (text "text/plain") parts in
    if has_part (text "text/html") parts && has_part (text "text/plain") parts
    then if ltb (round_div (100 * length plain) (max 1 (length html))) 10
      then counted html_text warn 5000
      else counted html_text pass full
    else if has_part (text "text/plain") parts
    then counted html_text pass 8000
    else counted html_text warn 0

-- A literal and `\b`.
literal_at : Text → Bool → Text → Option Text
unfolding after at_boundary
literal_at word prev s = elim (after word s) [
  | none ↦ none
  | some rest ↦ if at_boundary rest then some rest else none
]

-- A literal, spaces and a character.
spaced_at : Text → ℕ → Text → Option Text
unfolding after
spaced_at word mark s = elim (after word s) [
  | none ↦ none
  | some rest ↦ after (mark ∷ []) (lstrip_by is_space rest)
]

attribute_at : Text → Bool → Text → Option Text
unfolding spaced_at
attribute_at word prev s = if prev then none else spaced_at word b'=' s

unfoldable pub is_dangerous : Text → Bool
unfolding found literal_at spaced_at attribute_at
is_dangerous html =
    any (λ tag. found (literal_at tag) html)
      (text "<script" ∷ text "<iframe" ∷ text "<embed" ∷ text "<object" ∷ text "<form" ∷ [])
    || found (λ prev s. spaced_at (text "javascript") b':' s) html
    || any (λ handler. found (attribute_at handler) html)
        (text "onclick" ∷ text "onload" ∷ text "onerror" ∷ text "onmouseover" ∷ [])

unfoldable pub dangerous_check : Text → CheckResult
unfolding is_dangerous
dangerous_check html =
    if is_dangerous html then counted html_dangerous fail 0 else counted html_dangerous pass full

-- `<img\b[^>]*>` at a position: the tag up to its end.
img_at : Text → Option Text
unfolding literal_at span
img_at s = elim (literal_at (text "<img") false s) [
  | none ↦ none
  | some rest ↦ elim ((span (λ c. not (c == b'>')) rest).1) [
    | [] ↦ none
    | c ∷ t ↦ some (text "<img" ++ ((span (λ d. not (d == b'>')) rest).0 ++ b'>' ∷ []))
  ]
]

-- `re.findall`, which goes on behind a match.
unfoldable pub img_tags : ℕ → Text → List Text
unfolding img_at
img_tags n [] = []
img_tags (suc n) (c ∷ s) = img_tags n s
img_tags zero (c ∷ s) = elim (img_at (c ∷ s)) [
  | none ↦ img_tags zero s
  | some tag ↦ tag ∷ img_tags (length tag - 1) s
]

unfoldable pub has_alt : Text → Bool
unfolding found attribute_at
has_alt tag = found (attribute_at (text "alt")) tag

unfoldable pub alt_check : Text → CheckResult
unfolding img_tags has_alt
alt_check html =
    if all has_alt (img_tags zero html)
    then counted html_alt pass full
    else counted html_alt warn 3000

short_hosts : List Text
short_hosts =
    text "bit.ly"
    ∷ text "t.co"
    ∷ text "goo.gl"
    ∷ text "ow.ly"
    ∷ text "tinyurl.com"
    ∷ text "is.gd"
    ∷ text "buff.ly"
    ∷ text "rebrand.ly"
    ∷ text "shorturl.at"
    ∷ text "rb.gy"
    ∷ text "cutt.ly"
    ∷ []

-- `\bhttps?://host\b` at a position.
link_at : Text → Bool → Text → Option Text
unfolding literal_at
link_at host prev s = if prev then none else elim (literal_at (text "http://" ++ host) false s) [
  | some rest ↦ some rest
  | none ↦ literal_at (text "https://" ++ host) false s
]

unfoldable pub short_check : Text → CheckResult
unfolding found link_at short_hosts
short_check html =
    if any (λ host. found (link_at host) html) short_hosts
    then counted short_urls warn 0
    else counted short_urls pass full

-- The checks that run only with an HTML body.
unfoldable pub html_checks : Text → List CheckResult
unfolding dangerous_check alt_check short_check
html_checks [] = []
html_checks (c ∷ s) = dangerous_check (c ∷ s) ∷ alt_check (c ∷ s) ∷ short_check (c ∷ s) ∷ []
