-- ===== src/Stats/Labels.antt =====
-- app/stats.py: SENDER_RULES and `sender_label`. The regular expressions are written out by their
-- shapes; a word character is an ASCII letter, a digit or "_", and host names have no line break.
use dmarc_geeks.Common.{
  Bool, List, Option, String, Text, [], all, any, drop, find, if◌then◌else◌, is_empty, join, leb,
  length, lower, lstrip_by, map, none, not, rstrip_by, some, split, starts_with, suc, text, true,
  zero, ℕ, ◌%◌, ◌&&◌, ◌++◌, ◌==◌, ◌||◌, ◌∷◌, nat_eq, text_eq, int_eq, option_eq,
}

is_word : ℕ → Bool
is_word c = (leb 48 c && leb c 57) || (leb 65 c && leb c 90) || c == 95 || (leb 97 c && leb c 122)

-- `[\w.-]`
is_host : ℕ → Bool
unfolding is_word
is_host c = is_word c || c == b'.' || c == b'-'

-- The shapes: `lit[\w.-]*$`, `lit$`, `lit[\w.-]+$`, `\blit`, and `lit` anywhere.
pub data Shape : Type 0 where
  then_host : Text → Shape
  at_end : Text → Shape
  then_some_host : Text → Shape
  at_word : Text → Shape
  anywhere : Text → Shape

pub record Rule : Type 0 where
  pub shapes : List Shape
  pub label : Text
  pub color : Text

abbrev rule : List Shape → String → String → Rule
rule s l c = record { shapes = s; label = text l; color = text c }

-- A match that starts here; `last` is the character before.
starts_here : Shape → Option ℕ → Text → Bool
unfolding is_host is_word starts_with
starts_here (then_host lit) last s = starts_with s lit && all is_host (drop (length lit) s)
starts_here (at_end lit) last s = s == lit
starts_here (then_some_host lit) last s =
    let rest = drop (length lit) s in starts_with s lit && not (is_empty rest) && all is_host rest
starts_here (at_word lit) last s =
    starts_with s lit && (elim last [ none ↦ true | some c ↦ not (is_word c) ])
starts_here (anywhere lit) last s = starts_with s lit

-- `pat.search(s)`
search_from : Shape → Option ℕ → Text → Bool
unfolding starts_here
search_from p last [] = starts_here p last []
search_from p last (c ∷ s) =
    let rest = search_from p (some c) s in if starts_here p last (c ∷ s) then true else rest

found : Rule → Text → Bool
unfolding search_from
found r h = any (λ p. search_from p none h) (r.shapes)

providers : List Rule
providers =
    rule (then_host (text "google") ∷ at_end (text ".gmail.com") ∷ []) "Google" "#4285F4"
    ∷ rule
        (then_host (text "microsoft")
          ∷ at_end (text ".outlook.com")
          ∷ at_end (text "protection.outlook.com")
          ∷ [])
        "Microsoft 365" "#0078D4"
    ∷ rule
        (then_host (text "mailchimp") ∷ at_end (text "mcdlv.net") ∷ at_end (text "mcsv.net") ∷ [])
        "Mailchimp" "#FFE01B"
    ∷ rule (then_host (text "sendgrid") ∷ []) "SendGrid" "#1A82E2"
    ∷ rule (then_host (text "klaviyo") ∷ []) "Klaviyo" "#FF7B66"
    ∷ rule (at_end (text "amazonses.com") ∷ at_end (text ".ses.amazonaws.com") ∷ []) "Amazon SES"
        "#FF9900"
    ∷ rule (then_host (text "yahoo") ∷ at_end (text "yahoodns.net") ∷ []) "Yahoo" "#6001D2"
    ∷ rule (then_some_host (text "protonmail.") ∷ []) "ProtonMail" "#6D4AFF"
    ∷ []

others : List Rule
others =
    rule (at_word (text "spoof") ∷ []) "Verdächtig" "#dc2626"
    ∷ rule (at_word (text "ci-") ∷ at_word (text "ci_") ∷ []) "CI/Build" "#64748b"
    ∷ rule
        (anywhere (text "eigene-server")
          ∷ anywhere (text "eigeneserver")
          ∷ anywhere (text "own-server")
          ∷ anywhere (text "ownserver")
          ∷ anywhere (text "self-host")
          ∷ anywhere (text "selfhost")
          ∷ [])
        "Eigene Server" "#0ea5e9"
    ∷ []

unfoldable pub sender_rules : List Rule
unfolding providers others
sender_rules = providers ++ others

palette : List Text
palette = map text (
    "#2563eb" ∷ "#10b981" ∷ "#f59e0b" ∷ "#ec4899" ∷ "#8b5cf6" ∷ "#06b6d4" ∷ "#84cc16" ∷ "#f43f5e"
    ∷ "#14b8a6" ∷ "#a855f7" ∷ [])

last_two : List Text → List Text
last_two [] = []
last_two (a ∷ []) = a ∷ []
last_two (a ∷ b ∷ []) = a ∷ b ∷ []
last_two (a ∷ b ∷ c ∷ r) = last_two (b ∷ c ∷ r)

-- `host.lower().strip(".")`
bare : Text → Text
unfolding lower lstrip_by rstrip_by
bare host = rstrip_by (λ c. c == b'.') (lstrip_by (λ c. c == b'.') (lower host))

-- The label of a name that no rule finds.
domain_of : Text → Text
unfolding split last_two join
domain_of h =
    let parts = split b'.' h in if leb 2 (length parts) then join (text ".") (last_two parts) else h

unfoldable pub sender_label : Option Text → Text → Text
unfolding bare found sender_rules domain_of
sender_label none ip = text "IP " ++ ip
sender_label (some []) ip = text "IP " ++ ip
sender_label (some (c ∷ host)) ip =
    let h = bare (c ∷ host) in
    elim (find (λ r. found r h) sender_rules) [ none ↦ domain_of h | some r ↦ r.label ]

nth : ℕ → List Text → Text
nth n [] = []
nth zero (x ∷ xs) = x
nth (suc n) (x ∷ xs) = nth n xs

unfoldable pub sender_color : Text → ℕ → Text
unfolding sender_rules palette nth
sender_color label i = elim (find (λ r. r.label == label) sender_rules) [
  | none ↦ nth (i % length palette) palette
  | some r ↦ r.color
]
