-- ===== src/MtScorer/Scan.antt =====
-- The regular expressions of app/mt_scorer.py as scanners. The word characters of `\b` are those
-- of ASCII.
use dmarc_geeks.Common.{
  Bool, Option, Text, [], false, if◌then◌else◌, is_digit, leb, lower_char, none, not, some, true, ℕ,
  ◌&&◌, ◌==◌, ◌||◌, ◌∷◌, nat_eq, text_eq,
}

abbrev pub is_lower_letter : ℕ → Bool
is_lower_letter c = leb 97 c && leb c 122

abbrev pub is_letter : ℕ → Bool
is_letter c = is_lower_letter c || (leb 65 c && leb c 90)

abbrev pub is_word : ℕ → Bool
is_word c = is_letter c || is_digit c || c == b'_'

-- `[A-Za-z0-9.-]`.
abbrev pub is_host : ℕ → Bool
is_host c = is_letter c || is_digit c || c == b'.' || c == b'-'

-- A prefix without regard to case, with what follows it.
unfoldable pub after : Text → Text → Option Text
after [] s = some s
after (p ∷ ps) [] = none
after (p ∷ ps) (c ∷ s) = let rest = after ps s in if lower_char c == p then rest else none

-- The longest front of characters that pass, and the rest.
unfoldable pub span : (ℕ → Bool) → Text → Text × Text
span p [] = ([], [])
span p (c ∷ s) = let rest = span p s in if p c then (c ∷ rest.0, rest.1) else ([], c ∷ s)

-- `\b` after a word character.
unfoldable pub at_boundary : Text → Bool
at_boundary [] = true
at_boundary (c ∷ s) = not (is_word c)

-- `re.search`: the first position where the pattern gives something. The flag tells whether the
-- character before the position is a word character.
unfoldable pub search_from : {A : Type 0} → Bool → (Bool → Text → Option A) → Text → Option A
search_from prev p [] = p prev []
search_from prev p (c ∷ s) = elim (p prev (c ∷ s)) [
  | none ↦ search_from (is_word c) p s
  | some a ↦ some a
]

unfoldable pub found : (Bool → Text → Option Text) → Text → Bool
unfolding search_from
found p s = elim (search_from false p s) [ none ↦ false | some t ↦ true ]
