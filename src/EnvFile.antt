-- ===== src/EnvFile.antt =====
-- app/env_file.py: reading and rewriting the .env file. The file is its text after the newline
-- translation of `read_text`; a missing file is the empty text.
pub mod Lines
pub mod Settings
pub mod Last
pub mod Written
pub mod RoundTrip
mod Tests
use dmarc_geeks.Common.{
  Bool, List, Option, Text, [], any, contains, drop, ends_with, if◌then◌else◌, is_empty, leb,
  length, lookup, min, none, some, starts_with, suc, take, text, true, upper, zero, ℕ, ◌&&◌, ◌++◌,
  ◌-◌, ◌==◌, ◌||◌, ◌∷◌, nat_eq, text_eq, map, strip, join, split_once, false, put, not,
}

-- The line boundaries of `str.splitlines`.
unfoldable pub is_break : ℕ → Bool
is_break c = (leb 10 c && leb c 13) || (leb 28 c && leb c 30) || c == 133 || c == 8232 || c == 8233

unfoldable pub push_char : ℕ → List Text → List Text
push_char c [] = (c ∷ []) ∷ []
push_char c (l ∷ ls) = (c ∷ l) ∷ ls

unfoldable pub splitlines : Text → List Text
unfolding is_break push_char
splitlines [] = []
splitlines (c ∷ s) = let rest = splitlines s in if is_break c then [] ∷ rest else push_char c rest

sensitive_patterns : List Text
sensitive_patterns =
    text "PASSWORD"
    ∷ text "PASSWD"
    ∷ text "SECRET"
    ∷ text "FERNET_KEY"
    ∷ text "TOKEN"
    ∷ text "API_KEY"
    ∷ []

unfoldable pub is_sensitive : Text → Bool
unfolding sensitive_patterns
is_sensitive key = any (λ p. contains (upper key) p) sensitive_patterns

abbrev bullet : ℕ
bullet = 8226

unfoldable pub bullets : ℕ → Text
bullets zero = []
bullets (suc n) = bullet ∷ bullets n

unfoldable pub mask_value : Text → Text
unfolding bullets
mask_value value =
    if is_empty value
    then []
    else if leb (length value) 4
    then bullets (length value)
    else take 2 value ++ (bullets (min 8 (length value - 4)) ++ drop (length value - 2) value)

abbrev hash : ℕ
hash = b'#'

abbrev equals : ℕ
equals = b'='

-- The line is empty or a comment, after `strip`.
unfoldable pub is_skipped : Text → Bool
is_skipped [] = true
is_skipped (c ∷ s) = c == hash

quoted_by : ℕ → Text → Bool
quoted_by q v = starts_with v (q ∷ []) && ends_with v (q ∷ [])

-- `v[1:-1]` of a quoted value.
unfoldable pub unquote : Text → Text
unfolding quoted_by
unquote v = if quoted_by b'"' v || quoted_by 39 v then take (length v - 2) (drop 1 v) else v

-- The assignment on a stripped line.
unfoldable pub assignment : Text → Option (Text × Text)
unfolding is_skipped unquote
assignment s = if is_skipped s then none else elim (split_once equals s) [
  | none ↦ none
  | some (k, v) ↦ some (strip k, unquote (strip v))
]

unfoldable pub parse_line : Text → Option (Text × Text)
unfolding assignment
parse_line line = assignment (strip line)

-- `out[k] = v` for each assignment.
unfoldable pub read_lines : List (Text × Text) → List Text → List (Text × Text)
unfolding parse_line
read_lines out [] = out
read_lines out (l ∷ ls) =
    read_lines (elim (parse_line l) [ none ↦ out | some (k, v) ↦ put k v out ]) ls

unfoldable pub read_env : Text → List (Text × Text)
unfolding read_lines splitlines
read_env file = read_lines [] (splitlines file)

abbrev pub setting : Text → Text → Text
setting k v = k ++ equals ∷ v

-- A line of the old file in the new one, with the key that it sets.
unfoldable pub rewrite_as : List (Text × Text) → Text → Option (Text × Text) → Text
rewrite_as updates line none = line
rewrite_as updates line (some (k, old)) = elim (lookup k updates) [
  | none ↦ line
  | some new ↦ setting k new
]

unfoldable pub rewrite : List (Text × Text) → Text → Text
unfolding rewrite_as
rewrite updates line = rewrite_as updates line (parse_line line)

-- `k in seen_keys` for a key of the updates: some line of the file sets it.
unfoldable pub sets_key : Text → Text → Bool
sets_key k line = elim (parse_line line) [ none ↦ false | some (j, v) ↦ j == k ]

unfoldable pub appended : List Text → List (Text × Text) → List Text
unfolding sets_key
appended lines [] = []
appended lines ((k, v) ∷ us) =
    let rest = appended lines us in if any (sets_key k) lines then rest else setting k v ∷ rest

-- Whether the last line has a text, for the blank line before what is appended.
unfoldable pub ends_full : List Text → Bool
ends_full [] = false
ends_full (l ∷ []) = not (is_empty (strip l))
ends_full (l ∷ m ∷ ls) = ends_full (m ∷ ls)

unfoldable pub new_lines : List (Text × Text) → List Text → List Text
unfolding rewrite appended ends_full
new_lines updates lines =
    let kept = map (rewrite updates) lines in
    let more = appended lines updates in
    if is_empty more then kept else kept ++ (if ends_full kept then [] ∷ more else more)

unfoldable pub final_text : List Text → Text
final_text lines =
    let s = join (text "\n") lines in
    if is_empty s || ends_with s (text "\n") then s else s ++ text "\n"

-- The text that `write_env` puts in place of the old one.
unfoldable pub write_env : List (Text × Text) → Text → Text
unfolding new_lines final_text splitlines
write_env updates file = final_text (new_lines updates (splitlines file))

-- The keys of the old lines whose value changes.
changed_old : List (Text × Text) → Option (Text × Text) → List Text
changed_old updates none = []
changed_old updates (some (k, old)) = elim (lookup k updates) [
  | none ↦ []
  | some new ↦ if old == new then [] else k ∷ []
]

changed_new : List Text → List (Text × Text) → List Text
changed_new lines [] = []
changed_new lines ((k, v) ∷ us) =
    let rest = changed_new lines us in if any (sets_key k) lines then rest else k ∷ rest

changed_lines : List (Text × Text) → List Text → List Text
unfolding changed_old
changed_lines updates [] = []
changed_lines updates (l ∷ ls) = changed_old updates (parse_line l) ++ changed_lines updates ls

-- `changed` in the result of `write_env`.
changed : List (Text × Text) → List Text → List Text
unfolding changed_lines changed_new
changed updates lines = changed_lines updates lines ++ changed_new lines updates
