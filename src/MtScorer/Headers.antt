-- ===== src/MtScorer/Headers.antt =====
-- app/mt_scorer.py: what the scorer reads from the headers.
use mathlib.Core.List.{reverse}
use dmarc_geeks.Common.{
  Bool, List, Option, Text, [], false, find, if◌then◌else◌, int_of, is_digit, is_space, leb, lebℤ,
  length, lookup, lower, lstrip_by, none, not, or_none, put, rstrip_by, some, split, starts_with,
  suc, text, upper, zero, ℕ, ℤ, ◌&&◌, ◌++◌, ◌-◌, ◌==◌, ◌||◌, ◌∷◌, nat_eq, text_eq, pos,
}
use dmarc_geeks.MtScorer.Scan.{is_lower_letter, is_host, after, span, search_from}

-- `[a-z0-9-]` and `[A-Za-z0-9_.-]`.
abbrev is_key_char : ℕ → Bool
is_key_char c = is_lower_letter c || is_digit c || c == b'-'

abbrev is_value_char : ℕ → Bool
is_value_char c = is_host c || c == b'_'

-- Where the scan of `_AR_KV` stands: in a key, which is empty between matches, or in a value. Both
-- are read backwards.
pub data Scan : Type 0 where
  in_key : Text → Scan
  in_value : Text → Text → Scan

-- A match with an empty value is none.
match_of : Text → Text → List (Text × Text)
match_of k [] = []
match_of k (c ∷ v) = (lower (reverse k), lower (reverse (c ∷ v))) ∷ []

-- `_AR_KV.finditer`, with its groups in lower case.
unfoldable pub pairs : Scan → Text → List (Text × Text)
unfolding match_of
pairs (in_key k) [] = []
pairs (in_value k v) [] = match_of k v
pairs (in_key []) (c ∷ s) = pairs (in_key (if is_lower_letter c then c ∷ [] else [])) s
pairs (in_key (d ∷ k)) (c ∷ s) =
    pairs
      (if c == b'=' then in_value (d ∷ k) [] else in_key (if is_key_char c then c ∷ d ∷ k else []))
      s
pairs (in_value k v) (c ∷ s) =
    if is_value_char c then pairs (in_value k (c ∷ v)) s else match_of k v ++ pairs (in_key []) s

is_method : Text → Bool
is_method k = k == text "spf" || k == text "dkim" || k == text "dmarc"

first_results : List (Text × Text) → List (Text × Text) → List (Text × Text)
unfolding is_method
first_results out [] = out
first_results out ((k, v) ∷ kvs) =
    first_results
      (if is_method k then elim (lookup k out) [ none ↦ put k v out | some w ↦ out ] else out) kvs

-- `_parse_authentication_results`.
unfoldable pub parse_authentication_results : List (Text × Text) → List Text → List (Text × Text)
unfolding first_results pairs
parse_authentication_results out [] = out
parse_authentication_results out (h ∷ hs) =
    parse_authentication_results (first_results out (pairs (in_key []) h)) hs

-- Up to `n` digits, and the rest.
unfoldable pub digits : ℕ → Text → Text × Text
digits zero s = ([], s)
digits (suc n) [] = ([], [])
digits (suc n) (c ∷ s) =
    let rest = digits n s in if is_digit c then (c ∷ rest.0, rest.1) else ([], c ∷ s)

-- A group of digits, the dot behind it, and what `tail` finds behind the dot.
unfoldable pub dotted_with : (Text → Option Text) → Text × Text → Option Text
dotted_with tail ([], rest) = none
dotted_with tail (c ∷ ds, []) = none
dotted_with tail (c ∷ ds, d ∷ rest) =
    if d == b'.'
    then elim (tail rest) [ none ↦ none | some t ↦ some (c ∷ ds ++ b'.' ∷ t) ]
    else none

-- `\d{1,3}(\.\d{1,3}){n}`.
unfoldable pub dotted : ℕ → Text → Option Text
unfolding digits dotted_with
dotted zero s = or_none ((digits 3 s).0)
dotted (suc n) s = dotted_with (dotted n) (digits 3 s)

abbrev is_hex_colon : ℕ → Bool
is_hex_colon c = is_digit c || (leb 97 c && leb c 102) || (leb 65 c && leb c 70) || c == b':'

-- The group of `_IP_RE` that matches at a position. The brackets of the pattern are optional and
-- outside the groups, so that the same groups match without them.
unfoldable pub ip_at : Text → Option Text
unfolding dotted span
ip_at s = elim (dotted 3 s) [ some ip ↦ some ip | none ↦ or_none ((span is_hex_colon s).0) ]

-- `_IP_RE.finditer`: after a match the scan goes on behind it.
unfoldable pub ip_matches : ℕ → Text → List Text
unfolding ip_at
ip_matches n [] = []
ip_matches (suc n) (c ∷ s) = ip_matches n s
ip_matches zero (c ∷ s) = elim (ip_at (c ∷ s)) [
  | none ↦ ip_matches zero s
  | some ip ↦ ip ∷ ip_matches (length ip - 1) s
]

unfoldable pub second_octet : Text → Option ℤ
second_octet ip = elim (split (b'.') ip) [ [] ↦ none | a ∷ [] ↦ none | a ∷ b ∷ rest ↦ int_of b ]

-- The addresses that `_extract_sender_ip` steps over.
unfoldable pub is_private : Text → Bool
unfolding second_octet
is_private ip =
    starts_with ip (text "127.")
    || starts_with ip (text "10.")
    || starts_with ip (text "192.168.")
    || ip == text "::1"
    || (starts_with ip (text "172.")
        && elim (second_octet ip) [ none ↦ false | some n ↦ lebℤ (pos 16) n && lebℤ n (pos 31) ])

unfoldable pub last_of : List Text → Option Text
last_of [] = none
last_of (h ∷ []) = some h
last_of (h ∷ i ∷ hs) = last_of (i ∷ hs)

-- `_extract_sender_ip`.
unfoldable pub extract_sender_ip : List Text → Option Text
unfolding last_of ip_matches is_private
extract_sender_ip received = elim (last_of received) [
  | none ↦ none
  | some h ↦ find (λ ip. not (is_private ip)) (ip_matches zero h)
]

-- The two forms of `_TLS_RE`, behind the version.
using_end : Text × Text → Option Text
using_end ([], t) = none
using_end (c ∷ v, []) = none
using_end (c ∷ v, d ∷ t) = if d == b')' then some (c ∷ v) else none

version_end : Text × Text → Option Text
unfolding after
version_end ([], t) = none
version_end (c ∷ v, []) = none
version_end (c ∷ v, d ∷ t) =
    if is_space d
    then elim (after (text "cipher") (lstrip_by is_space t)) [ none ↦ none | some u ↦ some (c ∷ v) ]
    else none

-- `_TLS_RE` at a position.
tls_at : Bool → Text → Option Text
unfolding after span using_end version_end
tls_at prev s = elim (after (text "(using ") s) [
  | some rest ↦ using_end (span is_host rest)
  | none ↦ elim (after (text "(version=") s) [
    | none ↦ none
    | some rest ↦ version_end (span is_host rest)
  ]
]

-- `_extract_tls`.
unfoldable pub extract_tls : List Text → Option Text
unfolding tls_at search_from
extract_tls [] = none
extract_tls (h ∷ hs) = elim (search_from false tls_at h) [ none ↦ none | some v ↦ some (upper v) ]

helo_at : Bool → Text → Option Text
unfolding after span
helo_at prev s = if prev then none else elim (after (text "from") s) [
  | none ↦ none
  | some [] ↦ none
  | some (c ∷ rest) ↦
      if is_space c then or_none ((span is_host (lstrip_by is_space rest)).0) else none
]

-- `_extract_helo`.
unfoldable pub extract_helo : List Text → Option Text
unfolding helo_at last_of search_from
extract_helo received = elim (last_of received) [
  | none ↦ none
  | some h ↦ elim (search_from false helo_at h) [
    | none ↦ none
    | some host ↦ some (rstrip_by (λ c. c == b'.') host)
  ]
]
