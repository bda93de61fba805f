-- ===== src/Dns/Dkim/Laws.antt =====
-- app/dns_utils.py: what `parse_dkim_record` says of a record's key.
use dmarc_geeks.Common.{
  All, All-append, List, Option, Text, [], arith, filter, if◌then◌else◌, is_empty, lookup, map,
  none, not, refl, some, suc, text, text_beq, zero, ℕ, ◌&&◌, ◌++◌, ◌==◌, ◌∷◌, ◌≡◌, ◌≢◌, nat_eq,
  text_eq,
}
use dmarc_geeks.Dns.Dkim.{
  DkimIssue, missing_key, parse_dkim_record, unknown_hash, is_hash, size_of, key_issues,
  key_type_of, hash_algos_of, version_issues, key_type_issues, given_hash_issues, hash_issues,
  size_issues, record_for, key_of, tags_of,
}

-- No issue of the list is that of a missing key.
abbrev pub NotMissing : List DkimIssue → Type 0
NotMissing is = All (λ i. i ≢ missing_key) is

NotMissing-append : (xs ys : List DkimIssue) → NotMissing xs → NotMissing ys → NotMissing (xs ++ ys)
NotMissing-append xs ys h k = All-append (λ i. i ≢ missing_key) xs ys h k

version-NotMissing : (o : Option Text) → NotMissing (version_issues o)
unfolding version_issues
version-NotMissing none = tt
version-NotMissing (some v) = ground arith

key_type-NotMissing : (k : Text) → NotMissing (key_type_issues k)
unfolding key_type_issues
key_type-NotMissing k = ground arith

map-NotMissing : (hs : List Text) → NotMissing (map unknown_hash hs)
map-NotMissing [] = tt
map-NotMissing (h ∷ hs) = (ground arith, map-NotMissing hs)

hash-NotMissing : (o : Option Text) (algos : List Text) → NotMissing (given_hash_issues o algos)
unfolding given_hash_issues hash_issues
hash-NotMissing none algos = tt
hash-NotMissing (some h) algos =
    let unknown = filter (λ a. not (is_hash a)) algos in
    NotMissing-append (map unknown_hash unknown) _ (map-NotMissing unknown) (ground arith)

size-NotMissing : (o : Option ℕ) → NotMissing (size_issues o)
unfolding size_issues
size-NotMissing none = tt
size-NotMissing (some zero) = tt
size-NotMissing (some (suc n)) = ground arith

key-NotMissing : (key : Text) (size : Option ℕ) → NotMissing (key_issues key size)
unfolding key_issues
key-NotMissing [] size = unfold text_beq in (ground arith, tt)
key-NotMissing (c ∷ key) size = unfold text_beq in size-NotMissing size

record-NotMissing :
    (b64_length : Text → Option ℕ) (m : List (Text × Text)) (key : Text)
    → NotMissing ((record_for b64_length m key).issues)
unfolding record_for
record-NotMissing b64_length m key =
    let v = lookup (text "v") m in
    let k = key_type_of (lookup (text "k") m) in
    let h = lookup (text "h") m in
    NotMissing-append (version_issues v) _ (version-NotMissing v) (
      NotMissing-append (key_type_issues k) _ (key_type-NotMissing k) (
        NotMissing-append (given_hash_issues h (hash_algos_of h)) _
          (hash-NotMissing h (hash_algos_of h))
          (key-NotMissing key
            (if not (key == []) && not (is_empty key) then size_of b64_length key else none))))

record_for-valid :
    (b64_length : Text → Option ℕ) (m : List (Text × Text)) (key : Text)
    → (record_for b64_length m key).valid ≡ not (key == [])
unfolding record_for
record_for-valid b64_length m [] = unfold text_beq in refl
record_for-valid b64_length m (c ∷ key) = unfold text_beq in refl

module _ (b64_length : Text → Option ℕ) where
  -- A record is valid exactly if its tag p has a value; without the tag or with an empty one it is
  -- reported as revoked. The issue of a missing key is never reported.
  pub parse_dkim_record-IsKeyed :
      (raw : Text)
      → raw ≢ []
      → ((parse_dkim_record b64_length raw).valid ≡ not (key_of (tags_of raw) == []))
        × ((parse_dkim_record b64_length raw).is_revoked ≡ (key_of (tags_of raw) == []))
        × NotMissing ((parse_dkim_record b64_length raw).issues)
  unfolding parse_dkim_record
  parse_dkim_record-IsKeyed [] h = absurd (h refl)
  parse_dkim_record-IsKeyed (c ∷ raw) h = (
    record_for-valid b64_length (tags_of (c ∷ raw)) (key_of (tags_of (c ∷ raw))),
    unfold record_for in refl,
    record-NotMissing b64_length (tags_of (c ∷ raw)) (key_of (tags_of (c ∷ raw))),
  )
