-- ===== src/Dns/Dkim.antt =====
-- app/dns_utils.py: `lookup_dkim_selectors`, `parse_dkim_record` and `lookup_dkim_with_details`.
-- `b64_length` is the length of what base64.b64decode returns, `none` where it raises. The
-- selectors are an argument; Dns/Selectors.antt has the default.
pub mod Laws
use dmarc_geeks.Common.{
  Bool, List, Option, Text, [], any, contains, false, filter, find, if◌then◌else◌, is_empty, leb,
  length, lookup, lower, ltb, map, mem, none, not, or_else, put, some, split, strip, suc, text,
  zero, ℕ, ◌&&◌, ◌*◌, ◌++◌, ◌+◌, ◌-◌, ◌==◌, ◌||◌, ◌∷◌, nat_eq, text_eq,
}
use dmarc_geeks.Dns.Dmarc.{items, partition}

pub record Selector : Type 0 where
  pub selector : Text
  pub raw : Text
  pub valid : Bool

pub data DkimIssue : Type 0 where
  empty_record : DkimIssue
  bad_version : Text → DkimIssue
  unknown_key_type : Text → DkimIssue
  unknown_hash : Text → DkimIssue
  only_sha1 : DkimIssue
  revoked : DkimIssue
  missing_key : DkimIssue
  short_key : ℕ → DkimIssue

pub data DkimNote : Type 0 where
  test_mode : DkimNote
  strict_alignment : DkimNote
  old_key_size : ℕ → DkimNote
  rotate : DkimNote

pub record DkimRecord : Type 0 where
  pub tags : List (Text × Text)
  pub key_b64 : Option Text
  pub key_type : Option Text
  pub key_size_bits : Option ℕ
  pub hash_algos : List Text
  pub flags : List Text
  pub service_types : List Text
  pub notes : List DkimNote
  pub issues : List DkimIssue
  pub valid : Bool
  pub is_revoked : Bool

empty : DkimRecord
empty = record {
  tags = [];
  key_b64 = none;
  key_type = none;
  key_size_bits = none;
  hash_algos = [];
  flags = [];
  service_types = [];
  notes = [];
  issues = empty_record ∷ [];
  valid = false;
  is_revoked = false;
}

set_pair : Text × Text → List (Text × Text) → List (Text × Text)
unfolding put
set_pair ([], v) m = m
set_pair (c ∷ k, v) m = put (c ∷ k) v m

unfoldable pub add_pairs : List (Text × Text) → List Text → List (Text × Text)
unfolding set_pair partition strip lower contains
add_pairs m [] = m
add_pairs m (part ∷ ps) =
    let (k, v) = partition b'=' (strip part) in
    let rest = add_pairs (set_pair (lower (strip k), strip v) m) ps in
    let skipped = add_pairs m ps in if contains part (text "=") then rest else skipped

unfoldable pub tags_of : Text → List (Text × Text)
unfolding add_pairs split
tags_of raw = add_pairs [] (split b';' raw)

unfoldable pub version_issues : Option Text → List DkimIssue
version_issues none = []
version_issues (some v) = if v == text "DKIM1" then [] else bad_version v ∷ []

key_type_of : Option Text → Text
unfolding or_else lower
key_type_of k = lower (or_else k (text "rsa"))

unfoldable pub key_type_issues : Text → List DkimIssue
key_type_issues k = if k == text "rsa" || k == text "ed25519" then [] else unknown_key_type k ∷ []

hash_algos_of : Option Text → List Text
unfolding items lower
hash_algos_of none = text "sha256" ∷ []
hash_algos_of (some h) = map lower (items b':' h)

is_hash : Text → Bool
is_hash a = a == text "sha1" || a == text "sha256"

unfoldable pub hash_issues : List Text → List DkimIssue
unfolding mem is_hash
hash_issues algos =
    map unknown_hash (filter (λ a. not (is_hash a)) algos)
    ++ (if mem (text "sha1") algos && not (mem (text "sha256") algos) then only_sha1 ∷ [] else [])

lowered_items : Option Text → List Text
unfolding items lower
lowered_items none = []
lowered_items (some v) = map lower (items b':' v)

flag_notes : List Text → List DkimNote
unfolding mem
flag_notes flags =
    (if mem (text "y") flags then test_mode ∷ [] else [])
    ++ (if mem (text "s") flags then strict_alignment ∷ [] else [])

-- `abs(a - b) < 200`
near : ℕ → ℕ → Bool
near a b = ltb a (b + 200) && ltb b (a + 200)

unfoldable pub key_size_of : ℕ → ℕ
unfolding near
key_size_of der =
    let bits = (der - 38) * 8 in or_default bits (find (near bits) (1024 ∷ 2048 ∷ 3072 ∷ 4096 ∷ []))
  where
    or_default : ℕ → Option ℕ → ℕ
    or_default d none = d
    or_default d (some n) = n

-- Size 0 is false in the source's tests.
unfoldable pub size_issues : Option ℕ → List DkimIssue
size_issues none = []
size_issues (some zero) = []
size_issues (some (suc n)) = if ltb (suc n) 1024 then short_key (suc n) ∷ [] else []

size_notes : Text → Option ℕ → List DkimNote
size_notes kind none = []
size_notes kind (some zero) = []
size_notes kind (some (suc n)) =
    (if leb 1024 (suc n) && ltb (suc n) 2048 then old_key_size (suc n) ∷ [] else [])
    ++ (if kind == text "rsa" && ltb (suc n) 2048 then rotate ∷ [] else [])

unfoldable pub given_hash_issues : Option Text → List Text → List DkimIssue
unfolding hash_issues
given_hash_issues none algos = []
given_hash_issues (some h) algos = hash_issues algos

-- `tags.get("p", "")`
unfoldable pub key_of : List (Text × Text) → Text
unfolding lookup or_else
key_of m = or_else (lookup (text "p") m) []

unfoldable pub key_issues : Text → Option ℕ → List DkimIssue
unfolding size_issues
key_issues pub_key size =
    if pub_key == []
    then revoked ∷ []
    else if is_empty pub_key
    then missing_key ∷ []
    else size_issues size

module _ (b64_length : Text → Option ℕ) where
  unfoldable pub size_of : Text → Option ℕ
  unfolding key_size_of
  size_of pub_key = elim (b64_length (pub_key ++ text "==")) [
    | none ↦ none
    | some n ↦ some (key_size_of n)
  ]

  -- The record with the tags `m`; `pub_key` is the value of p.
  unfoldable pub record_for : List (Text × Text) → Text → DkimRecord
  unfolding lookup version_issues key_type_of key_type_issues hash_algos_of given_hash_issues
      lowered_items flag_notes size_of key_issues size_notes
  record_for m pub_key =
      let kind = key_type_of (lookup (text "k") m) in
      let algos = hash_algos_of (lookup (text "h") m) in
      let h_issues = given_hash_issues (lookup (text "h") m) algos in
      let flags = lowered_items (lookup (text "t") m) in
      let is_revoked = pub_key == [] in
      let has_key = not is_revoked && not (is_empty pub_key) in
      let size = if has_key then size_of pub_key else none in
      record {
        tags = m;
        key_b64 = if has_key then some pub_key else none;
        key_type = some kind;
        key_size_bits = size;
        hash_algos = algos;
        flags = flags;
        service_types = lowered_items (lookup (text "s") m);
        notes = flag_notes flags ++ (if has_key then size_notes kind size else []);
        issues =
            version_issues (lookup (text "v") m)
            ++ (key_type_issues kind ++ (h_issues ++ key_issues pub_key size));
        valid = has_key;
        is_revoked = is_revoked;
      }

  unfoldable pub parse_dkim_record : Text → DkimRecord
  unfolding empty tags_of record_for key_of
  parse_dkim_record [] = empty
  parse_dkim_record (c ∷ raw) = let m = tags_of (c ∷ raw) in record_for m (key_of m)

unfoldable pub has_mark : List Text → Text → Bool
unfolding contains lower
has_mark marks t = any (contains (lower t)) marks

module _ (get_txt_records : Text → List Text) where
  unfoldable pub key_records : Text → Text → List Text
  key_records domain sel = get_txt_records (sel ++ (text "._domainkey." ++ domain))

  unfoldable pub lookup_dkim_selectors : List Text → Text → List Selector
  unfolding key_records has_mark contains lower
  lookup_dkim_selectors [] domain = []
  lookup_dkim_selectors (sel ∷ sels) domain =
      let rest = lookup_dkim_selectors sels domain in
      elim (find (has_mark (text "v=dkim1" ∷ text "k=rsa" ∷ text "p=" ∷ []))
        (key_records domain sel)) [
          | none ↦ rest
          | some t ↦
              record {
                selector = sel;
                raw = t;
                valid = contains (lower t) (text "p=") && ltb 20 (length t);
              }
              ∷ rest
        ]

  -- Selector and record of each selector that has one.
  unfoldable pub lookup_dkim_with_details :
      (Text → Option ℕ) → List Text → Text → List (Text × DkimRecord)
  unfolding key_records has_mark parse_dkim_record
  lookup_dkim_with_details b64_length [] domain = []
  lookup_dkim_with_details b64_length (sel ∷ sels) domain =
      let rest = lookup_dkim_with_details b64_length sels domain in
      elim (find (has_mark (text "v=dkim1" ∷ text "k=rsa" ∷ text "k=ed25519" ∷ text "p=" ∷ []))
        (key_records domain sel)) [
          | none ↦ rest
          | some t ↦ (sel, parse_dkim_record b64_length t) ∷ rest
        ]
