-- ===== src/Spf.antt =====
-- app/dns_utils.py: `_count_spf_lookups`, the DNS lookups that an SPF record costs. The set `_seen`
-- is passed on and returned. The fuel is what is left of the depth, 13 at the start: the source
-- stops at a depth above 12, so the fuel ends exactly where the source stops.
pub mod Laws
mod Tests
use mathlib.Core.List.{reverse}
use dmarc_geeks.Common.{
  List, Option, Text, [], contains, drop, find, if◌then◌else◌, is_space, lower, mem, none, or_else,
  some, starts_with, suc, text, zero, ℕ, ◌+◌, ◌==◌, ◌||◌, ◌∷◌, nat_eq, text_eq,
}

pub data Kind : Type 0 where
  include : Kind
  redirect : Kind
  a : Kind
  mx : Kind
  exists : Kind
  ptr : Kind

-- An entry of the breakdown.
pub record Entry : Type 0 where
  pub kind : Kind
  pub target : Text
  pub sub_count : ℕ

pub data Trouble : Type 0 where
  loop : Trouble
  too_deep : Trouble

pub record Lookups : Type 0 where
  pub count : ℕ
  pub breakdown : List Entry
  pub trouble : Option Trouble

abbrev pub lookups : ℕ → List Entry → Option Trouble → Lookups
lookups n es t = record { count = n; breakdown = es; trouble = t }

abbrev entry : Kind → Text → ℕ → Entry
entry k t n = record { kind = k; target = t; sub_count = n }

-- A term of the record: one that refers to another record, one that costs a lookup, or neither.
pub data Term : Type 0 where
  refers : Kind → Text → Term
  costs : Kind → Text → Term
  free : Term

-- The token without its qualifier.
unqualified : Text → Text
unqualified [] = []
unqualified (c ∷ t) = if mem c (text "+-~?") then t else c ∷ t

target_or : Text → ℕ → Text → Text
target_or domain n t = if contains t (text ":") then drop n t else domain

unfoldable pub term_of : Text → Text → Term
unfolding unqualified target_or
term_of domain token =
    let t = unqualified token in
    let low = lower t in
    if starts_with low (text "include:")
    then refers include (drop 8 t)
    else if starts_with low (text "redirect=")
    then refers redirect (drop 9 t)
    else if starts_with low (text "a:") || low == text "a"
    then costs a (target_or domain 2 t)
    else if starts_with low (text "mx:") || low == text "mx"
    then costs mx (target_or domain 3 t)
    else if starts_with low (text "exists:")
    then costs exists (drop 7 t)
    else if starts_with low (text "ptr")
    then costs ptr (text "(deprecated)")
    else free

-- `s.split()`: the words between spaces.
unfoldable pub words_from : Text → Text → List Text
words_from [] [] = []
words_from (d ∷ w) [] = reverse (d ∷ w) ∷ []
words_from [] (c ∷ s) = if is_space c then words_from [] s else words_from (c ∷ []) s
words_from (d ∷ w) (c ∷ s) =
    if is_space c then reverse (d ∷ w) ∷ words_from [] s else words_from (c ∷ d ∷ w) s

-- An entry in front of what the rest of the record gives.
abbrev pub add_entry : Entry → Lookups → Lookups
add_entry e r = lookups (suc (e.sub_count) + r.count) (e ∷ r.breakdown) (r.trouble)

-- The loop over the tokens; `visit` is the recursive call.
unfoldable pub count_terms :
    (Text → List Text → Lookups × List Text) → Text → List Text → List Text → Lookups × List Text
unfolding term_of
count_terms visit domain [] seen = (lookups 0 [] none, seen)
count_terms visit domain (token ∷ tokens) seen = elim (term_of domain token) [
  | refers k t ↦
      let (r, seen') = visit t seen in
      let (rest, seen'') = count_terms visit domain tokens seen' in
      (add_entry (entry k t (r.count)) rest, seen'')
  | costs k t ↦
      let (rest, seen') = count_terms visit domain tokens seen in
      (add_entry (entry k t 0) rest, seen')
  | free ↦ count_terms visit domain tokens seen
]

-- `get_txt_records` is a parameter.
module _ (get_txt_records : Text → List Text) where
  unfoldable pub spf_record : Text → Text
  spf_record domain =
      or_else (find (λ t. starts_with (lower t) (text "v=spf1")) (get_txt_records domain)) []

  unfoldable pub count_spf_lookups : ℕ → Text → List Text → Lookups × List Text
  unfolding count_terms spf_record words_from
  count_spf_lookups zero domain seen =
      if mem (lower domain) seen
      then (lookups 0 [] (some loop), seen)
      else (lookups 0 [] (some too_deep), seen)
  count_spf_lookups (suc depth_left) domain seen =
      let below =
        count_terms (count_spf_lookups depth_left) domain (words_from [] (spf_record domain))
          (lower domain ∷ seen) in
      if mem (lower domain) seen then (lookups 0 [] (some loop), seen) else below

abbrev pub start_depth : ℕ
start_depth = 13
