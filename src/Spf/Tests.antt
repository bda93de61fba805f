-- ===== src/Spf/Tests.antt =====
-- Runs of `_count_spf_lookups` of app/dns_utils.py.
use dmarc_geeks.Common.{
  ap, arith, is_space, lower_char, ℕ, nat_eq, text_eq, int_eq, option_eq, pair_eq,
}
use dmarc_geeks.Common.{lower}
use dmarc_geeks.Common.{starts_with}
use dmarc_geeks.Common.{text_beq}
use dmarc_geeks.Common.{or_else}
use dmarc_geeks.Common.{mem}
use dmarc_geeks.Common.{
  List, Text, [], if◌then◌else◌, refl, text, ◌==◌, ◌||◌, ◌∷◌, ◌≡◌, nat_eq, text_eq,
}
use dmarc_geeks.Spf.{count_spf_lookups, start_depth}
use dmarc_geeks.Spf.Laws.{IsCounted, count_spf_lookups-IsCounted}

-- Two includes of one record, which costs two lookups.
abbrev zone : Text → List Text
zone name =
    if name == text "t"
    then text "v=spf1 include:b include:c -all" ∷ []
    else if name == text "b" || name == text "c"
    then text "v=spf1 include:d" ∷ []
    else if name == text "d"
    then text "other" ∷ text "v=spf1 a mx" ∷ []
    else []

shared_include : (count_spf_lookups zone start_depth (text "t") []).0.count ≡ 6
unfolding count_spf_lookups mem or_else text_beq starts_with lower is_space
shared_include = refl

-- The zone as the DNS serves it.
abbrev any_case : Text → List Text
any_case name = zone (lower name)

lower_char-lower_char : (c : ℕ) → lower_char (lower_char c) ≡ lower_char c
unfolding lower_char
lower_char-lower_char c = ground arith

lower-lower : (name : Text) → lower (lower name) ≡ lower name
unfolding lower
lower-lower [] = refl
lower-lower (c ∷ s) = rw (lower_char-lower_char c, lower-lower s) refl

count_spf_lookups-IsCounted_example :
    IsCounted any_case [] 0 (count_spf_lookups any_case start_depth (text "t") [])
count_spf_lookups-IsCounted_example =
    count_spf_lookups-IsCounted any_case (λ name. ap zone (lower-lower name)) start_depth (text "t")
      [] refl
