-- ===== src/Dns/Dmarc/Laws.antt =====
-- app/dns_utils.py: what `lookup_dmarc` reads from a record, such as the policy that the delegation
-- in app/routers/domains.py publishes.
use dmarc_geeks.Common.{
  All, All-imp, Free, List, Text, [], all, any, ap, arith, extend, false, find-any, inl, inr,
  is_space, lower, lower_char, lstrip_by, none, not, refl, some, split, split-append, split_once,
  split_whole, strip, strip_whole, text, text_beq, true, ℕ, ◌++◌, ◌∙◌, ◌∷◌, ◌≡◌, ◌≢◌, ◌⊎◌, pos,
}
use dmarc_geeks.Dns.{starts_as}
use dmarc_geeks.Dns.Dmarc.{
  lookup_dmarc, no_dmarc, dmarc_result, default_policy, tags_of, pair_of, items, tags, partition,
  issues_of, only_reports, set_tags, set_tag, Tags,
}

module _ (get_txt_records : Text → List Text) (domain : Text) where
  -- The record that `lookup_dmarc` reports on, if there is one.
  pub lookup_dmarc-cases :
      ((any (starts_as (text "v=dmarc1")) (get_txt_records (text "_dmarc." ++ domain)) ≡ false)
        × (lookup_dmarc get_txt_records domain ≡ no_dmarc))
      ⊎ ((t : Text) × (any
              (starts_as (text "v=dmarc1"))
              (get_txt_records (text "_dmarc." ++ domain))
            ≡ true)
          × (lookup_dmarc get_txt_records domain ≡ dmarc_result t))
  unfolding lookup_dmarc
  lookup_dmarc-cases =
      elim (find-any (starts_as (text "v=dmarc1")) (get_txt_records (text "_dmarc." ++ domain))) [
        | inl (e, k) ↦ inl (k, rw (lookup_dmarc, e) refl)
        | inr (t, e, k, j) ↦ inr (t, k, rw (lookup_dmarc, e) refl)
      ]

-- A name without white space, semicolon and comma.
abbrev pub Plain : Text → Type 0
Plain s = All (λ c. (is_space c ≡ false) × (c ≢ b';') × (c ≢ b',')) s

Plain-no_space : (s : Text) → Plain s → all (λ c. not (is_space c)) s ≡ true
Plain-no_space [] h = refl
Plain-no_space (c ∷ s) (p, h) = ground (arith, p.0, Plain-no_space s h)

Plain-Free : (sep : ℕ) (s : Text) → (sep ≡ b';') ⊎ (sep ≡ b',') → Plain s → Free sep s
Plain-Free sep s e h = All-imp s (λ c p. ground (arith, e, p.1, p.2)) h

-- The parts of the policy between semicolons.
policy_parts :
    (zone : Text)
    → Free b';' zone
    → split b';' (default_policy zone)
      ≡ text "v=DMARC1"
        ∷ text " p=none"
        ∷ (text " rua=mailto:dmarc@" ++ zone)
        ∷ text " pct=100"
        ∷ []
unfolding default_policy split extend
policy_parts zone h = rw (split-append b';' zone (text " pct=100") h) refl

-- The address survives the cleaning of the part and of the list.
address_items :
    (zone : Text)
    → Plain zone
    → items b',' (text "mailto:dmarc@" ++ zone) ≡ (text "mailto:dmarc@" ++ zone) ∷ []
unfolding items
address_items zone h =
    rw
      (
        split_whole b',' (text "mailto:dmarc@" ++ zone)
            (ground (arith, Plain-Free b',' zone (inr refl) h)),
        strip_whole (text "mailto:dmarc@" ++ zone) (Plain-no_space zone h),
      )
      refl

strip_space : (t : Text) → strip (b' ' ∷ t) ≡ strip t
unfolding strip lstrip_by is_space
strip_space t = refl

rua_pair :
    (zone : Text)
    → Plain zone
    → pair_of (text " rua=mailto:dmarc@" ++ zone) ≡ (text "rua", text "mailto:dmarc@" ++ zone)
unfolding pair_of partition split_once lower lower_char
rua_pair zone h =
    rw
      (
        strip_space (text "rua=mailto:dmarc@" ++ zone),
        strip_whole (text "rua=mailto:dmarc@" ++ zone) (Plain-no_space zone h),
        strip_whole (text "rua") refl,
        strip_whole (text "mailto:dmarc@" ++ zone) (Plain-no_space zone h),
      )
      refl

-- The parts that do not depend on the zone.
fixed_pairs :
    (pair_of (text "v=DMARC1") ≡ (text "v", text "DMARC1"))
    × (pair_of (text " p=none") ≡ (text "p", text "none"))
    × (pair_of (text " pct=100") ≡ (text "pct", text "100"))
unfolding pair_of
fixed_pairs = (refl, refl, refl)

set_tags-step :
    (s r : Tags) (p k v : Text) (ps : List Text)
    → pair_of p ≡ (k, v)
    → set_tag s k v ≡ r
    → set_tags s (p ∷ ps) ≡ set_tags r ps
unfolding set_tags
set_tags-step s r p k v ps e h =
    ap (λ q. set_tags (set_tag s q.0 q.1) ps) e ∙ ap (λ t. set_tags t ps) h

set_rua :
    (zone : Text)
    → Plain zone
    → set_tag (tags (some (text "none")) [] none) (text "rua") (text "mailto:dmarc@" ++ zone)
      ≡ tags (some (text "none")) ((text "mailto:dmarc@" ++ zone) ∷ []) none
unfolding set_tag text_beq
set_rua zone h = rw (address_items zone h) refl

fixed_tags :
    (rua : List Text)
    → (set_tag (tags none [] none) (text "v") (text "DMARC1") ≡ tags none [] none)
      × (set_tag (tags none [] none) (text "p") (text "none") ≡ tags (some (text "none")) [] none)
      × (set_tag (tags (some (text "none")) rua none) (text "pct") (text "100")
          ≡ tags (some (text "none")) rua (some (pos 100)))
unfolding set_tag text_beq
fixed_tags rua = (refl, refl, refl)

policy_tags :
    (zone : Text)
    → Plain zone
    → tags_of (default_policy zone)
      ≡ tags (some (text "none")) ((text "mailto:dmarc@" ++ zone) ∷ []) (some (pos 100))
unfolding tags_of
policy_tags zone h =
    let rua = (text "mailto:dmarc@" ++ zone) ∷ [] in
    let after_rua = text " pct=100" ∷ [] in
    let after_p = (text " rua=mailto:dmarc@" ++ zone) ∷ after_rua in
    ap (set_tags (tags none [] none)) (policy_parts zone (Plain-Free b';' zone (inl refl) h))
    ∙ set_tags-step _ _ (text "v=DMARC1") _ _ (text " p=none" ∷ after_p) fixed_pairs.0
        (fixed_tags rua).0
    ∙ set_tags-step _ _ (text " p=none") _ _ after_p fixed_pairs.1 (fixed_tags rua).1
    ∙ set_tags-step _ _ (text " rua=mailto:dmarc@" ++ zone) _ _ after_rua (rua_pair zone h)
        (set_rua zone h)
    ∙ set_tags-step _ _ (text " pct=100") _ _ [] fixed_pairs.2 (fixed_tags rua).2
    ∙ last rua
  where
    last :
        (rua : List Text)
        → set_tags (tags (some (text "none")) rua (some (pos 100))) []
          ≡ tags (some (text "none")) rua (some (pos 100))
    last rua = unfold set_tags in refl

-- The published policy is read back: any zone name without white space, semicolon and comma gives
-- policy none, one report address at the zone, 100 percent, and the only issue that p=none does not
-- protect.
pub tags_of-default_policy :
    (zone : Text)
    → Plain zone
    → (tags_of (default_policy zone)
        ≡ tags (some (text "none")) ((text "mailto:dmarc@" ++ zone) ∷ []) (some (pos 100)))
      × (starts_as (text "v=dmarc1") (default_policy zone) ≡ true)
      × (issues_of (tags_of (default_policy zone)) ≡ only_reports ∷ [])
tags_of-default_policy zone h = (
  policy_tags zone h,
  unfold default_policy starts_as in refl,
  rw (policy_tags zone h) (unfold issues_of text_beq in refl),
)
