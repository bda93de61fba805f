-- ===== src/EnvFile/Last.antt =====
-- The value of a key in a list of lines of the .env file, by the last line that sets it.
use mathlib.Core.Path.{subst}
use dmarc_geeks.Common.{
  All, Bool, Bool-cases, List, Option, Text, [], ap, arith, if◌then◌else◌, inl, inr, lookup,
  lookup-put, none, put, refl, some, subst_some, sym, text_beq_iff, ◌++◌, ◌==◌, ◌∙◌, ◌∷◌, ◌≡◌,
  nat_eq, text_eq,
}
use dmarc_geeks.EnvFile.{parse_line, read_lines, rewrite, sets_key}
use dmarc_geeks.EnvFile.Settings.{IsSetting, parse_line-setting}

abbrev pub or_opt : Option Text → Option Text → Option Text
or_opt none o = o
or_opt (some v) o = some v

-- The value that a line gives to the key `j`.
abbrev pub value_at : Text → Option (Text × Text) → Option Text
value_at j none = none
value_at j (some (k, v)) = if k == j then some v else none

-- The last line that sets the key counts.
unfoldable pub last : Text → List Text → Option Text
last j [] = none
last j (l ∷ ls) = or_opt (last j ls) (value_at j (parse_line l))

pub or_opt-none : (o : Option Text) → o ≡ or_opt o none
or_opt-none none = refl
or_opt-none (some v) = refl

read_step :
    (j : Text) (out : List (Text × Text)) (o : Option (Text × Text))
    → lookup j (elim o [ none ↦ out | some (k, v) ↦ put k v out ])
      ≡ or_opt (value_at j o) (lookup j out)
read_step j out none = refl
read_step j out (some (k, v)) = rw lookup-put (ground arith)

or_opt_assoc : (a b c : Option Text) → or_opt a (or_opt b c) ≡ or_opt (or_opt a b) c
or_opt_assoc none b c = refl
or_opt_assoc (some a) b c = refl

pub lookup-read_lines :
    (j : Text) (ls : List Text) (out : List (Text × Text))
    → lookup j (read_lines out ls) ≡ or_opt (last j ls) (lookup j out)
unfolding read_lines last
lookup-read_lines j [] out = refl
lookup-read_lines j (l ∷ ls) out =
    lookup-read_lines j ls (elim (parse_line l) [ none ↦ out | some (k, v) ↦ put k v out ])
    ∙ ap (or_opt (last j ls)) (read_step j out (parse_line l))
    ∙ or_opt_assoc (last j ls) (value_at j (parse_line l)) (lookup j out)

pub last-append :
    (j : Text) (xs ys : List Text) → last j (xs ++ ys) ≡ or_opt (last j ys) (last j xs)
unfolding last
last-append j [] ys = or_opt-none (last j ys)
last-append j (x ∷ xs) ys =
    ap (λ o. or_opt o (value_at j (parse_line x))) (last-append j xs ys)
    ∙ sym (or_opt_assoc (last j ys) (last j xs) (value_at j (parse_line x)))

-- Each of the updates can stand on a line.
abbrev pub AllFit : List (Text × Text) → Type 0
AllFit us = All (λ u. IsSetting u.0 u.1) us

pub fit_of_lookup :
    (k v : Text) (us : List (Text × Text)) → AllFit us → lookup k us ≡ some v → IsSetting k v
unfolding lookup
fit_of_lookup k v [] h e = cc
fit_of_lookup k v ((j, w) ∷ us) (fits, h) e = elim (Bool-cases (j == k)) [
  | inl same ↦
      subst_some (IsSetting k) w v (rw same at e)
        (subst (λ x. IsSetting x w) ((text_beq_iff j k).0 same) fits)
  | inr other ↦ fit_of_lookup k v us h (rw other at e)
]

-- What the rewritten line gives to `j`: its update if the line sets `j`.
abbrev pub updated : Option Text → Option Text → Bool → Option Text
updated none old sets = old
updated (some v) old sets = if sets then some v else none

module _ (us : List (Text × Text)) (fits : AllFit us) (j : Text) where
  pub value_at-rewrite :
      (l : Text)
      → value_at j (parse_line (rewrite us l))
        ≡ updated (lookup j us) (value_at j (parse_line l)) (sets_key j l)
  unfolding rewrite sets_key
  value_at-rewrite l = by_line (parse_line l) refl
    where
      by_line :
          (o : Option (Text × Text))
          → parse_line l ≡ o
          → value_at j (parse_line (rewrite us l))
            ≡ updated (lookup j us) (value_at j (parse_line l)) (sets_key j l)
      by_line none e = ground arith
      by_line (some (k, old)) e = by_update (lookup k us) refl
        where
          by_update :
              (o : Option Text)
              → lookup k us ≡ o
              → value_at j (parse_line (rewrite us l))
                ≡ updated (lookup j us) (value_at j (parse_line l)) (sets_key j l)
          by_update none f = ground (arith, text_beq_iff k j)
          by_update (some new) f =
              ground
                (arith, text_beq_iff k j, parse_line-setting k new (fit_of_lookup k new us fits f))
