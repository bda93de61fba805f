-- ===== src/EnvFile/RoundTrip.antt =====
-- What `read_env` of app/env_file.py finds in a file that `write_env` wrote.
use mathlib.Core.List.{append_assoc}
use dmarc_geeks.EnvFile.Lines.{is_line, splitlines_one, splitlines-append, splitlines-is_line}
use mathlib.Core.Path.{ap₂}
use dmarc_geeks.Common.{
  Bool, Bool-cases, List, Option, Text, [], all, any, ap, arith, ends_with, false, if◌then◌else◌,
  inl, inr, is_empty, join, lookup, map, none, not, refl, some, strip, sym, text, text_beq_iff,
  true, ◌&&◌, ◌++◌, ◌==◌, ◌||◌, ◌∙◌, ◌∷◌, ◌≡◌, nat_eq, text_eq, int_eq, option_eq, pair_eq,
}
use dmarc_geeks.EnvFile.{
  parse_line, rewrite, sets_key, appended, new_lines, ends_full, assignment, splitlines, final_text,
  read_env, write_env,
}
use dmarc_geeks.EnvFile.Settings.{parse_line-setting}
use dmarc_geeks.EnvFile.Written.{new_lines-is_line}
use dmarc_geeks.EnvFile.Last.{
  or_opt, value_at, last, updated, AllFit, value_at-rewrite, last-append, or_opt-none,
  lookup-read_lines,
}

abbrev has_key : Text → List Text → Bool
has_key j ls = any (sets_key j) ls

-- The keys of a dict are distinct.
abbrev pub is_dict : List (Text × Text) → Bool
is_dict [] = true
is_dict ((k, v) ∷ us) = all (λ u. not (u.0 == k)) us && is_dict us

lookup-absent :
    (k : Text) (us : List (Text × Text)) → all (λ u. not (u.0 == k)) us ≡ true → lookup k us ≡ none
unfolding lookup
lookup-absent k [] h = refl
lookup-absent k ((j, v) ∷ us) h = ground (arith, lookup-absent k us)

module _ (us : List (Text × Text)) (fits : AllFit us) (j : Text) where
  last-rewrite :
      (ls : List Text)
      → last j (map (rewrite us) ls) ≡ updated (lookup j us) (last j ls) (has_key j ls)
  unfolding last
  last-rewrite [] = by_update (lookup j us)
    where
      by_update : (o : Option Text) → none ≡ updated o none false
      by_update none = refl
      by_update (some v) = refl
  last-rewrite (l ∷ ls) =
      ap₂ or_opt (last-rewrite ls) (value_at-rewrite us fits j l)
      ∙ joined (lookup j us) (last j ls) (value_at j (parse_line l)) (sets_key j l) (has_key j ls)
    where
      joined :
          (o a b : Option Text) (s t : Bool)
          → or_opt (updated o a t) (updated o b s) ≡ updated o (or_opt a b) (s || t)
      joined none a b s t = refl
      joined (some v) a b true true = refl
      joined (some v) a b true false = refl
      joined (some v) a b false true = refl
      joined (some v) a b false false = refl

-- What is appended gives `j` its update where no old line sets it.
last-appended :
    (j : Text) (ls : List Text) (us : List (Text × Text))
    → AllFit us
    → is_dict us ≡ true
    → last j (appended ls us) ≡ (if has_key j ls then none else lookup j us)
unfolding last appended lookup
last-appended j ls [] fits d = ground arith
last-appended j ls ((k, v) ∷ us) (fit, fits) d = ground (
  arith,
  text_beq_iff k j,
  parse_line-setting k v fit,
  lookup-absent k us,
  last-appended j ls us fits,
)

last-blank : (j : Text) (ls : List Text) → last j ([] ∷ ls) ≡ last j ls
unfolding last parse_line assignment strip
last-blank j ls = sym (or_opt-none (last j ls))

last-new_lines :
    (j : Text) (us : List (Text × Text)) (ls : List Text)
    → AllFit us
    → is_dict us ≡ true
    → last j (new_lines us ls) ≡ or_opt (lookup j us) (last j ls)
unfolding new_lines lookup last
last-new_lines j us ls fits d =
    by_more (appended ls us) (ends_full (map (rewrite us) ls)) (last-appended j ls us fits d)
    ∙ combined (lookup j us) (last j ls) (has_key j ls)
  where
    kept : List Text
    kept = map (rewrite us) ls

    combined :
        (o a : Option Text) (s : Bool) → or_opt (if s then none else o) (updated o a s) ≡ or_opt o a
    combined none a true = refl
    combined none a false = refl
    combined (some v) a true = refl
    combined (some v) a false = refl

    by_more :
        (more : List Text) (b : Bool)
        → last j more ≡ (if has_key j ls then none else lookup j us)
        → last j (if is_empty more then kept else kept ++ (if b then [] ∷ more else more))
          ≡ or_opt
              (if has_key j ls then none else lookup j us)
              (updated (lookup j us) (last j ls) (has_key j ls))
    by_more [] b h = rw (last-rewrite us fits j ls) (ap (λ o. or_opt o tail) h)
      where
        tail : Option Text
        tail = updated (lookup j us) (last j ls) (has_key j ls)
    by_more (m ∷ more) true h =
        rw (
          last-append j kept ([] ∷ m ∷ more),
          last-blank j (m ∷ more),
          h,
          last-rewrite us fits j ls,
        )
    by_more (m ∷ more) false h = rw (last-append j kept (m ∷ more), h, last-rewrite us fits j ls)

-- Lines of which none holds a line boundary.
last-join :
    (j : Text) (ls : List Text)
    → all is_line ls ≡ true
    → last j (splitlines (join (text "\n") ls)) ≡ last j ls
unfolding last join splitlines
last-join j [] h = refl
last-join j ([] ∷ []) h = sym (last-blank j [])
last-join j ((c ∷ s) ∷ []) h = ap (last j) (splitlines_one c s (ground (arith, h)))
last-join j (l ∷ m ∷ ls) h =
    ap (last j) (splitlines-append l (join (text "\n") (m ∷ ls)) (ground (arith, h)))
    ∙ ap (λ o. or_opt o (value_at j (parse_line l))) (last-join j (m ∷ ls) (ground (arith, h)))

last-join_ended :
    (j : Text) (ls : List Text)
    → all is_line ls ≡ true
    → last j (splitlines (join (text "\n") ls ++ text "\n")) ≡ last j ls
unfolding last join splitlines
last-join_ended j [] h = last-blank j []
last-join_ended j (l ∷ []) h = ap (last j) (splitlines-append l [] (ground (arith, h)))
last-join_ended j (l ∷ m ∷ ls) h =
    ap (λ s. last j (splitlines s)) (append_assoc l (10 ∷ join (text "\n") (m ∷ ls)) (text "\n"))
    ∙ ap (last j) (splitlines-append l (join (text "\n") (m ∷ ls) ++ text "\n") (ground (arith, h)))
    ∙ ap (λ o. or_opt o (value_at j (parse_line l)))
        (last-join_ended j (m ∷ ls) (ground (arith, h)))

last-final_text :
    (j : Text) (ls : List Text)
    → all is_line ls ≡ true
    → last j (splitlines (final_text ls)) ≡ last j ls
unfolding final_text
last-final_text j ls h =
    elim (Bool-cases
      (is_empty (join (text "\n") ls) || ends_with (join (text "\n") ls) (text "\n"))) [
        | inl b ↦ rw b (last-join j ls h)
        | inr n ↦ rw n (last-join_ended j ls h)
      ]

-- After `write_env` with updates of distinct keys, reading the file gives every updated key its new
-- value and every other key the value that it had in the old file. Each updated key is not empty,
-- does not start with "#" and has no "="; each new value is not in quotes that the reader takes off;
-- and neither has white space at an end or a line break.
pub read_env-write_env :
    (us : List (Text × Text)) (file j : Text)
    → AllFit us
    → is_dict us ≡ true
    → lookup j (read_env (write_env us file)) ≡ or_opt (lookup j us) (lookup j (read_env file))
unfolding read_env write_env lookup
read_env-write_env us file j fits d =
    lookup-read_lines j (splitlines (write_env us file)) []
    ∙ sym (or_opt-none (last j (splitlines (write_env us file))))
    ∙ last-final_text j (new_lines us (splitlines file))
        (new_lines-is_line us (splitlines file) fits (splitlines-is_line file))
    ∙ last-new_lines j us (splitlines file) fits d
    ∙ ap (or_opt (lookup j us))
        (or_opt-none (last j (splitlines file)) ∙ sym (lookup-read_lines j (splitlines file) []))
