-- ===== src/EnvFile/Written.antt =====
-- The shape of the lines that `write_env` of app/env_file.py makes.
use dmarc_geeks.Common.{
  Bool, List, Option, Text, [], all, arith, false, if◌then◌else◌, is_empty, lookup, map, none, not,
  refl, some, true, ◌&&◌, ◌++◌, ◌∷◌, ◌≡◌, nat_eq, text_eq,
}
use dmarc_geeks.EnvFile.{
  equals, is_break, setting, rewrite, rewrite_as, appended, ends_full, new_lines, parse_line,
}
use dmarc_geeks.EnvFile.Lines.{is_line}
use dmarc_geeks.EnvFile.Settings.{IsSetting}
use dmarc_geeks.EnvFile.Last.{AllFit, fit_of_lookup}

all-append :
    {A : Type 0} → (p : A → Bool) (xs ys : List A) → all p (xs ++ ys) ≡ (all p xs && all p ys)
all-append p [] ys = refl
all-append p (x ∷ xs) ys = ground (arith, all-append p xs ys)

setting-is_line : (k v : Text) → IsSetting k v → is_line (setting k v) ≡ true
unfolding is_break
setting-is_line k v fits =
    rw (all-append (λ c. not (is_break c)) k (equals ∷ v), fits.key_line, fits.value_line) refl

rewrite-is_line :
    (us : List (Text × Text)) (l : Text)
    → AllFit us
    → is_line l ≡ true
    → is_line (rewrite us l) ≡ true
unfolding rewrite rewrite_as
rewrite-is_line us l fits h = by_line (parse_line l)
  where
    by_line : (o : Option (Text × Text)) → is_line (rewrite_as us l o) ≡ true
    by_line none = h
    by_line (some (k, old)) = by_update (lookup k us) refl
      where
        by_update :
            (o : Option Text) → lookup k us ≡ o → is_line (rewrite_as us l (some (k, old))) ≡ true
        by_update none e = rw (rewrite_as, e) h
        by_update (some new) e =
            rw (rewrite_as, e) (setting-is_line k new (fit_of_lookup k new us fits e))

kept-is_line :
    (us : List (Text × Text)) (ls : List Text)
    → AllFit us
    → all is_line ls ≡ true
    → all is_line (map (rewrite us) ls) ≡ true
kept-is_line us [] fits h = refl
kept-is_line us (l ∷ ls) fits h = ground (arith, rewrite-is_line us l fits, kept-is_line us ls fits)

appended-is_line :
    (us : List (Text × Text)) (ls : List Text) → AllFit us → all is_line (appended ls us) ≡ true
unfolding appended
appended-is_line [] ls fits = refl
appended-is_line ((k, v) ∷ us) ls (fit, fits) =
    ground (arith, setting-is_line k v fit, appended-is_line us ls fits)

pub new_lines-is_line :
    (us : List (Text × Text)) (ls : List Text)
    → AllFit us
    → all is_line ls ≡ true
    → all is_line (new_lines us ls) ≡ true
unfolding new_lines
new_lines-is_line us ls fits h =
    by_more (appended ls us) (ends_full kept) (appended-is_line us ls fits)
  where
    kept : List Text
    kept = map (rewrite us) ls

    by_more :
        (more : List Text) (b : Bool)
        → all is_line more ≡ true
        → all is_line (if is_empty more then kept else kept ++ (if b then [] ∷ more else more))
          ≡ true
    by_more [] b k = kept-is_line us ls fits h
    by_more (m ∷ more) true k =
        rw (all-append is_line kept ([] ∷ m ∷ more), kept-is_line us ls fits h, k) refl
    by_more (m ∷ more) false k =
        rw (all-append is_line kept (m ∷ more), kept-is_line us ls fits h, k) refl
