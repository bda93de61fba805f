-- ===== src/EnvFile/Settings.antt =====
-- One setting on a line of app/env_file.py, written and read.
use dmarc_geeks.Common.{
  Bool, Bool-cases, Text, [], all, ap, arith, false, inl, inr, is_empty, is_space, length,
  lstrip_by, not, refl, rstrip_by, some, split_once-append, strip, true, ℕ, ◌++◌, ◌==◌, ◌∷◌, ◌≡◌,
  ◌≤◌, nat_eq, text_eq,
}
use dmarc_geeks.EnvFile.{equals, is_skipped, unquote, assignment, parse_line, setting}
use dmarc_geeks.EnvFile.Lines.{is_line}

-- A key and a value that survive on one line of the file.
pub record IsSetting (k v : Text) : Type 0 where
  pub key_given : is_empty k ≡ false
  pub key_lead : lstrip_by is_space k ≡ k
  pub no_comment : is_skipped k ≡ false
  pub no_equals : all (λ c. not (c == equals)) k ≡ true
  pub key_trail : rstrip_by is_space k ≡ k
  pub value_lead : lstrip_by is_space v ≡ v
  pub value_trail : rstrip_by is_space v ≡ v
  pub value_bare : unquote v ≡ v
  pub key_line : is_line k ≡ true
  pub value_line : is_line v ≡ true

length-lstrip_by : (p : ℕ → Bool) (s : Text) → length (lstrip_by p s) ≤ length s
unfolding lstrip_by
length-lstrip_by p [] = omega arith
length-lstrip_by p (c ∷ s) = ground (arith, length-lstrip_by p s)

lstrip_by-append :
    (p : ℕ → Bool) (k rest : Text)
    → is_empty k ≡ false
    → lstrip_by p k ≡ k
    → lstrip_by p (k ++ rest) ≡ k ++ rest
unfolding lstrip_by
lstrip_by-append p [] rest h e = cc
lstrip_by-append p (c ∷ s) rest h e = elim (Bool-cases (p c)) [
  | inl space ↦ absurd (omega (arith, ap length (rw (space, lstrip_by) at e), length-lstrip_by p s))
  | inr solid ↦ rw solid
]

rstrip_by-cons :
    (p : ℕ → Bool) (c d : ℕ) (r : Text)
    → rstrip_by p (d ∷ r) ≡ d ∷ r
    → rstrip_by p (c ∷ d ∷ r) ≡ c ∷ d ∷ r
unfolding rstrip_by
rstrip_by-cons p c d r h = ground arith

rstrip_by-append :
    (p : ℕ → Bool) (a : Text) (d : ℕ) (r : Text)
    → rstrip_by p (d ∷ r) ≡ d ∷ r
    → rstrip_by p (a ++ d ∷ r) ≡ a ++ d ∷ r
rstrip_by-append p [] d r h = h
rstrip_by-append p (c ∷ []) d r h = rstrip_by-cons p c d r h
rstrip_by-append p (c ∷ e ∷ a) d r h =
    rstrip_by-cons p c e (a ++ d ∷ r) (rstrip_by-append p (e ∷ a) d r h)

rstrip_by-equals :
    (v : Text) → rstrip_by is_space v ≡ v → rstrip_by is_space (equals ∷ v) ≡ equals ∷ v
unfolding rstrip_by is_space
rstrip_by-equals [] h = refl
rstrip_by-equals (d ∷ r) h = ground arith

strip_of : (s : Text) → lstrip_by is_space s ≡ s → rstrip_by is_space s ≡ s → strip s ≡ s
unfolding strip
strip_of s h k = rw (h, k)

is_skipped-append : (k rest : Text) → is_empty k ≡ false → is_skipped (k ++ rest) ≡ is_skipped k
unfolding is_skipped
is_skipped-append [] rest h = cc
is_skipped-append (c ∷ k) rest h = refl

-- The written line of a setting is read as that setting.
pub parse_line-setting : (k v : Text) → IsSetting k v → parse_line (setting k v) ≡ some (k, v)
unfolding parse_line
parse_line-setting k v fits =
    let whole : strip (setting k v) ≡ setting k v =
      strip_of (setting k v)
        (lstrip_by-append is_space k (equals ∷ v) (fits.key_given) (fits.key_lead))
        (rstrip_by-append is_space k equals v (rstrip_by-equals v (fits.value_trail))) in
    rw (
      whole,
      assignment,
      is_skipped-append k (equals ∷ v) (fits.key_given),
      fits.no_comment,
      split_once-append equals k v (fits.no_equals),
      strip_of k (fits.key_lead) (fits.key_trail),
      strip_of v (fits.value_lead) (fits.value_trail),
      fits.value_bare,
    )
