-- ===== src/Common/Strings.antt =====
-- Python's `str` as a list of code points, with the methods that the source calls.
-- `lower` is that of ASCII; the names, tags and keys that the source lowers are ASCII.
use Prim.Native.Nat.{ℕ, ◌+◌, ◌-◌}
use Prim.Native.Char.{code}
use Prim.Native.String.{String}
use mathlib.Core.Path.{◌≡◌, refl}
use mathlib.Core.Logic.{◌↔◌, ◌≢◌, inl, inr}
use dmarc_geeks.Common.Lists.{all}
use mathlib.Core.Bool.{Bool, true, false, ◌&&◌, ◌||◌, not}
use mathlib.Core.Option.{Option, none, some}
use mathlib.Core.List.{List, [], ◌∷◌, ◌++◌, map, reverse, reverse-append}
use native.Mathlib.Omega.{arith}
use dmarc_geeks.Common.Tests.{Bool-cases, leb, ltb, if◌then◌else◌, Eq, ◌==◌, nat_eq}

abbrev pub Text : Type 0
Text = List ℕ

-- A literal of the source.
abbrev pub text : String → Text
text String.[] = []
text (String.◌∷◌ c s) = code c ∷ text s

unfoldable pub text_beq : Text → Text → Bool
text_beq [] [] = true
text_beq (a ∷ s) (b ∷ t) = a == b && text_beq s t
text_beq _ _ = false

pub text_beq_iff : (s t : Text) → (text_beq s t ≡ true) ↔ (s ≡ t)
unfolding text_beq
text_beq_iff [] [] = (λ h. refl, λ h. refl)
text_beq_iff [] (b ∷ t) = (λ h. ground arith, λ h. ground arith)
text_beq_iff (a ∷ s) [] = (λ h. ground arith, λ h. ground arith)
text_beq_iff (a ∷ s) (b ∷ t) =
    (λ h. ground (arith, text_beq_iff s t), λ h. ground (arith, text_beq_iff s t))

instance abbrev pub text_eq : Eq Text
text_eq = record { beq = text_beq; beq_iff = text_beq_iff }

-- `s <= t`, by code points.
unfoldable pub text_leb : Text → Text → Bool
text_leb [] t = true
text_leb (a ∷ s) [] = false
text_leb (a ∷ s) (b ∷ t) = ltb a b || (a == b && text_leb s t)

unfoldable pub option_beq : Option Text → Option Text → Bool
option_beq none none = true
option_beq (some s) (some t) = text_beq s t
option_beq _ _ = false

pub option_beq_iff : (s t : Option Text) → (option_beq s t ≡ true) ↔ (s ≡ t)
unfolding option_beq
option_beq_iff none none = (λ h. refl, λ h. refl)
option_beq_iff none (some t) = (λ h. ground arith, λ h. ground arith)
option_beq_iff (some s) none = (λ h. ground arith, λ h. ground arith)
option_beq_iff (some s) (some t) =
    (λ h. ground (arith, text_beq_iff s t), λ h. ground (arith, text_beq_iff s t))

instance abbrev pub option_eq : Eq (Option Text)
option_eq = record { beq = option_beq; beq_iff = option_beq_iff }

unfoldable pub pair_beq : Text × Text → Text × Text → Bool
pair_beq (a, b) (c, d) = text_beq a c && text_beq b d

pub pair_beq_iff : (p q : Text × Text) → (pair_beq p q ≡ true) ↔ (p ≡ q)
unfolding pair_beq
pair_beq_iff (a, b) (c, d) = (
  λ h. ground (arith, text_beq_iff a c, text_beq_iff b d, h),
  λ h. ground (arith, text_beq_iff a c, text_beq_iff b d, h),
)

instance abbrev pub pair_eq : Eq (Text × Text)
pair_eq = record { beq = pair_beq; beq_iff = pair_beq_iff }

-- `str.isspace` of a code point.
unfoldable pub is_space : ℕ → Bool
is_space c =
    (leb 9 c && leb c 13)
    || (leb 28 c && leb c 32)
    || c == 133
    || c == 160
    || c == 5760
    || (leb 8192 c && leb c 8202)
    || c == 8232
    || c == 8233
    || c == 8239
    || c == 8287
    || c == 12288

unfoldable pub lstrip_by : (ℕ → Bool) → Text → Text
lstrip_by p [] = []
lstrip_by p (c ∷ s) = let rest = lstrip_by p s in if p c then rest else c ∷ s

-- `s.rstrip(…)`, by recursion from the end.
unfoldable pub rstrip_by : (ℕ → Bool) → Text → Text
rstrip_by p [] = []
rstrip_by p (c ∷ s) = elim (rstrip_by p s) [ [] ↦ if p c then [] else c ∷ [] | d ∷ r ↦ c ∷ d ∷ r ]

unfoldable pub strip : Text → Text
unfolding lstrip_by rstrip_by is_space
strip s = rstrip_by is_space (lstrip_by is_space s)

unfoldable pub starts_with : Text → Text → Bool
starts_with s [] = true
starts_with [] (p ∷ ps) = false
starts_with (c ∷ s) (p ∷ ps) = c == p && starts_with s ps

unfoldable pub ends_with : Text → Text → Bool
unfolding starts_with
ends_with s suffix = starts_with (reverse s) (reverse suffix)

-- `sub in s`.
unfoldable pub contains : Text → Text → Bool
unfolding starts_with
contains [] sub = starts_with [] sub
contains (c ∷ s) sub = starts_with (c ∷ s) sub || contains s sub

unfoldable pub lower_char : ℕ → ℕ
lower_char c = if leb 65 c && leb c 90 then c + 32 else c

unfoldable pub lower : Text → Text
unfolding lower_char
lower = map lower_char

unfoldable pub upper_char : ℕ → ℕ
upper_char c = if leb 97 c && leb c 122 then c - 32 else c

unfoldable pub upper : Text → Text
unfolding upper_char
upper = map upper_char

-- `s.partition(sep)` at a one-character separator: `none` if it does not occur.
unfoldable pub split_once : ℕ → Text → Option (Text × Text)
split_once sep [] = none
split_once sep (c ∷ s) =
    if c == sep
    then some ([], s)
    else elim (split_once sep s) [ none ↦ none | some (a, b) ↦ some (c ∷ a, b) ]

-- `s or None`.
unfoldable pub or_none : Text → Option Text
or_none [] = none
or_none (c ∷ s) = some (c ∷ s)

-- `o or d`, where the empty text is false too.
unfoldable pub or_else : Option Text → Text → Text
or_else none d = d
or_else (some []) d = d
or_else (some (c ∷ s)) d = c ∷ s

unfoldable pub join : Text → List Text → Text
join sep [] = []
join sep (s ∷ []) = s
join sep (s ∷ t ∷ r) = s ++ (sep ++ join sep (t ∷ r))

pub starts_with-append : (p s : Text) → starts_with (p ++ s) p ≡ true
unfolding starts_with
starts_with-append [] [] = refl
starts_with-append [] (c ∷ s) = refl
starts_with-append (c ∷ p) s = ground (arith, starts_with-append p s)

pub ends_with-append : (s suffix : Text) → ends_with (s ++ suffix) suffix ≡ true
unfolding ends_with
ends_with-append s suffix = rw reverse-append (starts_with-append (reverse suffix) (reverse s))

pub or_else-ne-nil : (o : Option Text) (d : Text) → d ≢ [] → or_else o d ≢ []
unfolding or_else
or_else-ne-nil none d h = h
or_else-ne-nil (some []) d h = h
or_else-ne-nil (some (c ∷ s)) d h = ground arith

-- The first separator is found where the front has none.
pub split_once-append :
    (sep : ℕ) (a b : Text)
    → all (λ c. not (c == sep)) a ≡ true
    → split_once sep (a ++ sep ∷ b) ≡ some (a, b)
unfolding split_once
split_once-append sep [] b h = ground arith
split_once-append sep (c ∷ a) b h = ground (arith, split_once-append sep a b)

-- Nothing is stripped from a text without white space.
rstrip_whole : (p : ℕ → Bool) (s : Text) → all (λ c. not (p c)) s ≡ true → rstrip_by p s ≡ s
unfolding rstrip_by
rstrip_whole p [] h = refl
rstrip_whole p (c ∷ []) h = ground (arith, h)
rstrip_whole p (c ∷ d ∷ s) h = rw (rstrip_whole p (d ∷ s) (ground (arith, h))) refl

pub strip_whole : (s : Text) → all (λ c. not (is_space c)) s ≡ true → strip s ≡ s
unfolding strip lstrip_by
strip_whole [] h = refl
strip_whole (c ∷ s) h = elim (Bool-cases (is_space c)) [
  | inl e ↦ absurd (ground (arith, e, h))
  | inr e ↦ rw e (rstrip_whole is_space (c ∷ s) h)
]
