-- ===== src/Common/Split.antt =====
-- `s.split(c)` at a one-character separator, and its inverse `c.join(…)`.
use Prim.Native.Nat.{ℕ}
use mathlib.Core.Path.{◌≡◌, refl, ap, ◌∙◌}
use mathlib.Core.Logic.{◌≢◌}
use mathlib.Core.List.{List, [], ◌∷◌, ◌++◌}
use native.Mathlib.Omega.{arith}
use dmarc_geeks.Common.Tests.{if◌then◌else◌, ◌==◌, nat_eq}
use dmarc_geeks.Common.Lists.{All}
use dmarc_geeks.Common.Strings.{Text, join}

-- One more character at the front of the first part.
unfoldable pub extend : ℕ → List Text → List Text
extend c [] = (c ∷ []) ∷ []
extend c (s ∷ r) = (c ∷ s) ∷ r

unfoldable pub split : ℕ → Text → List Text
unfolding extend
split sep [] = [] ∷ []
split sep (c ∷ s) = let rest = split sep s in if c == sep then [] ∷ rest else extend c rest

abbrev pub Free : ℕ → Text → Type 0
Free sep s = All (λ c. c ≢ sep) s

split-ne-nil : (sep : ℕ) (s : Text) → split sep s ≢ []
unfolding split
split-ne-nil sep [] = ground arith
split-ne-nil sep (c ∷ s) =
    elim (split sep s) as (λ r. (if c == sep then [] ∷ r else extend c r) ≢ []) [
      | [] ↦ ground arith
      | t ∷ r ↦ ground arith
    ]

join-extend : (sep c : ℕ) (r : List Text) → join (sep ∷ []) (extend c r) ≡ c ∷ join (sep ∷ []) r
unfolding join extend
join-extend sep c [] = refl
join-extend sep c (s ∷ []) = refl
join-extend sep c (s ∷ t ∷ r) = refl

join-nil : (sep : ℕ) (r : List Text) → r ≢ [] → join (sep ∷ []) ([] ∷ r) ≡ sep ∷ join (sep ∷ []) r
unfolding join
join-nil sep [] h = absurd (h refl)
join-nil sep (s ∷ r) h = refl

pub join-split : (sep : ℕ) (s : Text) → join (sep ∷ []) (split sep s) ≡ s
unfolding split
join-split sep [] = unfold join in refl
join-split sep (c ∷ s) = ground (
  arith,
  join-split sep s,
  join-nil sep (split sep s) (split-ne-nil sep s),
  join-extend sep c (split sep s),
)

pub split_whole : (sep : ℕ) (s : Text) → Free sep s → split sep s ≡ s ∷ []
unfolding split
split_whole sep [] h = refl
split_whole sep (c ∷ s) (p, h) = ground (arith, split_whole sep s h)

pub split-append : (sep : ℕ) (s t : Text) → Free sep s → split sep (s ++ sep ∷ t) ≡ s ∷ split sep t
unfolding split
split-append sep [] t h = ground arith
split-append sep (c ∷ s) t (p, h) = ground (arith, split-append sep s t h)

pub split-join :
    (sep : ℕ) (parts : List Text)
    → parts ≢ []
    → All (Free sep) parts
    → split sep (join (sep ∷ []) parts) ≡ parts
unfolding join
split-join sep [] n h = absurd (n refl)
split-join sep (s ∷ []) n (p, h) = split_whole sep s p
split-join sep (s ∷ t ∷ r) n (p, h) =
    split-append sep s (join (sep ∷ []) (t ∷ r)) p
    ∙ ap (λ q. s ∷ q) (split-join sep (t ∷ r) (ground arith) h)

extend-Free : (sep c : ℕ) (r : List Text) → c ≢ sep → All (Free sep) r → All (Free sep) (extend c r)
unfolding extend
extend-Free sep c [] h k = ((h, tt), tt)
extend-Free sep c (s ∷ r) h (k, ks) = ((h, k), ks)

pub split-Free : (sep : ℕ) (s : Text) → All (Free sep) (split sep s)
unfolding split
split-Free sep [] = (tt, tt)
split-Free sep (c ∷ s) = ground (arith, split-Free sep s, extend-Free sep c (split sep s))
