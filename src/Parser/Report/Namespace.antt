-- ===== src/Parser/Report/Namespace.antt =====
-- Documents of app/parser.py with a default namespace.
use mathlib.Core.Path.{ap₂}
use dmarc_geeks.Common.{
  Bool, Text, all, ends_with, ends_with-append, not, refl, split_once, split_once-append, text,
  true, ◌++◌, ◌==◌, ◌∷◌, ◌≡◌, nat_eq, text_eq,
}
use dmarc_geeks.Parser.Element.{
  Element, element, Elements, nil, cons, tag, local_name, strip_namespace, strip_namespaces,
}
use dmarc_geeks.Parser.Report.{normalized, parse_tree}

-- ElementTree's spelling of a tag in the namespace `ns`.
unfoldable pub qualified : Text → Text → Text
qualified ns t = (b'{' ∷ ns) ++ (b'}' ∷ t)

-- The tree with each tag in the namespace.
unfoldable mutual
  unfolding qualified

  pub qualify : Text → Element → Element
  qualify ns (element t x es) = element (qualified ns t) x (qualify_all ns es)

  pub qualify_all : Text → Elements → Elements
  qualify_all ns nil = nil
  qualify_all ns (cons e es) = cons (qualify ns e) (qualify_all ns es)

-- A namespace name holds no closing brace.
abbrev pub is_name : Text → Bool
is_name ns = all (λ c. not (c == b'}')) ns

local_name-qualified : (ns t : Text) → is_name ns ≡ true → local_name (qualified ns t) ≡ t
unfolding local_name qualified split_once
local_name-qualified ns t h = rw (split_once-append b'}' (b'{' ∷ ns) t h)

mutual
  unfolding strip_namespace qualify

  strip_namespace-qualify :
      (ns : Text) (e : Element) → is_name ns ≡ true → strip_namespace (qualify ns e) ≡ e
  strip_namespace-qualify ns (element t x es) h =
      ap₂ (λ u v. element u x v) (local_name-qualified ns t h)
        (strip_namespaces-qualify_all ns es h)

  strip_namespaces-qualify_all :
      (ns : Text) (es : Elements) → is_name ns ≡ true → strip_namespaces (qualify_all ns es) ≡ es
  strip_namespaces-qualify_all ns nil h = refl
  strip_namespaces-qualify_all ns (cons e es) h =
      ap₂ cons (strip_namespace-qualify ns e h) (strip_namespaces-qualify_all ns es h)

tag-qualify : (ns : Text) (e : Element) → tag (qualify ns e) ≡ qualified ns (tag e)
unfolding qualify
tag-qualify ns (element t x es) = refl

normalized-qualify :
    (ns : Text) (root : Element)
    → is_name ns ≡ true
    → tag root ≡ text "feedback"
    → normalized (qualify ns root) ≡ root
unfolding normalized ends_with qualified
normalized-qualify ns root h feedback =
    rw (tag-qualify ns root, feedback, ends_with-append (b'{' ∷ ns) (text "}feedback"))
      (strip_namespace-qualify ns root h)

normalized-plain : (root : Element) → tag root ≡ text "feedback" → normalized root ≡ root
unfolding normalized ends_with
normalized-plain root feedback = rw feedback

-- A report whose document declares a default namespace parses to the same result as the same
-- document without it, errors and other exceptions included.
pub parse_tree-qualify :
    (ns raw : Text) (root : Element)
    → is_name ns ≡ true
    → tag root ≡ text "feedback"
    → parse_tree raw (qualify ns root) ≡ parse_tree raw root
unfolding parse_tree
parse_tree-qualify ns raw root h feedback =
    rw (normalized-qualify ns root h feedback, normalized-plain root feedback)
