-- ===== src/Parser/Element.antt =====
-- The part of ElementTree that app/parser.py reads: `find`, `findall`, `iter`, tags and texts.
use dmarc_geeks.Common.{
  List, Option, Text, [], if◌then◌else◌, int_of, none, or_none, some, split_once, strip, ℕ, ℤ, ◌==◌,
  ◌∷◌, nat_eq, text_eq,
}

mutual
  pub data Element : Type 0 where
    element : Text → Option Text → Elements → Element

  pub data Elements : Type 0 where
    nil : Elements
    cons : Element → Elements → Elements

abbrev pub tag : Element → Text
tag (element t x es) = t

abbrev pub content : Element → Option Text
content (element t x es) = x

abbrev pub children : Element → Elements
children (element t x es) = es

-- `node.find(path)` and `node.findall(path)` at a plain tag, over the children of the node.
unfoldable pub find_in : Text → Elements → Option Element
find_in path nil = none
find_in path (cons e es) = if tag e == path then some e else find_in path es

unfoldable pub findall_in : Text → Elements → List Element
findall_in path nil = []
findall_in path (cons e es) =
    let rest = findall_in path es in if tag e == path then e ∷ rest else rest

abbrev pub find_child : Element → Text → Option Element
find_child e path = find_in path (children e)

-- `x.find(path) if x is not None else None`
abbrev pub find_opt : Option Element → Text → Option Element
find_opt none path = none
find_opt (some e) path = find_child e path

unfoldable pub stripped : Option Text → Option Text
stripped none = none
stripped (some t) = or_none (strip t)

unfoldable pub text_of : Option Element → Option Text
unfolding stripped
text_of none = none
text_of (some e) = stripped (content e)

-- `_text`
unfoldable pub text_at : Option Element → Text → Option Text
unfolding text_of
text_at node path = text_of (find_opt node path)

unfoldable pub int_opt : Option Text → Option ℤ
int_opt none = none
int_opt (some t) = int_of t

-- `_int`
unfoldable pub int_at : Option Element → Text → Option ℤ
unfolding int_opt
int_at node path = int_opt (text_at node path)

abbrev brace : ℕ
brace = b'}'

-- `elem.tag.split("}", 1)[1]` where the tag holds a brace.
unfoldable pub local_name : Text → Text
local_name t = elim (split_once brace t) [ none ↦ t | some (a, b) ↦ b ]

-- The loop over `root.iter()`.
unfoldable mutual
  unfolding local_name

  pub strip_namespace : Element → Element
  strip_namespace (element t x es) = element (local_name t) x (strip_namespaces es)

  pub strip_namespaces : Elements → Elements
  strip_namespaces nil = nil
  strip_namespaces (cons e es) = cons (strip_namespace e) (strip_namespaces es)
