-- ===== src/Windows/Xml.antt =====
-- Trees of XML elements, as `xml.etree.ElementTree` gives them, and its lookups. Tags are without the
-- namespace SYNCML:SYNCML1.2, which all of them have; attributes and tails are left out.
use mdm_saa_s.Common.{String, Option, none, some, List, [], ◌∷◌, ◌++◌, ◌==◌, get_or, if◌then◌else◌}

mutual
  pub data Element : Type 0 where
    element : String → Option String → Elements → Element

  pub data Elements : Type 0 where
    nil : Elements
    cons : Element → Elements → Elements

abbrev pub tag : Element → String
tag (element t x es) = t

abbrev pub text : Element → Option String
text (element t x es) = x

abbrev pub children : Element → Elements
children (element t x es) = es

infixr 66 ◌+++◌
abbrev pub ◌+++◌ : Elements → Elements → Elements
nil +++ fs = fs
(cons e es) +++ fs = cons e (es +++ fs)

-- `find(name)` and `findall(name)`
abbrev pub find : String → Elements → Option Element
find name nil = none
find name (cons e es) = if tag e == name then some e else find name es

abbrev pub find_all : String → Elements → List Element
find_all name nil = []
find_all name (cons e es) = let rest = find_all name es in if tag e == name then e ∷ rest else rest

-- `findall(".//name")`: all descendants, in the order of the document
unfoldable mutual
  pub find_below : String → Elements → List Element
  find_below name nil = []
  find_below name (cons e es) = at_or_below name e ++ find_below name es

  pub at_or_below : String → Element → List Element
  at_or_below name (element t x es) =
      let below = find_below name es in if t == name then element t x es ∷ below else below

-- `findtext(name)` of an element that may be missing
abbrev pub found_text : Option Element → Option String
found_text none = none
found_text (some e) = some (get_or (text e) "")
