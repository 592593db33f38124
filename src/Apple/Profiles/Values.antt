-- ===== src/Apple/Profiles/Values.antt =====
-- The values of property lists, which the builders of profiles make.
use mdm_saa_s.Common.{ℕ, String, Bool, Option, none, some, List, [], ◌∷◌, map, ◌==◌, if◌then◌else◌}

-- The values of a property list.
mutual
  pub data Value : Type 0 where
    text : String → Value
    number : ℕ → Value
    flag : Bool → Value
    array : Values → Value
    dict : Entries → Value

  pub data Values : Type 0 where
    nil : Values
    cons : Value → Values → Values

  pub data Entries : Type 0 where
    end : Entries
    entry : String → Value → Entries → Entries

abbrev pub list_of : List Value → Values
list_of [] = nil
list_of (v ∷ vs) = cons v (list_of vs)

abbrev pub dict_of : List (String × Value) → Entries
dict_of [] = end
dict_of ((k, v) ∷ es) = entry k v (dict_of es)

abbrev pub texts_of : List String → Value
texts_of xs = array (list_of (map text xs))

-- `d[key]`
unfoldable pub lookup : String → Entries → Option Value
lookup key end = none
lookup key (entry k v es) = if k == key then some v else lookup key es
