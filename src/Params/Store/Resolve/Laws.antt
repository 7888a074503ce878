-- ===== src/Params/Store/Resolve/Laws.antt =====
-- What a resolved parameter set holds.
use rpp_cpp.Base.{
  ◌≡◌, refl, String, ◌==◌, eq_iff, List, [], ◌∷◌, Option, none, some, arith, if◌then◌else◌,
}
use rpp_cpp.Base.Dict.{Dict, find, find-insert}
use rpp_cpp.Params.Value.{ParameterValue}
use rpp_cpp.Params.Store.Resolve.{
  ParameterDescription, override, resolve_list, resolve_description, resolve_map, resolve_params,
}

-- The default of the last description of that name.
abbrev pub default_of :
    String → List ParameterDescription → Option ParameterValue → Option ParameterValue
default_of name [] found = found
default_of name (d ∷ description) found =
    default_of name description (if d.name == name then some d.default_value else found)

-- What the parameter is worth, given its default and the instance's value: nothing if it is not
-- described, the instance's value if there is one, and the default if there is none.
abbrev pub resolved : Option ParameterValue → Option ParameterValue → Option ParameterValue
resolved none given = none
resolved (some default_value) (some v) = some v
resolved (some default_value) none = some default_value

resolved-override :
    (default_value : ParameterValue) (given : Option ParameterValue)
    → resolved (some default_value) given ≡ some (override given default_value)
resolved-override default_value none = refl
resolved-override default_value (some v) = refl

find-resolve_list :
    (name : String) (given : Dict ParameterValue) (ds : List ParameterDescription)
    (acc : Dict ParameterValue) (found : Option ParameterValue)
    → find name acc ≡ resolved found (find name given)
    → find name (resolve_list given acc ds) ≡ resolved (default_of name ds found) (find name given)
unfolding resolve_list
find-resolve_list name given [] acc found h = h
find-resolve_list name given (d ∷ ds) acc found h = find-resolve_list name given ds _ _ (
    rw find-insert
      (ground (arith, h, eq_iff d.name name, resolved-override d.default_value (find name given))))

-- The resolved set holds exactly the described parameters; each has the instance's value if the
-- instance gives one, and otherwise the default of the last description of that name. Values of the
-- instance that no description names are dropped.
pub find-resolve_description :
    (name : String) (ds : List ParameterDescription) (given : Dict ParameterValue)
    → find name (resolve_description ds given).values
      ≡ resolved (default_of name ds none) (find name given)
unfolding resolve_description find
find-resolve_description name ds given = find-resolve_list name given ds [] none refl

abbrev described : Dict ParameterValue → List ParameterDescription
described [] = []
described ((k, v) ∷ m) = record { name = k; default_value = v } ∷ described m

-- The two forms agree: a map of defaults is resolved as the list of its entries.
pub resolve_forms_agree :
    (m given : Dict ParameterValue)
    → (resolve_params m given).values ≡ (resolve_description (described m) given).values
unfolding resolve_params resolve_description
resolve_forms_agree m given = go m []
  where
    go :
        (m acc : Dict ParameterValue)
        → resolve_map given acc m ≡ resolve_list given acc (described m)
    go [] acc = refl
    go ((k, v) ∷ m) acc = go m _
