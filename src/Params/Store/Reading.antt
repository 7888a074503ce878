-- ===== src/Params/Store/Reading.antt =====
-- Reading a parameter of a resolved set.
use rpp_cpp.Base.{◌≡◌, refl, ap, String, List, [], ◌∷◌, Option, none, some, ◌∙◌, arith}
use rpp_cpp.Base.Result.{Result, err, runtime_error}
use rpp_cpp.Base.Dict.{Dict, find, contains}
use rpp_cpp.Params.Value.{ParameterValue}
use rpp_cpp.Params.Convert.{ParameterConverter}
use rpp_cpp.Params.Store.{contains_parameter, get_parameter, parameter_not_found}
use rpp_cpp.Params.Store.Resolve.{ParameterDescription, resolve_description}
use rpp_cpp.Params.Store.Resolve.Laws.{default_of, resolved, find-resolve_description}

abbrev pub read : {T : Type 0} → ParameterConverter T → String → Option ParameterValue → Result T
read c name none = err (runtime_error (parameter_not_found name))
read c name (some v) = c.from v

get_parameter-eq :
    {T : Type 0} (c : ParameterConverter T) (name : String) (m : Dict ParameterValue)
    → get_parameter c (record { values = m }) name ≡ read c name (find name m)
unfolding get_parameter contains_parameter find contains
get_parameter-eq c name [] = refl
get_parameter-eq c name ((k, v) ∷ m) = ground (arith, get_parameter-eq c name m)

-- A component reads the instance's value of a described parameter, or else the default, through the
-- converter of the wanted type; a name that is not described is refused, also where the instance
-- gives it a value.
pub get-resolve :
    {T : Type 0} (c : ParameterConverter T) (name : String) (ds : List ParameterDescription)
    (given : Dict ParameterValue)
    → get_parameter c (resolve_description ds given) name
      ≡ read c name (resolved (default_of name ds none) (find name given))
get-resolve c name ds given =
    get_parameter-eq c name (resolve_description ds given).values
    ∙ ap (read c name) (find-resolve_description name ds given)
