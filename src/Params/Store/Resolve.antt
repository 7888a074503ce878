-- ===== src/Params/Store/Resolve.antt =====
-- ParameterHandler::resolve_params of src/parameter_handler.cpp, in its two forms.
pub mod Laws
use rpp_cpp.Base.{String, List, [], ◌∷◌, Option, none, some}
use rpp_cpp.Base.Dict.{Dict, find, insert}
use rpp_cpp.Params.Value.{ParameterValue}
use rpp_cpp.Params.Convert.{ParameterConverter}
use rpp_cpp.Params.Store.{Parameters}

-- struct ParameterDescription
pub record ParameterDescription : Type 0 where
  pub name : String
  pub default_value : ParameterValue

-- ParameterDescription::create<T>(name, defaultValue)
unfoldable pub create : {T : Type 0} → ParameterConverter T → String → T → ParameterDescription
create c name default_value = record { name = name; default_value = c.to default_value }

-- The value in the instance, or else the default.
abbrev override : Option ParameterValue → ParameterValue → ParameterValue
override (some v) default_value = v
override none default_value = default_value

resolve_list :
    Dict ParameterValue → Dict ParameterValue → List ParameterDescription → Dict ParameterValue
resolve_list instance_values resolved [] = resolved
resolve_list instance_values resolved (d ∷ description) =
    resolve_list instance_values
      (insert d.name (override (find d.name instance_values) d.default_value) resolved) description

-- The form over a ParametersDescription.
pub resolve_description : List ParameterDescription → Dict ParameterValue → Parameters
unfolding resolve_list
resolve_description description instance_values = record {
  values = resolve_list instance_values [] description;
}

resolve_map : Dict ParameterValue → Dict ParameterValue → Dict ParameterValue → Dict ParameterValue
resolve_map instance_values resolved [] = resolved
resolve_map instance_values resolved ((name, default_value) ∷ description) =
    resolve_map instance_values
      (insert name (override (find name instance_values) default_value) resolved) description

-- The form over a map from names to defaults.
unfoldable pub resolve_params : Dict ParameterValue → Dict ParameterValue → Parameters
unfolding resolve_map
resolve_params description instance_values = record {
  values = resolve_map instance_values [] description;
}
