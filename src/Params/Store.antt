-- ===== src/Params/Store.antt =====
-- class Parameters of include/rpp_cpp/parameters.hpp, and ParameterHandler::resolve_params of
-- src/parameter_handler.cpp, which fills it.
pub mod Resolve
pub mod Reading
use rpp_cpp.Base.{String, ◌<>◌, Bool, List, [], ◌∷◌, none, some, if◌then◌else◌, not}
use rpp_cpp.Base.Result.{Result, ok, err, runtime_error, out_of_range, guard, or_throw, ◌>>=◌, ◌>>◌}
use rpp_cpp.Base.Dict.{Dict, find, contains}
use rpp_cpp.Params.Value.{ParameterValue}
use rpp_cpp.Params.Convert.{ParameterConverter}

pub record Parameters : Type 0 where
  pub values : Dict ParameterValue

-- Parameters()
abbrev pub no_parameters : Parameters
no_parameters = record { values = [] }

-- Parameters::contains
unfoldable pub contains_parameter : Parameters → String → Bool
unfolding contains
contains_parameter p name = contains name p.values

abbrev pub parameter_not_found : String → String
parameter_not_found name = "Parameter '" <> name <> "' not found."

-- Parameters::get<T>; std::map::at throws out_of_range on a key that is missing.
unfoldable pub get_parameter : {T : Type 0} → ParameterConverter T → Parameters → String → Result T
unfolding contains_parameter
get_parameter c p name = do
  guard (contains_parameter p name) (runtime_error (parameter_not_found name))
  v ← or_throw (find name p.values) out_of_range
  c.from v
