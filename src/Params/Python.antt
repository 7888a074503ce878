-- ===== src/Params/Python.antt =====
-- The Python side of src/parameter_handler.cpp. Python objects and what the binding library answers
-- about them are a parameter: a cast that throws is `none`.
pub mod Laws
use rpp_cpp.Base.{ℕ, zero, suc, Bool, String, List, [], ◌∷◌, Option, none, some, if◌then◌else◌}
use rpp_cpp.Base.Result.{
  Result, ok, err, runtime_error, python_error, out_of_fuel, or_throw, guard, traverse, ◌>>=◌, ◌>>◌,
}
use rpp_cpp.Base.Dict.{Dict, insert}
use rpp_cpp.Base.Int.{ℤ}
use text.Mathlib.Text.{starts_with}
use rpp_cpp.Params.Value.{
  ParameterValue, boolean, int, double, str, array, object, array_of, object_of,
}

pub record Python : Type 1 where
  pub Handle : Type 0
  pub is_dict : Handle → Bool
  pub is_bool : Handle → Bool
  pub is_int : Handle → Bool
  pub is_float : Handle → Bool
  pub is_str : Handle → Bool
  pub is_list : Handle → Bool
  pub cast_bool : Handle → Option Bool
  pub cast_int64 : Handle → Option ℤ
  pub cast_double : Handle → Option ℕ
  pub cast_string : Handle → Option String
  pub elements : Handle → List Handle
  pub dict_items : Handle → List (Handle × Handle)
  pub attribute : Handle → String → Option Handle
  -- dataclasses.asdict(obj), cast to a dict
  pub asdict : Handle → Option Handle

module _ (py : Python) where
  open py use {Handle}

  -- ParameterHandler::get_python_object_as_dict
  unfoldable pub get_python_object_as_dict : Handle → Result Handle
  get_python_object_as_dict obj =
      if py.is_dict obj then ok obj else elim (py.attribute obj "__dataclass_fields__") [
        | some _ ↦ or_throw (py.asdict obj) (python_error "asdict")
        | none ↦ or_throw (py.attribute obj "__dict__") (python_error "__dict__")
      ]

  -- The loop over a dict that both readers have: names that begin with two underscores are skipped.
  unfoldable pub parse_items :
      (Handle → Result ParameterValue)
      → List (Handle × Handle)
      → Dict ParameterValue
      → Result (Dict ParameterValue)
  parse_items parse [] map = ok map
  parse_items parse ((k, v) ∷ items) map =
      let skip = parse_items parse items map in
      do
        key ← or_throw (py.cast_string k) (python_error "cast")
        if starts_with key "__"
            then skip
            else do value ← parse v; parse_items parse items (insert key value map)

  -- ParameterHandler::parse_parameter_from_python, on fuel: a Python object may contain itself.
  unfoldable pub parse_parameter_from_python : ℕ → Handle → Result ParameterValue
  unfolding parse_items get_python_object_as_dict
  parse_parameter_from_python zero value = err out_of_fuel
  parse_parameter_from_python (suc fuel) value =
      if py.is_bool value
      then (do b ← or_throw (py.cast_bool value) (python_error "cast"); ok (boolean b))
      else if py.is_int value
      then (do i ← or_throw (py.cast_int64 value) (python_error "cast"); ok (int i))
      else if py.is_float value
      then (do d ← or_throw (py.cast_double value) (python_error "cast"); ok (double d))
      else if py.is_str value
      then (do s ← or_throw (py.cast_string value) (python_error "cast"); ok (str s))
      else if py.is_list value
      then (do
        vec ← traverse (parse_parameter_from_python fuel) (py.elements value)
        ok (array (array_of vec)))
      else do
        target_dict ← get_python_object_as_dict value
        map ← parse_items (parse_parameter_from_python fuel) (py.dict_items target_dict) []
        ok (object (object_of map))

  -- ParameterHandler::load_parameters_from_python_module, from the imported module on.
  unfoldable pub load_parameters_from_python_module : ℕ → Handle → Result (Dict ParameterValue)
  load_parameters_from_python_module fuel params_module = do
    component_parameters ←
        or_throw (py.attribute params_module "ComponentParameters")
          (runtime_error "Class 'ComponentParameters' not found in the Python module.")
    target_dict ← get_python_object_as_dict component_parameters
    parse_items (parse_parameter_from_python fuel) (py.dict_items target_dict) []
