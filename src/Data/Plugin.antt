-- ===== src/Data/Plugin.antt =====
-- PluginInfo of include/rpp_cpp/data_model.hpp and src/data_model.cpp.
pub mod Metadata
use rpp_cpp.Base.{
  ℕ, zero, suc, Bool, false, String, List, [], ◌∷◌, map, Option, none, some, ◌==◌, if◌then◌else◌,
  ◌&&◌,
}
use rpp_cpp.Base.Result.{Result, ok, err, runtime_error, out_of_fuel, traverse, ◌>>=◌}
use rpp_cpp.Base.Dict.{Dict}
use rpp_cpp.Base.Int.{pos, wrap}
use mathlib.Core.Option
use rpp_cpp.Json.{Json, thrown, object_at, get_safe_string_from_json, insert_each, insert_each_of}
use rpp_cpp.Params.Value.{
  ParameterValue, boolean, int, double, str, array, object, array_of, object_of,
}
use rpp_cpp.Text.Lower.{to_lower_copy}

pub record PluginInfo : Type 0 where
  pub plugin_name : String
  pub source_language : String
  pub library : String
  pub plugin_type_name : String
  pub class_name : String
  pub source_file : String
  pub plugin_shared_library_path : String
  pub plugin_type_shared_library_path : String
  -- plugin_metadata
  pub components : Dict String
  pub parameters : Dict ParameterValue

unfoldable pub is_cpp_source_language : PluginInfo → Bool
is_cpp_source_language info = to_lower_copy info.source_language == "cpp"

module _ (js : Json) where
  open js use {Value}

  -- The branches of parse_parameter_value, given the call for what lies inside. The bit pattern of
  -- 0.0 is 0; value(key, 0) is an int, to which the library narrows a number by static_cast.
  parse_default : (Value → Result ParameterValue) → Value → String → Result ParameterValue
  parse_default parse_inner param_value type =
      if type == "int"
      then (do
        i ← thrown (js.value_int param_value "default_value" (pos 0))
        ok (int (wrap 2147483648 i)))
      else if type == "float"
      then (do d ← thrown (js.value_double param_value "default_value" 0); ok (double d))
      else if type == "bool"
      then (do b ← thrown (js.value_bool param_value "default_value" false); ok (boolean b))
      else if type == "string"
      then (do s ← thrown (js.value_string param_value "default_value" ""); ok (str s))
      else if type == "array"
      then (do
        list_values ← traverse parse_inner (
            if js.contains param_value "elements" && js.is_array (js.at param_value "elements")
            then js.elements (js.at param_value "elements")
            else [])
        ok (array (array_of list_values)))
      else if type == "object"
      then (do
        dict_values ←
            insert_each parse_inner
              (if js.contains param_value "fields" && js.is_object (js.at param_value "fields")
                then js.items (js.at param_value "fields")
                else [])
              []
        ok (object (object_of dict_values)))
      else err (runtime_error "Unsupported parameter value type.")

  -- The lambda parse_parameter_value of PluginInfo::from_json, on fuel for the depth of the
  -- document.
  unfoldable pub parse_parameter_value : ℕ → Value → Result ParameterValue
  unfolding parse_default
  parse_parameter_value zero param_value = err out_of_fuel
  parse_parameter_value (suc fuel) param_value = do
    type ← thrown (js.value_string param_value "type" "")
    parse_default (parse_parameter_value fuel) param_value type

  -- PluginInfo::from_json
  unfoldable pub plugin_from_json : ℕ → Value → Result PluginInfo
  unfolding get_safe_string_from_json
  plugin_from_json fuel j = do
    plugin_name ← get_safe_string_from_json js j "PluginName" ""
    source_language ← get_safe_string_from_json js j "SourceLanguage" ""
    library ← get_safe_string_from_json js j "Library" ""
    plugin_type_name ← get_safe_string_from_json js j "PluginType" ""
    class_name ← get_safe_string_from_json js j "ClassName" ""
    source_file ← get_safe_string_from_json js j "SourceFile" ""
    shared_path ← get_safe_string_from_json js j "PluginSharedLibraryPath" ""
    type_shared_path ← get_safe_string_from_json js j "PluginTypeSharedLibraryPath" ""
    let metadata = object_at js j "PluginMetadata"
    components ←
        insert_each_of (λ c. thrown (js.get_string c))
          (Option.map js.items (Option.bind metadata (λ m. object_at js m "Components")))
    parameters ←
        insert_each_of (parse_parameter_value fuel)
          (Option.map js.items (Option.bind metadata (λ m. object_at js m "Parameters")))
    ok (record {
      plugin_name = plugin_name;
      source_language = source_language;
      library = library;
      plugin_type_name = plugin_type_name;
      class_name = class_name;
      source_file = source_file;
      plugin_shared_library_path = shared_path;
      plugin_type_shared_library_path = type_shared_path;
      components = components;
      parameters = parameters;
    })
