-- ===== src/Paths.antt =====
-- src/rpp_paths.cpp: the home directory, plugin names, and the places of the registry's files. The
-- global RPP_HOME is an argument, `home`.
pub mod Names
use rpp_cpp.Base.{String, ◌<>◌, Option, none, some}
use rpp_cpp.Base.Result.{Result, ok, err, invalid_argument, or_throw, ◌>>=◌}
use rpp_cpp.Text.Separator.{split_at_separator}

-- The initial value of RPP_HOME, from the environment variables RPP_HOME and HOME.
unfoldable pub initial_rpp_home : Option String → Option String → String
initial_rpp_home (some rpp_home) home = rpp_home
initial_rpp_home none (some home) = home <> "/.rpp"
initial_rpp_home none none = "/tmp/.rpp"

abbrev pub invalid_plugin_name : String
invalid_plugin_name = "Invalid plugin name format. Expected 'library_name::plugin_name'"

unfoldable pub parse_plugin_name : String → Result (String × String)
parse_plugin_name plugin_name =
    or_throw (split_at_separator plugin_name) (invalid_argument invalid_plugin_name)

unfoldable pub get_component_description_path : String → String
get_component_description_path component_path = component_path <> "/description.json"

unfoldable pub get_app_registry_dir : String → String
get_app_registry_dir home = home <> "/registry"

unfoldable pub get_app_libraries_dir : String → String
get_app_libraries_dir home = home <> "/libraries"

unfoldable pub get_app_interfaces_dir : String → String
get_app_interfaces_dir home = home <> "/interfaces"

unfoldable pub get_app_registry_json_path : String → String
get_app_registry_json_path home = home <> "/registry/rpp_plugin_types.json"

unfoldable pub get_app_registry_plugin_type_json_path : String → String → Result String
get_app_registry_plugin_type_json_path home plugin_type_name = do
  (lib_name, plugin_type) ← parse_plugin_name plugin_type_name
  ok (home <> "/registry/libraries/" <> lib_name <> "/rpp_plugin_types/" <> plugin_type <> ".json")

unfoldable pub get_app_registry_plugin_json_path : String → String → Result String
get_app_registry_plugin_json_path home plugin_name = do
  (lib_name, plugin_type) ← parse_plugin_name plugin_name
  ok (home <> "/registry/libraries/" <> lib_name <> "/rpp_plugins/" <> plugin_type <> ".json")

unfoldable pub get_app_plugin_types_dir : String → String
get_app_plugin_types_dir home = home <> "/interfaces"

unfoldable pub get_app_library_manifest_path_json : String → String → String
unfolding get_app_registry_dir
get_app_library_manifest_path_json home library_name =
    get_app_registry_dir home <> "/" <> library_name <> "/manifest.json"
