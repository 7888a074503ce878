-- ===== src/Data/Manager.antt =====
-- class RppDataManager of include/rpp_cpp/data_manager.hpp. A manager has the home directory and the
-- workspace path, "" where there is none; the file system and the JSON library are parameters.
pub mod Scripts
pub mod Registry
pub mod Library
use Prim.Native.Nat.{Ordering}
use Prim.Native.String.{compare}
use rpp_cpp.Base.{
  ℕ, zero, suc, Bool, true, false, not, String, ◌<>◌, ◌==◌, ◌&&◌, ◌||◌, List, [], ◌∷◌, Option, none,
  some, ◌⊎◌, inl, inr, if◌then◌else◌,
}
use rpp_cpp.Base.Result.{
  Result, ok, err, Error, runtime_error, invalid_argument, out_of_fuel, or_throw, guard, ◌>>=◌,
  ◌>>◌,
}
use rpp_cpp.Text.Snake.{to_snake_case}
use rpp_cpp.Text.Separator.{split_at_separator}
use rpp_cpp.Paths.{
  parse_plugin_name, get_component_description_path, get_app_registry_plugin_json_path,
  get_app_library_manifest_path_json,
}
use rpp_cpp.Files.{Filesystem, Entry}
use rpp_cpp.Json.{Json, get_safe_string_from_json}
use rpp_cpp.Data.Plugin.{PluginInfo, plugin_from_json}
use rpp_cpp.Data.Component.{
  ComponentRecord, LinkedComponentRecord, component_from_json, linked_from_json,
}
use rpp_cpp.Data.Script.{ScriptDescription, script_from_json}

pub record RppDataManager : Type 0 where
  pub rpp_home_dir : String
  pub workspace_path : String

-- get_plugin_id_from_name
unfoldable pub get_plugin_id_from_name : String → String
get_plugin_id_from_name plugin_name = to_snake_case plugin_name

unfoldable pub get_subcomponent_folder_path : String → String → String
get_subcomponent_folder_path parent_component_path subcomponent_id =
    parent_component_path <> "/subcomponents/" <> subcomponent_id

module _ (fs : Filesystem) where
  -- normalize_workspace_path
  normalize_workspace_path : String → String
  normalize_workspace_path workspace_path =
      if workspace_path == ""
      then ""
      else let normalized_path = fs.absolute workspace_path in
        if fs.filename normalized_path == ".rppws"
        then normalized_path
        else fs.join normalized_path ".rppws"

  -- RppDataManager(rpp_home_dir, workspace_path)
  pub data_manager : String → String → RppDataManager
  unfolding normalize_workspace_path
  data_manager rpp_home_dir workspace_path = record {
    rpp_home_dir = rpp_home_dir;
    workspace_path = normalize_workspace_path workspace_path;
  }

  abbrev pub no_workspace : String → String
  no_workspace script_path = "Could not find a .rppws folder above script '" <> script_path <> "'."

  -- The loop of get_default_script_description_path, on fuel.
  find_workspace : ℕ → String → String → Result String
  find_workspace zero script_path current_path = err out_of_fuel
  find_workspace (suc fuel) script_path current_path =
      let rest = find_workspace fuel script_path (fs.parent_path current_path) in
      if current_path == ""
      then err (runtime_error (no_workspace script_path))
      else if fs.is_directory (fs.join current_path ".rppws")
      then ok (
          fs.join (fs.join (fs.join current_path ".rppws") "script_descriptions")
            (fs.stem script_path <> ".json"))
      else if fs.parent_path current_path == current_path
      then err (runtime_error (no_workspace script_path))
      else rest

  unfoldable pub get_default_script_description_path : ℕ → String → Result String
  unfolding find_workspace
  get_default_script_description_path fuel script_path =
      find_workspace fuel script_path (fs.parent_path script_path)

  -- Two levels up from the description, and down to "parts".
  unfoldable pub get_default_script_parts_folder_path_from_description : String → String
  get_default_script_parts_folder_path_from_description script_description_path =
      fs.join (fs.parent_path (fs.parent_path script_description_path)) "parts"

  unfoldable pub get_component_path_in_parts_folder : String → String → String → Result String
  unfolding get_plugin_id_from_name
  get_component_path_in_parts_folder parts_folder plugin_name component_id = do
    let full_path =
        parts_folder <> "/" <> get_plugin_id_from_name plugin_name <> "/" <> component_id
    guard (fs.exists full_path)
        (runtime_error ("Component folder not found at path: " <> full_path))
    ok full_path

  unfoldable pub get_linked_component_folder_path : String → String → String → Result String
  unfolding get_plugin_id_from_name
  get_linked_component_folder_path parent_component_path plugin_name linked_component_id = do
    let full_path =
        parent_component_path
        <> "/../../"
        <> get_plugin_id_from_name plugin_name
        <> "/"
        <> linked_component_id
    guard (fs.exists full_path)
        (runtime_error ("Linked component folder not found at path: " <> full_path))
    ok full_path

  -- The sorted paths of the .json files of a directory: the loop over its entries, then std::sort.
  unfoldable pub json_files : List Entry → List String
  json_files [] = []
  json_files (e ∷ entries) =
      let rest = json_files entries in
      if e.is_regular_file && fs.extension e.path == ".json" then e.path ∷ rest else rest

abbrev place : Ordering → String → String → List String → List String → List String
place Ordering.gt p q rest placed = q ∷ placed
place _ p q rest placed = p ∷ q ∷ rest

insert_path : String → List String → List String
insert_path p [] = p ∷ []
insert_path p (q ∷ paths) = place (compare p q) p q paths (insert_path p paths)

-- std::sort; the paths lie in one directory, so that their order is that of the texts
sort_paths : List String → List String
unfolding insert_path
sort_paths [] = []
sort_paths (p ∷ paths) = insert_path p (sort_paths paths)

module _ (fs : Filesystem) (js : Json) where
  open js use {Value}

  unfoldable pub load_json_file : String → Result Value
  load_json_file path = do
    text ← or_throw (fs.read path) (runtime_error ("Failed to open JSON file at path: " <> path))
    ok (js.parse text)

  -- The path lies under the global RPP_HOME, which need not be the manager's own home.
  load_library_manifest : String → String → Result Value
  load_library_manifest home library_name =
      load_json_file (get_app_library_manifest_path_json home library_name)

  -- get_library_plugins and get_library_plugin_types
  library_section : String → String → String → Result Value
  unfolding load_library_manifest
  library_section home key library_name = do
    manifest_json ← load_library_manifest home library_name
    guard (js.contains manifest_json key) (
        runtime_error (
          "Manifest file for library " <> library_name <> " does not contain '" <> key <> "' key."))
    ok (js.at manifest_json key)

  get_library_plugins : String → String → Result Value
  unfolding library_section
  get_library_plugins home library_name = library_section home "Plugins" library_name

  get_library_plugin_types : String → String → Result Value
  unfolding library_section
  get_library_plugin_types home library_name = library_section home "plugin_types" library_name

  unfoldable pub load_script_description : String → Result ScriptDescription
  load_script_description script_path = do
    text ←
        or_throw (fs.read script_path)
          (runtime_error ("Failed to open script description file at path: " <> script_path))
    script_from_json js (js.parse text) script_path

  -- A document with a linked component's id describes a linked component.
  component_of_document : Value → String → Result (ComponentRecord ⊎ LinkedComponentRecord)
  component_of_document j component_path =
      if js.contains j "LinkedComponentId"
      then (do r ← linked_from_json js j component_path; ok (inr r))
      else (do r ← component_from_json js j component_path; ok (inl r))

  -- load_component_info; the std::variant holds a ComponentRecord on the left
  unfoldable pub load_component_info : String → Result (ComponentRecord ⊎ LinkedComponentRecord)
  unfolding component_of_document
  load_component_info component_path = do
    let description_path = get_component_description_path component_path
    text ←
        or_throw (fs.read description_path) (
          runtime_error ("Failed to open component description file at path: " <> description_path))
    component_of_document (js.parse text) component_path

  -- The full name that get_plugin_info_from_lib looks up: without a library the given name, which
  -- must parse; the names that it binds by parsing are not used.
  plugin_full_name : String → String → Result String
  plugin_full_name plugin_name lib_name =
      if lib_name == ""
      then (do parsed ← parse_plugin_name plugin_name; ok plugin_name)
      else ok (lib_name <> "::" <> plugin_name)

  -- get_plugin_info_from_lib; `home` is RPP_HOME, not the manager's own directory
  unfoldable pub get_plugin_info_from_lib : ℕ → String → String → String → Result PluginInfo
  unfolding plugin_full_name load_json_file
  get_plugin_info_from_lib fuel home plugin_name lib_name = do
    full_name ← plugin_full_name plugin_name lib_name
    path ← get_app_registry_plugin_json_path home full_name
    guard (fs.exists path) (runtime_error ("Plugin JSON file not found for plugin: " <> full_name))
    as_json ← load_json_file path
    plugin_from_json js fuel as_json

  -- The loop that collects the descriptions which name the script.
  matching : String → String → String → List String → Result (List String)
  unfolding load_json_file
  matching library_name unqualified_name qualified_name [] = ok []
  matching library_name unqualified_name qualified_name (p ∷ descriptions) = do
    description ← load_json_file p
    stored_name ← get_safe_string_from_json js description "ScriptName" ""
    stored_library ← get_safe_string_from_json js description "ScriptLibrary" ""
    rest ← matching library_name unqualified_name qualified_name descriptions
    ok (
        if stored_library == library_name
          && (stored_name == unqualified_name || stored_name == qualified_name)
        then p ∷ rest
        else rest)

  -- The script's name without its library, which must be the given one.
  unqualified : String → String → Result String
  unqualified library_name script_name = elim (split_at_separator script_name) [
    | none ↦ ok script_name
    | some (lib, name) ↦
        if lib == library_name
        then ok name
        else err (
            invalid_argument (
              "Script '" <> script_name <> "' does not belong to library '" <> library_name
              <> "'."))
  ]

  the_match : RppDataManager → String → List String → Result String
  the_match m qualified_name [] = err (
      runtime_error (
        "Script '"
        <> qualified_name
        <> "' is not present in workspace '"
        <> fs.parent_path m.workspace_path
        <> "'."))
  the_match m qualified_name (p ∷ []) = ok p
  the_match m qualified_name (p ∷ q ∷ paths) =
      err (runtime_error ("Multiple descriptions found for script '" <> qualified_name <> "'."))

  unfoldable pub get_script_description_path_from_library :
      RppDataManager → String → String → Result String
  unfolding unqualified matching the_match json_files sort_paths
  get_script_description_path_from_library m library_name script_name = do
    guard (not (m.workspace_path == ""))
        (runtime_error "A workspace path is required to resolve a script by library and name.")
    unqualified_name ← unqualified library_name script_name
    let descriptions_path = fs.join m.workspace_path "script_descriptions"
    guard (fs.is_directory descriptions_path)
        (runtime_error ("Script descriptions folder not found: " <> descriptions_path))
    let descriptions = sort_paths (json_files fs (fs.entries descriptions_path))
    let qualified_name = library_name <> "::" <> unqualified_name
    matches ← matching library_name unqualified_name qualified_name descriptions
    the_match m qualified_name matches
