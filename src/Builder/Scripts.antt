-- ===== src/Builder/Scripts.antt =====
-- The scripts of class ComponentContextBuilder, include/rpp_cpp/context_builder.hpp.
pub mod Roots
pub mod Shape
use rpp_cpp.Base.{ℕ, String, ◌<>◌, List, [], ◌∷◌, is_empty, not, Option, none, some}
use rpp_cpp.Base.Result.{Result, ok, runtime_error, guard, or_throw, traverse, ◌>>=◌, ◌>>◌}
use rpp_cpp.Base.Dict.{Dict, find}
use rpp_cpp.Params.Store.{no_parameters}
use rpp_cpp.Data.Script.{ScriptDescription, ScriptComponent, ComponentAssignments}
use rpp_cpp.Data.Manager.{
  RppDataManager, get_default_script_description_path, get_script_description_path_from_library,
  get_default_script_parts_folder_path_from_description, get_component_path_in_parts_folder,
  load_script_description,
}
use rpp_cpp.Context.{ComponentContext, component_context}
use rpp_cpp.Builder.{Environment, ComponentNode, make_component_node, joined}
use rpp_cpp.Builder.Construction.{prepare_component_processes, build_for_component}

-- The configuration's name: the one that is asked for, or the active one.
abbrev pub selected_configuration : Option String → ScriptDescription → String
selected_configuration none d = d.active_configuration
selected_configuration (some name) d = name

unfoldable pub get_script_components :
    ScriptDescription → Option String → Result ComponentAssignments
get_script_components d configuration = do
  guard (not (is_empty d.configurations))
      (runtime_error "Script description does not define configurations.")
  or_throw (find (selected_configuration configuration d) d.configurations) (
      runtime_error
        ("Script configuration '" <> selected_configuration configuration d <> "' is not defined."))

module _ {Plugin Process : Type 0} (env : Environment Plugin Process) where
  abbrev pub path_in : String → ScriptComponent → Result String
  path_in parts_folder c = get_component_path_in_parts_folder env.fs parts_folder c.plugin_name c.id

  -- The first loop: a root for each component of each slot.
  pub script_roots : String → ComponentAssignments → Result (List ComponentNode)
  script_roots parts_folder [] = ok []
  script_roots parts_folder ((slot_name, assigned) ∷ rest) =
      joined env
        (traverse
          (λ (c : ScriptComponent).
            path_in parts_folder c >>= λ path. make_component_node env path path c.plugin_name)
          assigned)
        (script_roots parts_folder rest)

  unfoldable pub script_slots :
      (String → String → Result (ComponentContext Plugin Process))
      → String
      → ComponentAssignments
      → Result (Dict (List (ComponentContext Plugin Process)))
  script_slots build parts_folder [] = ok []
  script_slots build parts_folder ((slot_name, assigned) ∷ rest) = do
    contexts ←
        traverse
          (λ (c : ScriptComponent). path_in parts_folder c >>= λ path. build path c.plugin_name)
          assigned
    others ← script_slots build parts_folder rest
    ok ((slot_name, contexts) ∷ others)

  abbrev pub parts_of : String → Option String → String
  parts_of script_description_path (some parts_folder) = parts_folder
  parts_of script_description_path none =
      get_default_script_parts_folder_path_from_description env.fs script_description_path

  unfoldable pub build_script_from_description_path :
      ℕ → String → Option String → Option String → Result (ComponentContext Plugin Process)
  unfolding script_roots script_slots get_script_components component_context
  build_script_from_description_path fuel script_description_path configuration parts_folder = do
    d ← load_script_description env.fs env.js script_description_path
    components ← get_script_components d configuration
    let resolved_parts_folder = parts_of script_description_path parts_folder
    roots ← script_roots resolved_parts_folder components
    adapted ← prepare_component_processes env fuel roots
    subcomponents ←
        script_slots
          (λ path plugin_name. build_for_component env fuel adapted path path plugin_name)
          resolved_parts_folder components
    component_context none no_parameters none subcomponents env.clock_options

  unfoldable pub build_script_from_path :
      ℕ → String → Option String → Result (ComponentContext Plugin Process)
  unfolding build_script_from_description_path
  build_script_from_path fuel script_path configuration = do
    path ← get_default_script_description_path env.fs fuel script_path
    build_script_from_description_path fuel path configuration none

  unfoldable pub build_script_from_library :
      ℕ
      → RppDataManager
      → String
      → String
      → Option String
      → Result (ComponentContext Plugin Process)
  unfolding build_script_from_description_path
  build_script_from_library fuel m library_name script_name configuration = do
    path ← get_script_description_path_from_library env.fs env.js m library_name script_name
    build_script_from_description_path fuel path configuration none
