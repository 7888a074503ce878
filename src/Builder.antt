-- ===== src/Builder.antt =====
-- class ComponentContextBuilder of include/rpp_cpp/context_builder.hpp. The file system and the JSON
-- library are those of the data manager; loading a plugin's shared library, reading a folder's
-- Python parameters and creating a server process are parameters.
pub mod Construction
pub mod Scripts
pub mod Prepared
pub mod Buildable
pub mod Resolve
pub mod Connections
pub mod Processes
use rpp_cpp.Base.{
  ℕ, zero, suc, Bool, true, false, not, String, ◌<>◌, ◌==◌, ◌||◌, ◌⊎◌, inl, inr, List, [], ◌∷◌,
  ◌++◌, map, Option, none, some, if◌then◌else◌,
}
use rpp_cpp.Base.Result.{
  Result, ok, err, Error, runtime_error, out_of_fuel, guard, or_throw, traverse, ◌>>=◌, ◌>>◌,
}
use rpp_cpp.Base.Dict.{Dict, find, insert}
use rpp_cpp.Text.Lower.{to_lower_copy}
use rpp_cpp.Files.{Filesystem}
use rpp_cpp.Json.{Json}
use rpp_cpp.Python.{member}
use rpp_cpp.Params.Value.{ParameterValue}
use rpp_cpp.Params.Store.Resolve.{resolve_params}
use rpp_cpp.Clock.{ClockOptions}
use rpp_cpp.Data.Plugin.{PluginInfo, is_cpp_source_language}
use rpp_cpp.Data.Component.{ComponentRecord, LinkedComponentRecord, SubcomponentInfo}
use rpp_cpp.Data.Script.{ScriptDescription, ScriptComponent, ComponentAssignments}
use rpp_cpp.Data.Manager.{
  load_component_info, get_linked_component_folder_path, get_subcomponent_folder_path,
  get_plugin_info_from_lib,
}
use rpp_cpp.External.{ExternalComponentSpec}
use rpp_cpp.Context.{ComponentContext, context, slots_of}

pub record ComponentRoot : Type 0 where
  pub path : String
  pub plugin_name : String

pub record ComponentNode : Type 0 where
  pub path : String
  pub parent_path : String
  pub plugin_name : String
  pub record_ : ComponentRecord
  pub plugin_info : PluginInfo

pub record PreparedAdaptedComponent (Plugin Process : Type 0) : Type 0 where
  pub instance_ : Plugin
  pub process : Process

-- What the builder calls: the files, RPP_HOME, the plugins' libraries, the Python parameters of a
-- folder, and ExternalComponentProcess::create with the builder's registry. `json_fuel` bounds the
-- depth of the metadata documents.
pub record Environment (Plugin Process : Type 0) : Type 1 where
  pub fs : Filesystem
  pub js : Json
  pub json_fuel : ℕ
  pub home : String
  pub load_plugin : PluginInfo → Result Plugin
  pub clock_options : ClockOptions
  pub load_parameters : String → Result (Dict ParameterValue)
  pub create_process : String → String → List ExternalComponentSpec → Result (Process × List Plugin)

module _ {Plugin Process : Type 0} (env : Environment Plugin Process) where
  abbrev pub load : String → Result (ComponentRecord ⊎ LinkedComponentRecord)
  load component_path = load_component_info env.fs env.js component_path

  -- The component that a link leads to must be none itself.
  unlinked : ComponentRecord ⊎ LinkedComponentRecord → Result ComponentRecord
  unlinked (inl r) = ok r
  unlinked (inr l) = err (runtime_error "Doubly linked components are not supported.")

  followed : String → String → ComponentRecord ⊎ LinkedComponentRecord → Result ComponentRecord
  unfolding unlinked
  followed parent_component_path plugin_name (inl r) = ok r
  followed parent_component_path plugin_name (inr l) = do
    guard (not (plugin_name == ""))
        (runtime_error "Plugin name must be provided for linked components.")
    path ←
        get_linked_component_folder_path env.fs parent_component_path plugin_name
          l.linked_component_id
    linked ← load path
    unlinked linked

  unfoldable pub resolve_component : String → String → String → Result ComponentRecord
  unfolding followed
  resolve_component component_path parent_component_path plugin_name = do
    component_record ← load component_path
    followed parent_component_path plugin_name component_record

  unfoldable pub plugin_of : ComponentRecord → Result PluginInfo
  plugin_of r = get_plugin_info_from_lib env.fs env.js env.json_fuel env.home r.plugin_name ""

  unfoldable pub make_component_node : String → String → String → Result ComponentNode
  unfolding resolve_component plugin_of
  make_component_node component_path parent_component_path plugin_name = do
    r ← resolve_component component_path parent_component_path plugin_name
    plugin_info ← plugin_of r
    ok (record {
      path = component_path;
      parent_path = parent_component_path;
      plugin_name = plugin_name;
      record_ = r;
      plugin_info = plugin_info;
    })

  abbrev pub joined : {A : Type 0} → Result (List A) → Result (List A) → Result (List A)
  joined before after = do xs ← before; ys ← after; ok (xs ++ ys)

  -- The two loops over the subcomponents, given the call for one node.
  unfoldable pub collect_each :
      (ComponentNode → Result (List ComponentNode))
      → ComponentNode
      → List SubcomponentInfo
      → Result (List ComponentNode)
  collect_each collect node [] = ok []
  collect_each collect node (s ∷ subcomponents) =
      joined
        (do
          child ←
              make_component_node (get_subcomponent_folder_path node.record_.folder s.id) node.path
                s.plugin_name
          collect child)
        (collect_each collect node subcomponents)

  unfoldable pub collect_slots :
      (ComponentNode → Result (List ComponentNode))
      → ComponentNode
      → Dict (List SubcomponentInfo)
      → Result (List ComponentNode)
  unfolding collect_each
  collect_slots collect node [] = ok []
  collect_slots collect node ((slot_name, subcomponents) ∷ rest) =
      joined (collect_each collect node subcomponents) (collect_slots collect node rest)

  -- collect_component_nodes: what it appends to `nodes`, on fuel for the depth of the tree.
  unfoldable pub collect_component_nodes : ℕ → ComponentNode → Result (List ComponentNode)
  unfolding collect_slots
  collect_component_nodes zero node = err out_of_fuel
  collect_component_nodes (suc fuel) node =
      if is_cpp_source_language node.plugin_info
      then joined (ok (node ∷ []))
          (collect_slots (collect_component_nodes fuel) node node.record_.subcomponents)
      else ok (node ∷ [])
