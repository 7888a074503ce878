-- ===== src/Builder/Construction.antt =====
-- The preparation of server processes and the construction of contexts, of class
-- ComponentContextBuilder, include/rpp_cpp/context_builder.hpp.
use rpp_cpp.Base.{
  ℕ, zero, suc, not, String, ◌<>◌, ◌==◌, List, [], ◌∷◌, ◌++◌, none, some, if◌then◌else◌,
}
use rpp_cpp.Base.Result.{
  Result, ok, err, Error, runtime_error, out_of_fuel, guard, or_throw, traverse, ◌>>=◌, ◌>>◌,
}
use rpp_cpp.Base.Dict.{Dict, find, insert}
use rpp_cpp.Text.Lower.{to_lower_copy}
use rpp_cpp.Python.{member}
use rpp_cpp.Params.Store.Resolve.{resolve_params}
use rpp_cpp.Data.Plugin.{PluginInfo, is_cpp_source_language}
use rpp_cpp.Data.Component.{ComponentRecord, SubcomponentInfo}
use rpp_cpp.Data.Manager.{get_subcomponent_folder_path}
use rpp_cpp.External.{ExternalComponentSpec}
use rpp_cpp.Context.{ComponentContext, component_context}
use rpp_cpp.Builder.{
  Environment, ComponentRoot, ComponentNode, PreparedAdaptedComponent, resolve_component, plugin_of,
  make_component_node, joined, collect_component_nodes,
}

-- `groups[key].push_back(node)`
abbrev pub push : {A : Type 0} → String → A → Dict (List A) → Dict (List A)
push key x groups = elim (find key groups) [
  | some xs ↦ insert key (xs ++ x ∷ []) groups
  | none ↦ insert key (x ∷ []) groups
]

-- The adapted nodes by their language.
unfoldable pub group_nodes :
    Dict (List ComponentNode) → List ComponentNode → Dict (List ComponentNode)
group_nodes groups [] = groups
group_nodes groups (node ∷ nodes) =
    group_nodes
      (if is_cpp_source_language node.plugin_info
        then groups
        else push (to_lower_copy node.plugin_info.source_language) node groups)
      nodes

abbrev pub connection_of : ComponentNode → String
connection_of node = node.record_.id <> "_connection"

-- The specs of a group, and the connection names in use after it.
unfoldable pub component_specs :
    List String → List ComponentNode → Result (List ExternalComponentSpec × List String)
component_specs names [] = ok ([], names)
component_specs names (node ∷ group) = do
  guard (not (member (connection_of node) names)) (
      runtime_error ("Duplicate adapted component connection name '" <> connection_of node <> "'."))
  (specs, used) ← component_specs (connection_of node ∷ names) group
  ok (
    record {
      component_path = node.record_.folder;
      plugin_info = node.plugin_info;
      connection_name = connection_of node;
    }
        ∷ specs,
    used,
  )

module _ {Plugin Process : Type 0} (env : Environment Plugin Process) where
  abbrev pub Adapted : Type 0
  Adapted = Dict (PreparedAdaptedComponent Plugin Process)

  -- The loop that hands out the instances: create gives one for each node of the group.
  unfoldable pub hand_out : Process → List ComponentNode → List Plugin → Adapted → Adapted
  hand_out process (node ∷ group) (i ∷ instances) adapted =
      hand_out process group instances
        (insert node.record_.folder (record { instance_ = i; process = process }) adapted)
  hand_out process _ _ adapted = adapted

  unfoldable pub prepare_groups : List String → Dict (List ComponentNode) → Adapted → Result Adapted
  unfolding component_specs hand_out
  prepare_groups names [] adapted = ok adapted
  prepare_groups names ((language, group) ∷ groups) adapted = do
    (specs, used) ← component_specs names group
    (process, instances) ← env.create_process language env.home specs
    prepare_groups used groups (hand_out process group instances adapted)

  unfoldable pub collect_roots : ℕ → List ComponentNode → Result (List ComponentNode)
  unfolding collect_component_nodes
  collect_roots fuel [] = ok []
  collect_roots fuel (root ∷ roots) =
      joined env (collect_component_nodes env fuel root) (collect_roots fuel roots)

  -- prepare_component_processes: the new adapted_components_.
  unfoldable pub prepare_component_processes : ℕ → List ComponentNode → Result Adapted
  unfolding collect_roots group_nodes prepare_groups
  prepare_component_processes fuel roots = do
    nodes ← collect_roots fuel roots
    prepare_groups [] (group_nodes [] nodes) []

  -- The loops over the slots, given build_for_component.
  unfoldable pub build_slots :
      (SubcomponentInfo → Result (ComponentContext Plugin Process))
      → Dict (List SubcomponentInfo)
      → Result (Dict (List (ComponentContext Plugin Process)))
  build_slots build [] = ok []
  build_slots build ((slot_name, infos) ∷ rest) = do
    contexts ← traverse build infos
    others ← build_slots build rest
    ok ((slot_name, contexts) ∷ others)

  unfoldable pub build_native_component :
      (String → String → String → Result (ComponentContext Plugin Process))
      → ComponentRecord
      → PluginInfo
      → Result (ComponentContext Plugin Process)
  unfolding build_slots component_context
  build_native_component build r plugin_info = do
    i ← env.load_plugin plugin_info
    params_module ← env.load_parameters r.folder
    subcomponents ←
        build_slots (λ s. build (get_subcomponent_folder_path r.folder s.id) r.folder s.plugin_name)
          r.subcomponents
    component_context (some i) (resolve_params plugin_info.parameters params_module) none
        subcomponents env.clock_options

  abbrev pub not_prepared : Error
  not_prepared = runtime_error "Adapted component was not prepared before context construction."

  unfoldable pub build_adapted :
      Adapted → ComponentRecord → PluginInfo → Result (ComponentContext Plugin Process)
  unfolding component_context
  build_adapted adapted r plugin_info = do
    prepared ← or_throw (find r.folder adapted) not_prepared
    params_module ← env.load_parameters r.folder
    component_context (some prepared.instance_)
        (resolve_params plugin_info.parameters params_module) (some prepared.process) []
        env.clock_options

  -- build_for_component, on fuel for the depth of the tree.
  unfoldable pub build_for_component :
      ℕ → Adapted → String → String → String → Result (ComponentContext Plugin Process)
  unfolding resolve_component plugin_of build_native_component build_adapted
  build_for_component zero adapted component_path parent_component_path plugin_name =
      err out_of_fuel
  build_for_component (suc fuel) adapted component_path parent_component_path plugin_name = do
    r ←
        resolve_component env component_path
          (if parent_component_path == "" then component_path else parent_component_path)
          plugin_name
    plugin_info ← plugin_of env r
    if is_cpp_source_language plugin_info
        then build_native_component (build_for_component fuel adapted) r plugin_info
        else build_adapted adapted r plugin_info

  unfoldable pub build_from_component_roots :
      ℕ → List ComponentRoot → Result (List (ComponentContext Plugin Process))
  unfolding make_component_node prepare_component_processes build_for_component
  build_from_component_roots fuel roots = do
    nodes ←
        traverse
          (λ (root : ComponentRoot). make_component_node env root.path root.path root.plugin_name)
          roots
    adapted ← prepare_component_processes fuel nodes
    traverse
        (λ (n : ComponentNode). build_for_component fuel adapted n.path n.parent_path n.plugin_name)
        nodes

  unfoldable pub build_component_from_path : ℕ → String → Result (ComponentContext Plugin Process)
  unfolding make_component_node prepare_component_processes build_for_component
  build_component_from_path fuel component_path = do
    node ← make_component_node env component_path component_path ""
    adapted ← prepare_component_processes fuel (node ∷ [])
    build_for_component fuel adapted component_path "" ""
