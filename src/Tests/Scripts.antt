-- ===== src/Tests/Scripts.antt =====
-- A script with one slot, whose component is the arm.
use rpp_cpp.Clock.{create_clock}
use rpp_cpp.Base.Dict.{insert, contains, find}
use rpp_cpp.Params.Value.{
  items, entries, object_of, array_of, ParameterValue, str, object, array, field, end, cons, nil,
}
use rpp_cpp.Paths.{
  get_component_description_path, parse_plugin_name, get_app_registry_plugin_json_path,
}
use rpp_cpp.Data.Manager.{
  load_component_info, get_component_path_in_parts_folder, load_json_file,
  get_subcomponent_folder_path, get_plugin_info_from_lib, get_plugin_id_from_name,
  get_linked_component_folder_path, get_default_script_parts_folder_path_from_description,
  load_script_description,
}
use rpp_cpp.Builder.{
  make_component_node, resolve_component, plugin_of, collect_slots, collect_each,
  collect_component_nodes, Environment, ComponentNode,
}
use rpp_cpp.Python.{member}
use rpp_cpp.Text.Lower.{to_lower, is_upper, to_lower_copy, has_char}
use rpp_cpp.Text.Snake.{to_snake_case}
use rpp_cpp.Data.Script.{script_from_json, ScriptDescription, ComponentAssignments}
use rpp_cpp.Text.Separator.{split_at_separator}
use rpp_cpp.Params.Store.Resolve.{resolve_params}
use rpp_cpp.Data.Plugin.{plugin_from_json, parse_parameter_value, is_cpp_source_language}
use rpp_cpp.Data.Component.{parse_subcomponent, parse_slot, linked_from_json, component_from_json}
use rpp_cpp.Context.{
  slots_of, contexts_of, ComponentContext, context, no_slots, slot, no_contexts, one, own,
  subcomponents,
}
use rpp_cpp.Builder.Construction.{
  prepare_groups, prepare_component_processes, hand_out, group_nodes, component_specs,
  collect_roots, build_slots, build_native_component, build_for_component, build_adapted, Adapted,
}
use mathlib.Core.Option.{bind}
use rpp_cpp.Base.{ℕ, ◌≡◌, refl, String, List, [], ◌∷◌, none, some}
use rpp_cpp.Base.Result.{ok}
use rpp_cpp.Builder.Scripts.{build_script_from_description_path, get_script_components}
use rpp_cpp.Builder.Scripts.Roots.{all_assigned, AreRoots}
use rpp_cpp.Builder.Scripts.Shape.{Matches, IsChosen, IsPartsFolder, build_script-Matches}
use rpp_cpp.Tests.Building.{environment, parts}
use rpp_cpp.Tests.Fixtures.{bare, documents, disk}

abbrev script_json : ParameterValue
script_json = object (
    field "ActiveConfiguration" (str "main") (
      field "Configurations"
        (object (
          field "main"
            (object (
              field "Components"
                (object (
                  field "tool"
                    (array (
                      cons (object (field "Id" (str "a") (field "PluginName" (str "lib::Arm") end)))
                        nil))
                    end))
                end))
            end))
        end))

abbrev pub scripting : Environment ℕ (Unit {0})
scripting = record environment {
  fs =
      disk
        (("/s.json", "script")
          ∷ ("/p/lib__arm/a/description.json", "arm")
          ∷ ("/h/registry/libraries/lib/rpp_plugins/Arm.json", "Arm")
          ∷ [])
        ("/p/lib__arm/a" ∷ []) [] [] [];
  js = documents (("script", script_json) ∷ parts);
}

abbrev arm_context : ComponentContext ℕ (Unit {0})
arm_context = context (bare (some tt) (some 1)) no_slots

abbrev script_context : ComponentContext ℕ (Unit {0})
script_context = context (bare none none) (slot "tool" (one arm_context no_contexts) no_slots)

script_built :
    build_script_from_description_path scripting 3 "/s.json" none (some "/p") ≡ ok script_context
unfolding build_script_from_description_path component_from_json bind build_adapted
    build_for_component build_native_component build_slots collect_roots component_specs group_nodes
    hand_out prepare_component_processes prepare_groups get_script_components
    collect_component_nodes collect_each collect_slots plugin_of resolve_component contexts_of
    slots_of linked_from_json parse_slot parse_subcomponent
    get_default_script_parts_folder_path_from_description get_linked_component_folder_path
    get_plugin_id_from_name get_plugin_info_from_lib get_subcomponent_folder_path load_json_file
    is_cpp_source_language parse_parameter_value plugin_from_json resolve_params array_of object_of
    get_app_registry_plugin_json_path parse_plugin_name has_char to_lower_copy split_at_separator
    load_script_description find script_from_json contains get_component_path_in_parts_folder
    to_snake_case is_upper to_lower member make_component_node load_component_info
    get_component_description_path entries items insert create_clock
script_built = refl

build_script-Matches_example :
    (d : ScriptDescription) × (name : String) × (components : ComponentAssignments)
    × (parts : String) × (roots : List ComponentNode) × (adapted : Adapted scripting)
    × (load_script_description scripting.fs scripting.js "/s.json" ≡ ok d)
    × IsChosen d none name
    × (find name d.configurations ≡ some components)
    × IsPartsFolder scripting "/s.json" (some "/p") parts
    × AreRoots scripting parts (all_assigned components) roots
    × (prepare_component_processes scripting 3 roots ≡ ok adapted)
    × Matches scripting 3 adapted parts components (subcomponents script_context)
    × ((own script_context).instance_ ≡ none)
build_script-Matches_example =
    build_script-Matches scripting 3 "/s.json" none (some "/p") script_context script_built
