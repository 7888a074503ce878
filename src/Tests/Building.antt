-- ===== src/Tests/Building.antt =====
-- A C++ component with a Python subcomponent, on a small disk.
use rpp_cpp.Clock.{realtime, real_time, create_clock}
use rpp_cpp.Base.{
  ℕ, ◌≡◌, refl, sym, ap, ◌∙◌, ◌⊎◌, inl, inr, false, Bool-cases, String, List, [], ◌∷◌, map, length,
  length-map, ◌==◌, none,
}
use mathlib.Core.Option.{bind}
use rpp_cpp.Base.Result.{ok, or_throw, ok_inj, >>=-eq-ok}
use rpp_cpp.Base.Dict.{Dict, find, insert, contains}
use rpp_cpp.Text.Lower.{to_lower, to_lower_copy, is_upper}
use rpp_cpp.Text.Separator.{split_at_separator}
use rpp_cpp.Params.Value.{ParameterValue, str, object, field, end, entries}
use rpp_cpp.Json.{get_safe_string_from_json}
use rpp_cpp.Files.{Filesystem}
use rpp_cpp.Python.{member}
use rpp_cpp.Paths.{
  get_component_description_path, get_app_registry_plugin_json_path, parse_plugin_name,
}
use rpp_cpp.Data.Plugin.{PluginInfo, plugin_from_json, is_cpp_source_language}
use rpp_cpp.Data.Component.{
  ComponentRecord, LinkedComponentRecord, component_from_json, parse_slot, parse_subcomponent,
  linked_from_json,
}
use rpp_cpp.Text.Snake.{to_snake_case}
use rpp_cpp.Data.Manager.{
  get_linked_component_folder_path, get_plugin_id_from_name, load_component_info,
  get_plugin_info_from_lib, load_json_file, get_subcomponent_folder_path,
}
use rpp_cpp.External.{ExternalComponentSpec}
use rpp_cpp.Context.{ComponentContext}
use rpp_cpp.Builder.{
  Environment, ComponentNode, load, resolve_component, plugin_of, make_component_node,
  collect_component_nodes, collect_slots, collect_each,
}
use rpp_cpp.Builder.Construction.{
  Adapted, prepare_component_processes, prepare_groups, group_nodes, collect_roots, component_specs,
  hand_out, build_component_from_path,
}
use rpp_cpp.Builder.Prepared.{Gives, prepared-covers, Has, AdaptedAll}
use rpp_cpp.Builder.Resolve.{Followed, resolve_component_sound}
use rpp_cpp.Builder.Buildable.{Loads, prepared-builds}
use rpp_cpp.Tests.Fixtures.{documents, disk, fields, value_or_null}

abbrev component_json : String → String → ParameterValue
component_json id plugin = object (field "Id" (str id) (field "PluginName" (str plugin) end))

abbrev plugin_json : String → String → ParameterValue
plugin_json name language =
    object (field "PluginName" (str name) (field "SourceLanguage" (str language) end))

abbrev pub parts : Dict ParameterValue
parts =
    (
      "base",
      object (
          field "Id" (str "b") (
            field "PluginName" (str "lib::Base") (
              field "Subcomponents" (object (field "arm" (component_json "a" "lib::Arm") end))
                end))),
    )
    ∷ ("arm", component_json "a" "lib::Arm")
    ∷ ("Base", plugin_json "Base" "Cpp")
    ∷ ("Arm", plugin_json "Arm" "Python")
    ∷ []

abbrev pub part_disk : Filesystem
part_disk =
    disk
      (("/b/description.json", "base")
        ∷ ("/b/subcomponents/a/description.json", "arm")
        ∷ ("/h/registry/libraries/lib/rpp_plugins/Base.json", "Base")
        ∷ ("/h/registry/libraries/lib/rpp_plugins/Arm.json", "Arm")
        ∷ [])
      [] [] [] []

-- A plugin is a number: 0 in this process, 1 in a server.
abbrev pub environment : Environment ℕ (Unit {0})
environment = record {
  fs = part_disk;
  js = documents parts;
  json_fuel = 3;
  home = "/h";
  clock_options = record { type = realtime; initial_time = 0 };
  load_plugin = λ info. ok 0;
  load_parameters = λ folder. ok [];
  create_process = λ language home specs. ok (tt, map (λ s. 1) specs);
}

not_linked :
    (text : String)
    → contains "LinkedComponentId" (fields (value_or_null (find text parts))) ≡ false
unfolding find contains entries
not_linked text = elim (Bool-cases ("base" == text)) [
  | inl e ↦ rw e refl
  | inr a ↦ elim (Bool-cases ("arm" == text)) [
    | inl e ↦ rw (a, e) refl
    | inr b ↦ elim (Bool-cases ("Base" == text)) [
      | inl e ↦ rw (a, b, e) refl
      | inr c ↦ elim (Bool-cases ("Arm" == text)) [
        | inl e ↦ rw (a, b, c, e) refl
        | inr d ↦ rw (a, b, c, d) refl
      ]
    ]
  ]
]

environment-Loads : Loads environment
environment-Loads = record {
  unlinked = unlinked_one;
  clock = (real_time, unfold create_clock in refl);
  plugin = λ info. (0, refl);
  parameters = λ folder. ([], refl);
}
  where
    unlinked_one :
        (path : String) (r : ComponentRecord ⊎ LinkedComponentRecord)
        → load environment path ≡ ok r
        → (c : ComponentRecord) × (r ≡ inl c)
    unlinked_one path r e =
        unfold load_component_info in
        (let (text, f, e1) =
            >>=-eq-ok (or_throw (part_disk.read (get_component_description_path path)) _) _ e in
          let (c, g, e2) =
            >>=-eq-ok (component_from_json (documents parts) (value_or_null (find text parts)) path)
              _ (rw (not_linked text) at e1) in
          (c, sym (ok_inj e2)))

environment-Gives : Gives environment
environment-Gives language home specs process instances e =
    let p : map (λ (s : ExternalComponentSpec). 1) specs ≡ instances = cc (e) in
    ap length (sym p) ∙ length-map (λ (s : ExternalComponentSpec). 1) specs

abbrev component : String → String → String → ComponentRecord
component id plugin folder = record {
  id = id;
  name = "";
  plugin_type = "";
  plugin_name = plugin;
  library = "";
  folder = folder;
  subcomponent_spec = [];
  subcomponents = [];
  parent_component_info = none;
}

abbrev pub plugin_written : String → String → PluginInfo
plugin_written name language = record {
  plugin_name = name;
  source_language = language;
  library = "";
  plugin_type_name = "";
  class_name = "";
  source_file = "";
  plugin_shared_library_path = "";
  plugin_type_shared_library_path = "";
  components = [];
  parameters = [];
}

abbrev pub base_node : ComponentNode
base_node = record {
  path = "/b";
  parent_path = "/b";
  plugin_name = "";
  record_ = record (component "b" "lib::Base" "/b") {
    subcomponents =
        (
          "arm",
          record {
            id = "a";
            name = "";
            plugin_type = "";
            plugin_name = "lib::Arm";
            library = "";
            folder = "";
            slot_name = "";
            is_linked = false;
          }
              ∷ [],
        )
        ∷ [];
  };
  plugin_info = plugin_written "Base" "Cpp";
}

abbrev arm_table : Adapted environment
arm_table = ("/b/subcomponents/a", record { instance_ = 1; process = tt }) ∷ []

base_made : make_component_node environment "/b" "/b" "" ≡ ok base_node
unfolding make_component_node resolve_component plugin_of load_component_info
    get_component_description_path get_plugin_info_from_lib load_json_file parse_plugin_name
    split_at_separator get_app_registry_plugin_json_path component_from_json parse_slot
    parse_subcomponent plugin_from_json get_safe_string_from_json find contains insert entries
    member bind
base_made = refl

base_prepared : prepare_component_processes environment 3 (base_node ∷ []) ≡ ok arm_table
unfolding prepare_component_processes collect_component_nodes collect_slots collect_each
    prepare_groups group_nodes collect_roots component_specs hand_out is_cpp_source_language
    to_lower_copy to_lower get_subcomponent_folder_path make_component_node resolve_component
    plugin_of load_component_info get_component_description_path get_plugin_info_from_lib
    load_json_file parse_plugin_name split_at_separator get_app_registry_plugin_json_path
    component_from_json parse_slot parse_subcomponent plugin_from_json get_safe_string_from_json
    find contains insert entries member bind
base_prepared = refl

prepared-covers_example :
    (nodes : List ComponentNode) × (collect_roots environment 3 (base_node ∷ []) ≡ ok nodes)
    × AdaptedAll (Has environment arm_table) nodes
prepared-covers_example =
    prepared-covers environment 3 (base_node ∷ []) arm_table environment-Gives base_prepared

prepared-builds_example :
    (c : ComponentContext ℕ (Unit {0})) × (build_component_from_path environment 3 "/b" ≡ ok c)
prepared-builds_example =
    prepared-builds environment environment-Loads 3 "/b" base_node arm_table environment-Gives
      base_made base_prepared

-- The folder /x links to the arm.
abbrev link_json : ParameterValue
link_json = object (field "Id" (str "x") (field "LinkedComponentId" (str "a") end))

abbrev linking : Environment ℕ (Unit {0})
linking = record environment {
  fs =
      disk
        (("/p/q/x/description.json", "link")
          ∷ ("/p/q/x/../../lib__arm/a/description.json", "arm")
          ∷ [])
        ("/p/q/x/../../lib__arm/a" ∷ []) [] [] [];
  js = documents (("link", link_json) ∷ ("arm", component_json "a" "lib::Arm") ∷ []);
}

resolve_component_sound_example :
    (load linking "/p/q/x" ≡ ok (inl (component "a" "lib::Arm" "/p/q/x/../../lib__arm/a")))
    ⊎ Followed linking "/p/q/x" "/p/q/x" "lib::Arm"
        (component "a" "lib::Arm" "/p/q/x/../../lib__arm/a")
resolve_component_sound_example =
    resolve_component_sound linking "/p/q/x" "/p/q/x" "lib::Arm"
      (component "a" "lib::Arm" "/p/q/x/../../lib__arm/a") resolved
  where
    resolved :
        resolve_component linking "/p/q/x" "/p/q/x" "lib::Arm"
        ≡ ok (component "a" "lib::Arm" "/p/q/x/../../lib__arm/a")
    resolved =
        unfold resolve_component load_component_info get_component_description_path
          get_linked_component_folder_path get_plugin_id_from_name to_snake_case linked_from_json
          component_from_json get_safe_string_from_json find contains insert entries member bind
          is_upper to_lower in
        refl
