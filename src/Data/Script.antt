-- ===== src/Data/Script.antt =====
-- ScriptDescription of include/rpp_cpp/data_model.hpp and src/data_model.cpp.
use rpp_cpp.Base.{String, List, [], ◌∷◌, none, some, if◌then◌else◌}
use rpp_cpp.Base.Result.{Result, ok, traverse, ◌>>=◌}
use rpp_cpp.Base.Dict.{Dict, insert}
use mathlib.Core.Option
use rpp_cpp.Json.{Json, thrown, object_at, get_safe_string_from_json, insert_each_of}

pub record ScriptComponent : Type 0 where
  pub id : String
  pub plugin_name : String

abbrev pub ComponentAssignments : Type 0
ComponentAssignments = Dict (List ScriptComponent)

pub record ScriptDescription : Type 0 where
  pub script_path : String
  pub language : String
  pub configurations : Dict ComponentAssignments
  pub active_configuration : String
  pub spec : Dict String

module _ (js : Json) where
  open js use {Value}

  parse_script_component : Value → Result ScriptComponent
  parse_script_component component_json = do
    id ← get_safe_string_from_json js component_json "Id" ""
    plugin_name ← get_safe_string_from_json js component_json "PluginName" ""
    ok (record { id = id; plugin_name = plugin_name })

  -- The loop over the slots of a configuration: a slot that holds no array is passed over.
  parse_assignments : List (String × Value) → ComponentAssignments → Result ComponentAssignments
  parse_assignments [] assignments = ok assignments
  parse_assignments ((slot_name, components_json) ∷ slots) assignments =
      let skip = parse_assignments slots assignments in
      if js.is_array components_json
      then (do
        components ← traverse parse_script_component (js.elements components_json)
        parse_assignments slots (insert slot_name components assignments))
      else skip

  -- The loop over the configurations: one with no object of components is passed over.
  parse_configurations :
      List (String × Value) → Dict ComponentAssignments → Result (Dict ComponentAssignments)
  parse_configurations [] configurations = ok configurations
  parse_configurations ((name, configuration_json) ∷ rest) configurations =
      let skip = parse_configurations rest configurations in
      elim (object_at js configuration_json "Components") [
        | none ↦ skip
        | some components_json ↦ parse_assignments (js.items components_json) [] >>= λ assignments.
            parse_configurations rest (insert name assignments configurations)
      ]

  -- ScriptDescription::from_json
  unfoldable pub script_from_json : Value → String → Result ScriptDescription
  unfolding parse_script_component parse_assignments parse_configurations
  script_from_json j script_path = do
    path ← get_safe_string_from_json js j "ScriptPath" script_path
    language ← get_safe_string_from_json js j "Language" ""
    active_configuration ← get_safe_string_from_json js j "ActiveConfiguration" ""
    configurations ← elim (object_at js j "Configurations") [
      | none ↦ ok []
      | some configurations_json ↦ parse_configurations (js.items configurations_json) []
    ]
    spec ←
        insert_each_of (λ s. thrown (js.get_string s)) (Option.map js.items (object_at js j "Spec"))
    ok (record {
      script_path = path;
      language = language;
      configurations = configurations;
      active_configuration = active_configuration;
      spec = spec;
    })
