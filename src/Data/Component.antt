-- ===== src/Data/Component.antt =====
-- ComponentRecord and LinkedComponentRecord of include/rpp_cpp/data_model.hpp and
-- src/data_model.cpp.
pub mod Reading
use rpp_cpp.Base.{Bool, false, String, List, [], ◌∷◌, Option, none, some, if◌then◌else◌}
use rpp_cpp.Base.Result.{Result, ok, traverse, ◌>>=◌}
use rpp_cpp.Base.Dict.{Dict}
use mathlib.Core.Option
use rpp_cpp.Json.{Json, thrown, object_at, get_safe_string_from_json, insert_each_of}

pub record ParentComponentInfo : Type 0 where
  pub id : String
  pub plugin_type : String
  pub plugin_name : String
  pub slot_name : String
  pub library : String
  pub is_linked : Bool

pub record SubcomponentInfo : Type 0 where
  pub id : String
  pub name : String
  pub plugin_type : String
  pub plugin_name : String
  pub library : String
  pub folder : String
  pub slot_name : String
  pub is_linked : Bool

pub record ComponentRecord : Type 0 where
  pub id : String
  pub name : String
  pub plugin_type : String
  pub plugin_name : String
  pub library : String
  pub folder : String
  pub subcomponent_spec : Dict String
  pub subcomponents : Dict (List SubcomponentInfo)
  pub parent_component_info : Option ParentComponentInfo

pub record LinkedComponentRecord : Type 0 where
  pub id : String
  pub name : String
  pub folder : String
  pub linked_component_id : String
  pub linked_component_workspace : String
  pub parent_component_info : ParentComponentInfo

-- ParentComponentInfo as it is before anything is read
abbrev pub no_parent : ParentComponentInfo
no_parent = record {
  id = "";
  plugin_type = "";
  plugin_name = "";
  slot_name = "";
  library = "";
  is_linked = false;
}

module _ (js : Json) where
  open js use {Value}

  -- Both records read their parent so; the key of its id differs.
  read_parent : String → Value → Result ParentComponentInfo
  read_parent id_key parent_json = do
    id ← get_safe_string_from_json js parent_json id_key ""
    plugin_type ← get_safe_string_from_json js parent_json "PluginType" ""
    plugin_name ← get_safe_string_from_json js parent_json "PluginName" ""
    slot_name ← get_safe_string_from_json js parent_json "SlotName" ""
    library ← get_safe_string_from_json js parent_json "Library" ""
    is_linked ← thrown (js.value_bool parent_json "IsLinked" false)
    ok (record {
      id = id;
      plugin_type = plugin_type;
      plugin_name = plugin_name;
      slot_name = slot_name;
      library = library;
      is_linked = is_linked;
    })

  abbrev optional_parent : Option Value → Result (Option ParentComponentInfo)
  optional_parent none = ok none
  optional_parent (some parent_json) = do p ← read_parent "ComponentID" parent_json; ok (some p)

  abbrev linked_parent : Option Value → Result ParentComponentInfo
  linked_parent none = ok no_parent
  linked_parent (some parent_json) = read_parent "Id" parent_json

  -- The lambda parse_subcomponent.
  unfoldable pub parse_subcomponent : Value → Result SubcomponentInfo
  parse_subcomponent value = do
    id ← get_safe_string_from_json js value "Id" ""
    name ← get_safe_string_from_json js value "Name" ""
    plugin_type ← get_safe_string_from_json js value "PluginType" ""
    plugin_name ← get_safe_string_from_json js value "PluginName" ""
    library ← get_safe_string_from_json js value "Library" ""
    folder ← get_safe_string_from_json js value "Folder" ""
    slot_name ← get_safe_string_from_json js value "SlotName" ""
    is_linked ← thrown (js.value_bool value "IsLinked" false)
    ok (record {
      id = id;
      name = name;
      plugin_type = plugin_type;
      plugin_name = plugin_name;
      library = library;
      folder = folder;
      slot_name = slot_name;
      is_linked = is_linked;
    })

  -- What stands at one slot: an array of subcomponents, one of them, or something else, which
  -- leaves the slot empty.
  unfoldable pub parse_slot : Value → Result (List SubcomponentInfo)
  parse_slot sub_info =
      if js.is_array sub_info
      then traverse parse_subcomponent (js.elements sub_info)
      else if js.is_object sub_info
      then (do s ← parse_subcomponent sub_info; ok (s ∷ []))
      else ok []

  -- ComponentRecord::from_json
  unfoldable pub component_from_json : Value → String → Result ComponentRecord
  unfolding read_parent
  component_from_json j component_path = do
    id ← get_safe_string_from_json js j "Id" ""
    name ← get_safe_string_from_json js j "Name" ""
    plugin_type ← get_safe_string_from_json js j "PluginType" ""
    plugin_name ← get_safe_string_from_json js j "PluginName" ""
    library ← get_safe_string_from_json js j "Library" ""
    subcomponent_spec ←
        insert_each_of (λ s. thrown (js.get_string s))
          (Option.map js.items (object_at js j "SubcomponentSpec"))
    parent ← optional_parent (object_at js j "ParentComponentInfo")
    subcomponents ← insert_each_of parse_slot (Option.map js.items (object_at js j "Subcomponents"))
    ok (record {
      id = id;
      name = name;
      plugin_type = plugin_type;
      plugin_name = plugin_name;
      library = library;
      folder = component_path;
      subcomponent_spec = subcomponent_spec;
      subcomponents = subcomponents;
      parent_component_info = parent;
    })

  -- LinkedComponentRecord::from_json
  unfoldable pub linked_from_json : Value → String → Result LinkedComponentRecord
  unfolding read_parent
  linked_from_json j component_path = do
    id ← get_safe_string_from_json js j "Id" ""
    name ← get_safe_string_from_json js j "ComponentName" ""
    linked_component_id ← get_safe_string_from_json js j "LinkedComponentId" ""
    workspace ← get_safe_string_from_json js j "LinkedComponentWorkspace" ""
    parent ← linked_parent (object_at js j "ParentComponent")
    ok (record {
      id = id;
      name = name;
      folder = component_path;
      linked_component_id = linked_component_id;
      linked_component_workspace = workspace;
      parent_component_info = parent;
    })
