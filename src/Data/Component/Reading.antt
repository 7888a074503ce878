-- ===== src/Data/Component/Reading.antt =====
-- What a component record holds of its document.
use rpp_cpp.Base.{◌≡◌, ◌⊎◌, true, false, String, List, [], ◌∷◌, Option, none, some}
use rpp_cpp.Base.Result.{ok}
use rpp_cpp.Base.Dict.{Dict}
use mathlib.Core.Option
use rpp_cpp.Json.{Json, get_safe_string_from_json}
use rpp_cpp.Data.Component.{SubcomponentInfo, component_from_json}

module _ (js : Json) where
  open js use {Value}

  -- The entries of an object that may be missing.
  abbrev pub items_of : Option Value → List (String × Value)
  items_of none = []
  items_of (some o) = js.items o

  -- The text that a document has under a key: "" if there is none, or a null.
  abbrev pub HasText : Value → String → String → Type 0
  HasText v key text =
      ((js.contains v key ≡ true)
        × (js.is_null (js.at v key) ≡ false)
        × (js.get_string (js.at v key) ≡ some text))
      ⊎ (((js.contains v key ≡ false) ⊎ (js.is_null (js.at v key) ≡ true)) × (text ≡ ""))

  -- Each field of a subcomponent is what the document has under its key.
  pub record IsSubcomponent (v : Value) (s : SubcomponentInfo) : Type 0 where
    pub id : HasText v "Id" s.id
    pub name : HasText v "Name" s.name
    pub plugin_type : HasText v "PluginType" s.plugin_type
    pub plugin_name : HasText v "PluginName" s.plugin_name
    pub library : HasText v "Library" s.library
    pub folder : HasText v "Folder" s.folder
    pub slot_name : HasText v "SlotName" s.slot_name
    pub is_linked : js.value_bool v "IsLinked" false ≡ some s.is_linked

  -- The documents and the subcomponents, one for one, in order.
  abbrev pub AreSubcomponents : List Value → List SubcomponentInfo → Type 0
  AreSubcomponents [] [] = Unit
  AreSubcomponents (v ∷ vs) (s ∷ ss) = IsSubcomponent v s × AreSubcomponents vs ss
  AreSubcomponents _ _ = ⊥

  -- What a slot holds of the document there: all of an array, one object, or nothing.
  abbrev pub IsSlot : Value → List SubcomponentInfo → Type 0
  IsSlot v ss =
      ((js.is_array v ≡ true) × AreSubcomponents (js.elements v) ss)
      ⊎ ((js.is_array v ≡ false) × (js.is_object v ≡ true) × AreSubcomponents (v ∷ []) ss)
      ⊎ ((js.is_array v ≡ false) × (js.is_object v ≡ false) × (ss ≡ []))

  -- What a record holds at a slot, given the document's value there.
  abbrev pub SlotReads : Option Value → Option (List SubcomponentInfo) → Type 0
  SlotReads none found = found ≡ none
  SlotReads (some v) found = (ss : List SubcomponentInfo) × (found ≡ some ss) × IsSlot v ss

  -- A document that contains no key, such as the discarded value of a text that is not JSON, is read
  -- without an exception as a record with nothing but its folder.
  pub component_from_json-discarded :
      (j : Value) (path : String)
      → ((key : String) → js.contains j key ≡ false)
      → component_from_json js j path
        ≡ ok (record {
          id = "";
          name = "";
          plugin_type = "";
          plugin_name = "";
          library = "";
          folder = path;
          subcomponent_spec = [];
          subcomponents = [];
          parent_component_info = none;
        })
  unfolding component_from_json get_safe_string_from_json
  component_from_json-discarded j path h = simp h
