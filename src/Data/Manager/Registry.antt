-- ===== src/Data/Manager/Registry.antt =====
-- Looking plugins and components up.
use rpp_cpp.Base.{ℕ, ◌≡◌, refl, false, String, ◌<>◌, ◌==◌, none, some, [], inl}
use rpp_cpp.Base.Result.{ok}
use rpp_cpp.Text.Separator.{split_at_separator, split_at_separator_complete}
use rpp_cpp.Paths.{parse_plugin_name, get_component_description_path}
use rpp_cpp.Files.{Filesystem}
use rpp_cpp.Json.{Json}
use rpp_cpp.Data.Component.Reading.{component_from_json-discarded}
use rpp_cpp.Data.Manager.{get_plugin_info_from_lib, load_component_info}

module _ (fs : Filesystem) (js : Json) where
  open js use {Value}

  -- A plugin is found under its qualified name alone as under its own name and its library, if the
  -- library is named and the first separator is the one between the two.
  pub plugin_info-qualified :
      (fuel : ℕ) (home lib plugin : String)
      → (lib == "") ≡ false
      → split_at_separator (lib <> ":") ≡ none
      → get_plugin_info_from_lib fs js fuel home (lib <> "::" <> plugin) ""
        ≡ get_plugin_info_from_lib fs js fuel home plugin lib
  unfolding get_plugin_info_from_lib parse_plugin_name
  plugin_info-qualified fuel home lib plugin e h =
      rw (e, split_at_separator_complete lib plugin h) refl

  -- A description file whose text is no JSON document is not refused: the component that is loaded
  -- has nothing but its folder.
  pub load_component_info-discarded :
      (path text : String)
      → fs.read (get_component_description_path path) ≡ some text
      → ((key : String) → js.contains (js.parse text) key ≡ false)
      → load_component_info fs js path
        ≡ ok (
            inl (record {
              id = "";
              name = "";
              plugin_type = "";
              plugin_name = "";
              library = "";
              folder = path;
              subcomponent_spec = [];
              subcomponents = [];
              parent_component_info = none;
            }))
  unfolding load_component_info
  load_component_info-discarded path text r h =
      rw (r, h "LinkedComponentId", component_from_json-discarded js (js.parse text) path h) refl
