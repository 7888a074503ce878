-- ===== src/Paths/Names.antt =====
-- Plugin names, "library::plugin".
use rpp_cpp.Base.{◌≡◌, refl, String, ◌<>◌, ◌⊎◌, inl, inr, none, Option-cases}
use rpp_cpp.Base.Result.{ok, err, invalid_argument}
use rpp_cpp.Text.Separator.{
  split_at_separator, split_at_separator_sound, split_at_separator_complete,
}
use rpp_cpp.Paths.{parse_plugin_name, invalid_plugin_name, get_app_registry_plugin_json_path}

-- A plugin name is refused, or it is its library, the separator and its plugin, and no separator
-- begins earlier.
pub parse_plugin_name_sound :
    (name : String)
    → (parse_plugin_name name ≡ err (invalid_argument invalid_plugin_name))
      ⊎ ((lib : String) × (plugin : String) × (parse_plugin_name name ≡ ok (lib, plugin))
          × (name ≡ lib <> "::" <> plugin)
          × (split_at_separator (lib <> ":") ≡ none))
unfolding parse_plugin_name
parse_plugin_name_sound name = elim (Option-cases (split_at_separator name)) [
  | inl e ↦ inl (rw e refl)
  | inr ((lib, plugin), e) ↦
      let s = split_at_separator_sound name lib plugin e in inr (lib, plugin, rw e refl, s.0, s.1)
]

-- A qualified name is taken apart into the library and the plugin that it was made of, and its JSON
-- file lies in the directory of that library. The library's name, with one colon behind it, must
-- hold no separator.
pub plugin_json_path-qualified :
    (home lib plugin : String)
    → split_at_separator (lib <> ":") ≡ none
    → (parse_plugin_name (lib <> "::" <> plugin) ≡ ok (lib, plugin))
      × (get_app_registry_plugin_json_path home (lib <> "::" <> plugin)
          ≡ ok (home <> "/registry/libraries/" <> lib <> "/rpp_plugins/" <> plugin <> ".json"))
unfolding parse_plugin_name get_app_registry_plugin_json_path
plugin_json_path-qualified home lib plugin h =
    let e = split_at_separator_complete lib plugin h in (rw e refl, rw e refl)
