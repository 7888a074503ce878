-- ===== src/Data/Manager/Library.antt =====
-- Resolving a script by its library and its name.
use rpp_cpp.Base.{◌≡◌, if◌then◌else◌, ◌⊎◌, Bool, String, ◌==◌, ◌&&◌, ◌||◌, List, ◌∷◌}
use rpp_cpp.Base.Result.{ok}
use rpp_cpp.Files.{Filesystem}
use rpp_cpp.Json.{Json, get_safe_string_from_json}
use rpp_cpp.Data.Manager.{load_json_file, matching}

module _ (fs : Filesystem) (js : Json) where
  open js use {Value}

  -- The file at `path` is a document that stores the script under its library and its name.
  abbrev pub Describes : String → String → String → String → Type 0
  Describes library_name unqualified_name qualified_name path =
      (j : Value) × (load_json_file fs js path ≡ ok j)
      × (get_safe_string_from_json js j "ScriptLibrary" "" ≡ ok library_name)
      × ((get_safe_string_from_json js j "ScriptName" "" ≡ ok unqualified_name)
          ⊎ (get_safe_string_from_json js j "ScriptName" "" ≡ ok qualified_name))

  module _ (lib name qualified : String) where
    abbrev names : String → String → Bool
    names stored_library stored_name =
        stored_library == lib && (stored_name == name || stored_name == qualified)

    record Step (p : String) (ps ms : List String) : Type 0 where
      j : Value
      stored_name : String
      stored_library : String
      rest : List String
      loaded : load_json_file fs js p ≡ ok j
      name_read : get_safe_string_from_json js j "ScriptName" "" ≡ ok stored_name
      library_read : get_safe_string_from_json js j "ScriptLibrary" "" ≡ ok stored_library
      later : matching fs js lib name qualified ps ≡ ok rest
      result : (if names stored_library stored_name then p ∷ rest else rest) ≡ ms
