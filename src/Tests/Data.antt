-- ===== src/Tests/Data.antt =====
-- The data model and the data manager, over a small disk.
use rpp_cpp.Base.{
  ℕ, ◌<◌, ◌≡◌, refl, ◌⊎◌, inl, inr, true, false, String, ◌<>◌, ◌==◌, [], ◌∷◌, none, some, eq_iff,
  Bool-cases, if◌then◌else◌, arith,
}
use rpp_cpp.Base.Result.{ok}
use rpp_cpp.Base.Dict.{find}
use rpp_cpp.Base.Int.{pos}
use rpp_cpp.Params.Value.{ParameterValue, int, str, object, Object, end, field, entries}
use rpp_cpp.Json.{Json}
use rpp_cpp.Files.{Filesystem, ParentsEnd}
use rpp_cpp.Text.Separator.{split_at_separator}
use rpp_cpp.Data.Plugin.{parse_parameter_value}
use rpp_cpp.Data.Plugin.Metadata.{kind_name, parse_parameter_value-kind}
use rpp_cpp.Data.Component.{ComponentRecord}
use rpp_cpp.Data.Manager.{
  RppDataManager, get_default_script_description_path, get_plugin_info_from_lib,
}
use rpp_cpp.Data.Manager.Registry.{plugin_info-qualified}
use rpp_cpp.Data.Manager.Scripts.{above, is_workspace, default_description-nearest}
use mathlib.Core.Path.{subst}
use rpp_cpp.Python.{member}
use rpp_cpp.Tests.Fixtures.{documents, disk}

abbrev int_default : ParameterValue
int_default = object (field "default_value" (int (pos 12)) (field "type" (str "int") end))

abbrev no_texts : Json
no_texts = documents []

int_default_read : parse_parameter_value no_texts 2 int_default ≡ ok (int (pos 12))
int_default_read = unfold parse_parameter_value find entries in refl

parse_parameter_value-kind_example :
    no_texts.value_string int_default "type" "" ≡ some (kind_name (int (pos 12)))
parse_parameter_value-kind_example =
    parse_parameter_value-kind no_texts 2 int_default (int (pos 12)) int_default_read

-- One more than the largest int.
abbrev large_default : ParameterValue
large_default = object (field "default_value" (int (pos 2147483648)) (field "type" (str "int") end))

-- A component with one subcomponent, at the slot "inner".
abbrev inner_slot : Object
inner_slot = field "inner" (object (field "Id" (str "i1") end)) end

abbrev component_document : ParameterValue
component_document = object (field "Id" (str "c1") (field "Subcomponents" (object inner_slot) end))

abbrev component_record : ComponentRecord
component_record = record {
  id = "c1";
  name = "";
  plugin_type = "";
  plugin_name = "";
  library = "";
  folder = "/parts/c1";
  subcomponent_spec = [];
  subcomponents =
      (
        "inner",
        record {
          id = "i1";
          name = "";
          plugin_type = "";
          plugin_name = "";
          library = "";
          folder = "";
          slot_name = "";
          is_linked = false;
        }
            ∷ [],
      )
      ∷ [];
  parent_component_info = none;
}

-- A text that is no document: its value is null, which contains no key.
abbrev broken_disk : Filesystem
broken_disk = disk (("/parts/c1/description.json", "{") ∷ []) [] [] [] []

plugin_info-qualified_example :
    get_plugin_info_from_lib broken_disk no_texts 3 "/home/.rpp" ("control" <> "::" <> "Pid") ""
    ≡ get_plugin_info_from_lib broken_disk no_texts 3 "/home/.rpp" "Pid" "control"
plugin_info-qualified_example =
    plugin_info-qualified broken_disk no_texts 3 "/home/.rpp" "control" "Pid" refl no_separator
  where
    no_separator : split_at_separator ("control" <> ":") ≡ none
    no_separator = unfold split_at_separator in refl

-- A workspace that holds a script in a folder below it.
abbrev workspace : Filesystem
workspace =
    disk [] ("/w/.rppws" ∷ []) []
      (("/w/a/run.py", "/w/a") ∷ ("/w/a", "/w") ∷ ("/w", "/") ∷ ("/", "/") ∷ [])
      (("/w/a/run.py", "run") ∷ [])

default_description-nearest_example :
    (n : ℕ) × (is_workspace workspace (above workspace n (workspace.parent_path "/w/a/run.py"))
      ≡ true)
    × ("/w/.rppws/script_descriptions/run.json"
        ≡ workspace.join
            (workspace.join
              (workspace.join (above workspace n (workspace.parent_path "/w/a/run.py")) ".rppws")
              "script_descriptions")
            (workspace.stem "/w/a/run.py" <> ".json"))
    × ((i : ℕ)
        → i < n
        → is_workspace workspace (above workspace i (workspace.parent_path "/w/a/run.py")) ≡ false)
default_description-nearest_example =
    default_description-nearest workspace 9 "/w/a/run.py" "/w/.rppws/script_descriptions/run.json"
      found
  where
    found :
        get_default_script_description_path workspace 9 "/w/a/run.py"
        ≡ ok "/w/.rppws/script_descriptions/run.json"
    found = unfold get_default_script_description_path member find in refl

abbrev path_size : String → ℕ
path_size p =
    if "/w/a/run.py" == p
    then 4
    else if "/w/a" == p
    then 3
    else if "/w" == p
    then 2
    else if "/" == p
    then 1
    else if "" == p
    then 0
    else 1

abbrev Shorter : String → Type 0
Shorter p = (path_size (workspace.parent_path p) < path_size p) ⊎ (workspace.parent_path p ≡ p)

elsewhere-Shorter :
    (p : String)
    → ("/w/a/run.py" == p) ≡ false
    → ("/w/a" == p) ≡ false
    → ("/w" == p) ≡ false
    → ("/" == p) ≡ false
    → Shorter p
unfolding find
elsewhere-Shorter p a b c d = elim (Bool-cases ("" == p)) [
  | inl e ↦ subst Shorter ((eq_iff "" p).0 e) (inr refl)
  | inr e ↦ rw (a, b, c, d, e) (inl (omega arith))
]

path-Shorter : (p : String) → Shorter p
unfolding find
path-Shorter p = elim (Bool-cases ("/w/a/run.py" == p)) [
  | inl e ↦ subst Shorter ((eq_iff "/w/a/run.py" p).0 e) (inl (omega arith))
  | inr a ↦ elim (Bool-cases ("/w/a" == p)) [
    | inl e ↦ subst Shorter ((eq_iff "/w/a" p).0 e) (inl (omega arith))
    | inr b ↦ elim (Bool-cases ("/w" == p)) [
      | inl e ↦ subst Shorter ((eq_iff "/w" p).0 e) (inl (omega arith))
      | inr c ↦ elim (Bool-cases ("/" == p)) [
        | inl e ↦ subst Shorter ((eq_iff "/" p).0 e) (inr refl)
        | inr d ↦ elsewhere-Shorter p a b c d
      ]
    ]
  ]
]

workspace-ParentsEnd : ParentsEnd workspace path_size
workspace-ParentsEnd = record { shorter = path-Shorter }

-- A workspace with the descriptions of two scripts.
abbrev script_document : String → ParameterValue
script_document name =
    object (field "ScriptLibrary" (str "lib") (field "ScriptName" (str name) end))

abbrev scripts : Json
scripts = documents (("one", script_document "run") ∷ ("two", script_document "lib::stop") ∷ [])

abbrev script_disk : Filesystem
script_disk =
    disk (("d/1.json", "one") ∷ ("d/2.json", "two") ∷ []) ("w/script_descriptions" ∷ [])
      ((
        "w/script_descriptions",
        record { path = "d/2.json"; is_regular_file = true }
            ∷ record { path = "d/1.json"; is_regular_file = true }
            ∷ [],
      )
        ∷ [])
      [] []

abbrev manager : RppDataManager
manager = record { rpp_home_dir = "/home/.rpp"; workspace_path = "w" }
