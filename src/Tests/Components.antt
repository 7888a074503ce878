-- ===== src/Tests/Components.antt =====
-- Contexts, server processes and their command lines.
use rpp_cpp.Tests.Fixtures.{bare}
use rpp_cpp.Base.{
  ℕ, ◌≡◌, refl, ◌⊎◌, String, ◌==◌, List, [], ◌∷◌, length, none, some, nat_eq, arith, if◌then◌else◌,
}
use rpp_cpp.Base.Result.{Result, ok, err, runtime_error, invalid_argument}
use rpp_cpp.Base.Dict.{find}
use rpp_cpp.Base.Int.{ℤ, pos}
use rpp_cpp.Text.Lower.{to_lower, to_lower_copy}
use rpp_cpp.Data.Plugin.{PluginInfo}
use rpp_cpp.External.{
  ExternalComponentSpec, ExternalComponentProcessRegistry, Machine, create, command_for,
  load_clients,
}
use rpp_cpp.Server.{start_server, goes_on}
use rpp_cpp.Server.CommandLine.{described, create-start_server}
use rpp_cpp.Context.{
  ComponentContext, context, no_slots, slot, no_contexts, one, initialize, subcomponents,
  get_component, get_components, get_subcomponent_context, get_subcomponent_contexts,
}
use rpp_cpp.Context.Initialize.{instances, in_turn, initialize-order}
use rpp_cpp.Context.Lookup.{Answers, no_subcomponent, lookups_agree}

abbrev plugin_named : String → PluginInfo
plugin_named name = record {
  plugin_name = name;
  source_language = "Python";
  library = "lib";
  plugin_type_name = "";
  class_name = "";
  source_file = "";
  plugin_shared_library_path = "";
  plugin_type_shared_library_path = "";
  components = [];
  parameters = [];
}

-- A machine whose one port is 5000. A client is its connection's name.
abbrev machine : Machine String String (Unit {0})
machine = record {
  get_available_port = ok 5000;
  to_string = λ n. "5000";
  load_plugin_adapter_client = λ info name connection. ok connection;
  as_plugin = λ client. some client;
  external_component_process = λ command host port clients. ok tt;
}

abbrev stoi : String → Result ℤ
stoi s = if s == "5000" then ok (pos 5000) else err (invalid_argument "stoi")

abbrev two_specs : List ExternalComponentSpec
two_specs =
    record {
      component_path = "/parts/a";
      plugin_info = plugin_named "A";
      connection_name = "a_connection";
    }
    ∷ record {
      component_path = "--help";
      plugin_info = plugin_named "B";
      connection_name = "b_connection";
    }
    ∷ []

abbrev python_servers : ExternalComponentProcessRegistry
python_servers = record { commands = ("python", "server") ∷ [] }

abbrev whole_command : List String
whole_command =
    "server" ∷ "--host" ∷ "127.0.0.1" ∷ "--port" ∷ "5000" ∷ "--home" ∷ "/h" ∷ "--path" ∷ "/parts/a"
    ∷ "--plugin" ∷ "A" ∷ "--conn" ∷ "a_connection" ∷ "--path" ∷ "--help" ∷ "--plugin" ∷ "B"
    ∷ "--conn" ∷ "b_connection" ∷ []

abbrev two_plugins : List String
two_plugins = "a_connection" ∷ "b_connection" ∷ []

create-start_server_example :
    (server : String) × (argv : List String) × (command_for python_servers "python" ≡ ok server)
    × (whole_command ≡ server ∷ argv)
    × (start_server stoi "" argv ≡ goes_on (described stoi "/h" "127.0.0.1" 5000 two_specs))
    × (length two_plugins ≡ length two_specs)
create-start_server_example =
    create-start_server machine stoi "" "python" "/h" "127.0.0.1" 5000 two_specs python_servers tt
      two_plugins whole_command refl refl (omega arith) created
  where
    created :
        create machine "python" "/h" two_specs python_servers "127.0.0.1"
        ≡ ok (tt, two_plugins, whole_command)
    created = unfold create command_for load_clients to_lower_copy to_lower find in refl

abbrev leaf : ℕ → ComponentContext ℕ (Unit {0})
leaf n = context (bare none (some n)) no_slots

abbrev tree : ComponentContext ℕ (Unit {0})
tree =
    context (bare none (some 3))
      (slot "left" (one (leaf 1) (one (leaf 2) no_contexts)) (slot "right" no_contexts no_slots))

-- The second plugin throws.
abbrev start_plugin : ℕ → Result (Unit {0})
start_plugin n = if nat_eq n 2 then err (runtime_error "no device") else ok tt

initialize-order_example : initialize start_plugin tree ≡ in_turn start_plugin (instances tree)
initialize-order_example = initialize-order start_plugin tree

lookups_agree_example :
    ((cs : List (ComponentContext ℕ (Unit {0}))) × (find "left" (subcomponents tree) ≡ some cs)
      × Answers tree "left" cs)
    ⊎ ((find "left" (subcomponents tree) ≡ none)
        × (get_subcomponent_contexts tree "left" ≡ no_subcomponent tree "left")
        × (get_components tree "left" ≡ no_subcomponent tree "left")
        × (get_subcomponent_context tree "left" ≡ no_subcomponent tree "left")
        × (get_component tree "left" ≡ no_subcomponent tree "left"))
lookups_agree_example = lookups_agree tree "left"
