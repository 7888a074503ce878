-- ===== src/Tests/Hosting.antt =====
-- A server that hosts the C++ component of the small disk, started by the command line of create.
use rpp_cpp.Clock.{create_clock}
use rpp_cpp.Tests.Fixtures.{bare}
use rpp_cpp.Text.Separator.{split_at_separator}
use rpp_cpp.Base.Dict.{contains, insert, find}
use rpp_cpp.Data.Plugin.{plugin_from_json, is_cpp_source_language, parse_parameter_value}
use rpp_cpp.Paths.{
  get_app_registry_plugin_json_path, get_component_description_path, parse_plugin_name,
  get_app_registry_dir,
}
use rpp_cpp.Params.Value.{entries, object_of, array_of}
use rpp_cpp.Data.Component.{component_from_json, parse_subcomponent, linked_from_json, parse_slot}
use rpp_cpp.Data.Manager.{
  load_component_info, get_plugin_info_from_lib, load_json_file, get_subcomponent_folder_path,
  get_plugin_id_from_name, get_linked_component_folder_path,
}
use rpp_cpp.Builder.Construction.{
  Adapted, build_from_component_roots, prepare_groups, prepare_component_processes, hand_out,
  group_nodes, component_specs, collect_roots, build_slots, build_native_component,
  build_for_component, build_adapted,
}
use mathlib.Core.Option.{bind}
use rpp_cpp.Text.Snake.{to_snake_case}
use rpp_cpp.Text.Lower.{is_upper, has_char, to_lower, to_lower_copy}
use rpp_cpp.Server.Hosting.{
  register_all, register, component_roots, build_roots, attach, Machine, hosts, build_host,
  component_server, hosted,
}
use rpp_cpp.Params.Store.Resolve.{resolve_params}
use rpp_cpp.Loader.{
  load_plugin_adapter_server, load_from_shared_library, from_symbol, configured, configure_loaded,
  Linker, handle, factory, ServerAdapterParams,
}
use rpp_cpp.Json.{get_safe_string_from_json}
use rpp_cpp.Host.{
  server_host, add_server, ServerAdapterInfo, RppServerHost, capability_request, run,
}
use rpp_cpp.Context.{
  slots_of, initialize, get_instance, contexts_of, ComponentContext, context, no_slots, slot,
  no_contexts, one,
}
use rpp_cpp.Builder.{
  resolve_component, plugin_of, make_component_node, collect_slots, collect_each,
  collect_component_nodes,
}
use rpp_cpp.Base.{
  ℕ, ◌≡◌, refl, Bool, true, false, String, ◌==◌, List, [], ◌∷◌, none, some, arith, if◌then◌else◌,
}
use rpp_cpp.Base.Result.{Result, ok, err, invalid_argument}
use rpp_cpp.Base.Int.{ℤ, pos}
use rpp_cpp.External
use rpp_cpp.External.{
  ExternalComponentSpec, ExternalComponentProcessRegistry, create, command_for, load_clients,
}
use rpp_cpp.Server.CommandLine.{described}
use rpp_cpp.Server.Hosting.Registered.{KeepsNames}
use rpp_cpp.Server.Hosting.Answers.{IsPrepared, AllServed, component_server-served}
use rpp_cpp.Python.{member}
use rpp_cpp.Tests.Building.{environment, plugin_written}

abbrev stoi : String → Result ℤ
stoi s = if s == "5000" then ok (pos 5000) else err (invalid_argument "stoi")

-- A server adapter is its info with the plugin behind it.
abbrev Adapter : Type 0
Adapter = ServerAdapterInfo × ℕ

abbrev blank : Adapter
blank = (
  record { name = ""; plugin_name = ""; plugin_type = ""; connection_name = ""; created_at = 1 },
  9,
)

abbrev linker : Linker Adapter
linker = record { dlopen = λ path. handle 3; dlsym = λ h name. factory (ok (some blank)) }

abbrev configure : Adapter → ServerAdapterParams ℕ → Result (Bool × Adapter)
configure (info, plugin) p = ok (
  true,
  (
    record info { name = p.name; plugin_name = p.plugin_name; connection_name = p.connection_name },
    p.backend,
  ),
)

-- The capability of an adapter is the plugin's number.
abbrev server : Machine ℕ (Unit {0}) Adapter ℕ
server = record {
  environment = λ home. environment;
  fuel = 3;
  initialize_plugin = λ plugin. ok tt;
  linker = linker;
  configure = configure;
  get_info = λ a. a.0;
  create_capability = λ a. a.1;
  stoi = stoi;
}

-- Where create runs: a client is its connection's name.
abbrev machine : External.Machine String String (Unit {0})
machine = record {
  get_available_port = ok 5000;
  to_string = λ n. "5000";
  load_plugin_adapter_client = λ info name connection. ok connection;
  as_plugin = λ client. some client;
  external_component_process = λ command host port clients. ok tt;
}

abbrev cpp_servers : ExternalComponentProcessRegistry
cpp_servers = record { commands = ("cpp", "server") ∷ [] }

abbrev specs : List ExternalComponentSpec
specs =
    record {
      component_path = "/b";
      plugin_info = plugin_written "lib::Base" "Cpp";
      connection_name = "b_connection";
    }
    ∷ []

keeps : KeepsNames server "/h"
keeps o a info plugin name conn e = ground (arith, e)

abbrev arm_context : ComponentContext ℕ (Unit {0})
arm_context = context (bare (some tt) (some 1)) no_slots

abbrev base_context : ComponentContext ℕ (Unit {0})
base_context = context (bare none (some 0)) (slot "arm" (one arm_context no_contexts) no_slots)

abbrev served_host : RppServerHost ℕ
served_host = record {
  adapters =
      (
        "b_connection",
        record {
          info = record {
            name = "b_connection_server";
            plugin_name = "Base";
            plugin_type = "";
            connection_name = "b_connection";
            created_at = 1;
          };
          capability = 0;
        },
      )
      ∷ [];
  shutdown_requested = false;
}

abbrev command : List String
command =
    "server" ∷ "--host" ∷ "127.0.0.1" ∷ "--port" ∷ "5000" ∷ "--home" ∷ "/h" ∷ "--path" ∷ "/b"
    ∷ "--plugin" ∷ "lib::Base" ∷ "--conn" ∷ "b_connection" ∷ []

built :
    build_host server (described stoi "/h" "127.0.0.1" 5000 specs)
    ≡ ok (hosts (base_context ∷ []) served_host)
unfolding build_host parse_slot insert build_adapted build_for_component build_native_component
    build_slots collect_roots component_specs group_nodes hand_out prepare_component_processes
    prepare_groups collect_component_nodes collect_each collect_slots make_component_node plugin_of
    resolve_component contexts_of get_instance initialize slots_of linked_from_json
    parse_subcomponent get_linked_component_folder_path get_plugin_id_from_name
    get_subcomponent_folder_path load_json_file parse_parameter_value add_server server_host
    get_safe_string_from_json configure_loaded configured from_symbol load_from_shared_library
    load_plugin_adapter_server resolve_params array_of object_of get_app_registry_dir member attach
    build_roots component_roots register register_all has_char is_upper to_snake_case
    get_plugin_info_from_lib parse_plugin_name split_at_separator find contains plugin_from_json
    get_app_registry_plugin_json_path entries bind is_cpp_source_language to_lower_copy to_lower
    build_from_component_roots load_component_info get_component_description_path
    component_from_json create_clock
built = refl

component_server-served_example :
    (program : String) × (argv : List String) × (command ≡ program ∷ argv)
    × (component_server server "" argv (capability_request "b_connection" ∷ [])
        ≡ hosted (run served_host (capability_request "b_connection" ∷ [])))
    × (adapted : Adapted (server.environment "/h")) × IsPrepared server "/h" specs adapted
    × AllServed server "/h" adapted served_host (base_context ∷ []) specs
unfolding member
component_server-served_example =
    component_server-served server machine "" "cpp" "/h" "127.0.0.1" 5000 specs cpp_servers tt
      ("b_connection" ∷ []) command (base_context ∷ []) served_host
      (capability_request "b_connection" ∷ []) refl refl (omega arith) keeps (refl, tt) (refl, tt)
      created built
  where
    created :
        create machine "cpp" "/h" specs cpp_servers "127.0.0.1"
        ≡ ok (tt, "b_connection" ∷ [], command)
    created = unfold create command_for load_clients to_lower_copy to_lower find in refl
