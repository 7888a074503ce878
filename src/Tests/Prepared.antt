-- ===== src/Tests/Prepared.antt =====
-- The component of the small disk, with a server for its Python part.
use rpp_cpp.Builder.Scripts.{get_script_components, build_script_from_description_path}
use rpp_cpp.Builder.Construction.{
  prepare_groups, hand_out, group_nodes, component_specs, collect_roots, build_slots,
  build_native_component, build_for_component, build_adapted, prepare_component_processes,
  build_component_from_path,
}
use rpp_cpp.Context.{
  contexts_of, slots_of, ComponentContext, context, no_slots, slot, one, no_contexts,
}
use rpp_cpp.Data.Component.{linked_from_json, parse_subcomponent, parse_slot, component_from_json}
use rpp_cpp.Data.Plugin.{parse_parameter_value, is_cpp_source_language, plugin_from_json}
use rpp_cpp.Data.Script.{script_from_json}
use rpp_cpp.Text.Snake.{to_snake_case}
use rpp_cpp.Text.Lower.{is_upper, has_char, to_lower, to_lower_copy}
use rpp_cpp.Builder.{
  resolve_component, plugin_of, collect_slots, collect_each, collect_component_nodes, Environment,
  make_component_node,
}
use rpp_cpp.Data.Manager.{
  get_component_path_in_parts_folder, load_json_file, get_plugin_id_from_name,
  get_linked_component_folder_path, get_default_script_parts_folder_path_from_description,
  load_script_description, get_subcomponent_folder_path, load_component_info,
  get_plugin_info_from_lib,
}
use rpp_cpp.Params.Value.{items, object_of, array_of, entries}
use rpp_cpp.Builder.Processes.Scripts.{script-IsServed, below}
use rpp_cpp.Tests.Scripts.{scripting}
use rpp_cpp.Context.Everywhere.{InSlots}
use rpp_cpp.Builder.Processes.Served.{HasInstance, AllInstances, built-IsServed}
use rpp_cpp.Clock.{create_clock, realtime}
use rpp_cpp.Params.Store.Resolve.{resolve_params}
use rpp_cpp.Base.Dict.{contains, find, insert}
use rpp_cpp.Paths.{
  get_component_description_path, get_app_registry_plugin_json_path, parse_plugin_name,
}
use rpp_cpp.Network.{get_available_port, inspect_socket}
use rpp_cpp.Builder.Processes.{create_process, Site, Started, with_processes}
use rpp_cpp.Text.Separator.{split_at_separator}
use rpp_cpp.Process.{child_process, forked, start}
use rpp_cpp.Loader.{load_plugin_adapter_client, handle, factory}
use rpp_cpp.Json.{get_safe_string_from_json}
use rpp_cpp.External.{create, ExternalComponentProcessRegistry}
use rpp_cpp.External.Runtime.{external_component_process, agrees}
use rpp_cpp.Connection.{runtime_client_context, connected}
use rpp_cpp.Python.{member}
use mathlib.Core.Option.{bind}
use rpp_cpp.Base.{ℕ, ◌≡◌, refl, true, String, [], ◌∷◌, some, none}
use rpp_cpp.Base.Result.{ok, err, runtime_error}
use rpp_cpp.Base.Int.{negsuc}
use rpp_cpp.Builder.Processes.Live.{IsServed, CleansUp}
use rpp_cpp.Tests.Building.{part_disk, parts}
use rpp_cpp.Tests.Fixtures.{bare, documents}
use rpp_cpp.Tests.Runtime.{stubborn, stubborn-Ends}

-- A client is a number, and so is the plugin that it implements.
abbrev site : Site ℕ ℕ
site = record {
  linker = record { dlopen = λ path. handle 3; dlsym = λ h name. factory (ok (some 8)) };
  configure = λ o p. ok (true, o);
  as_plugin = λ c. some c;
  sockets = λ language. record {
    socket = some 3;
    bind = λ h. true;
    getsockname = λ h. some 5000;
    ntohs = λ n. n;
  };
  to_string = λ n. "5000";
  world = λ command. record {
    fork = forked 4;
    startup_timeout = 5000;
    now = 0;
    tries = record { attempt = connected; now = 30 } ∷ [];
    connect_adapter_client = λ c. agrees true;
    unwinding = stubborn;
  };
}

abbrev python_servers : ExternalComponentProcessRegistry
python_servers = record { commands = ("python", "server") ∷ [] }

abbrev base_environment : Environment ℕ (Started site)
base_environment = record {
  fs = part_disk;
  js = documents parts;
  json_fuel = 3;
  home = "/h";
  clock_options = record { type = realtime; initial_time = 0 };
  load_plugin = λ info. ok 0;
  load_parameters = λ folder. ok [];
  create_process = λ language home specs. err (runtime_error "not there");
}

abbrev with_servers : Environment ℕ (Started site)
with_servers = with_processes site python_servers base_environment

-- The server that hosts the arm of a folder.
abbrev arm_server : String → Started site
arm_server folder = record {
  process = record {
    pid = some 4;
    args =
        "server" ∷ "--host" ∷ "127.0.0.1" ∷ "--port" ∷ "5000" ∷ "--home" ∷ "/h" ∷ "--path" ∷ folder
        ∷ "--plugin" ∷ "Arm" ∷ "--conn" ∷ "a_connection" ∷ [];
    exit_code = negsuc 0;
    started = true;
  };
  executor_started = true;
  runtime_client_context_ = true;
  adapter_clients = some (record { object = 8; from = 3; delete_on_close = true }) ∷ [];
  runtime_client = true;
}

abbrev arm_context : String → ComponentContext ℕ (Started site)
arm_context folder = context (bare (some (arm_server folder)) (some 8)) no_slots

abbrev base_context : ComponentContext ℕ (Started site)
base_context =
    context (bare none (some 0))
      (slot "arm" (one (arm_context "/b/subcomponents/a") no_contexts) no_slots)

base_built : build_component_from_path with_servers 3 "/b" ≡ ok base_context
unfolding get_available_port inspect_socket build_component_from_path prepare_component_processes
    is_cpp_source_language to_lower_copy to_lower make_component_node load_component_info find
    get_component_description_path get_subcomponent_folder_path contains entries component_from_json
    get_safe_string_from_json get_plugin_info_from_lib parse_plugin_name split_at_separator
    get_app_registry_plugin_json_path plugin_from_json bind insert member create_process create
    load_plugin_adapter_client external_component_process child_process start runtime_client_context
    parse_slot parse_subcomponent resolve_params slots_of create_clock
base_built = refl

site-CleansUp : CleansUp site
site-CleansUp command p e = stubborn-Ends (start (forked 4) p).1

built-IsServed_example : AllInstances with_servers (IsServed site) base_context
built-IsServed_example =
    built-IsServed site python_servers base_environment 3 "/b" base_context site-CleansUp base_built

-- The script of the arm, with the same servers.
abbrev script_environment : Environment ℕ (Started site)
script_environment = record base_environment { fs = scripting.fs; js = scripting.js }

abbrev script_context : ComponentContext ℕ (Started site)
script_context =
    context (bare none none) (slot "tool" (one (arm_context "/p/lib__arm/a") no_contexts) no_slots)

script_built :
    build_script_from_description_path
      (with_processes site python_servers script_environment)
      3
      "/s.json"
      none
      (some "/p")
    ≡ ok script_context
unfolding build_script_from_description_path component_from_json bind build_adapted
    build_for_component build_native_component build_slots collect_roots component_specs group_nodes
    hand_out prepare_component_processes prepare_groups get_script_components
    collect_component_nodes collect_each collect_slots plugin_of resolve_component contexts_of
    slots_of linked_from_json parse_slot parse_subcomponent
    get_default_script_parts_folder_path_from_description get_linked_component_folder_path
    get_plugin_id_from_name get_plugin_info_from_lib get_subcomponent_folder_path load_json_file
    is_cpp_source_language parse_parameter_value plugin_from_json resolve_params array_of object_of
    get_app_registry_plugin_json_path parse_plugin_name has_char to_lower_copy split_at_separator
    load_script_description find script_from_json contains get_component_path_in_parts_folder
    to_snake_case is_upper to_lower member make_component_node load_component_info
    get_component_description_path entries items insert create_clock get_available_port
    inspect_socket build_component_from_path get_safe_string_from_json create_process create
    load_plugin_adapter_client external_component_process child_process start runtime_client_context
script_built = refl

script-IsServed_example :
    InSlots
      (HasInstance (with_processes site python_servers script_environment) (IsServed site))
      (below script_context)
script-IsServed_example =
    script-IsServed site python_servers script_environment 3 "/s.json" none (some "/p")
      script_context site-CleansUp script_built
