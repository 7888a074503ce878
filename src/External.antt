-- ===== src/External.antt =====
-- include/rpp_cpp/external_component_process.hpp: which server hosts the components of a language,
-- and how it is started. Loading a client from a shared library, finding a free port and the
-- connection itself are parameters.
pub mod Registry
pub mod Runtime
pub mod Created
use rpp_cpp.Base.{
  ℕ, Bool, true, false, String, ◌<>◌, ◌==◌, ◌||◌, List, [], ◌∷◌, ◌++◌, Option, none, some, is_empty,
  not, if◌then◌else◌,
}
use rpp_cpp.Base.Result.{
  Result, ok, err, runtime_error, invalid_argument, or_throw, guard, ◌>>=◌, ◌>>◌,
}
use rpp_cpp.Base.Dict.{Dict, find, insert}
use rpp_cpp.Text.Lower.{to_lower_copy}
use rpp_cpp.Data.Plugin.{PluginInfo}

pub record ExternalComponentSpec : Type 0 where
  pub component_path : String
  pub plugin_info : PluginInfo
  pub connection_name : String

pub record ExternalComponentProcessRegistry : Type 0 where
  pub commands : Dict String

unfoldable pub register_server :
    String → String → ExternalComponentProcessRegistry → Result ExternalComponentProcessRegistry
register_server language command r =
    if language == "" || command == ""
    then err (invalid_argument "External component server language and command are required.")
    else ok (record { commands = insert (to_lower_copy language) command r.commands })

-- ExternalComponentProcessRegistry()
unfoldable pub process_registry : Result ExternalComponentProcessRegistry
unfolding register_server
process_registry = do
  r ← register_server "python" "rpp_component_server_python" (record { commands = [] })
  register_server "cpp" "rpp_component_server_cpp" r

unfoldable pub command_for : ExternalComponentProcessRegistry → String → Result String
command_for r language = or_throw (find (to_lower_copy language) r.commands) (
    runtime_error
      ("No external component server is registered for source language '" <> language <> "'."))

-- What create needs of the machine: a free port and its numeral, and the client of a plugin with the
-- plugin interface that it implements, if it does.
pub record Machine (Client Plugin Process : Type 0) : Type 0 where
  pub get_available_port : Result ℕ
  pub to_string : ℕ → String
  pub load_plugin_adapter_client : PluginInfo → String → String → Result Client
  pub as_plugin : Client → Option Plugin
  -- ExternalComponentProcess(command, host, port, adapter_clients)
  pub external_component_process : List String → String → ℕ → List Client → Result Process

-- The options that create passes for one component.
abbrev pub component_options : ExternalComponentSpec → List String
component_options s =
    "--path" ∷ s.component_path ∷ "--plugin" ∷ s.plugin_info.plugin_name ∷ "--conn"
    ∷ s.connection_name ∷ []

module _ {Client Plugin Process : Type 0} (machine : Machine Client Plugin Process) where
  -- The command before the components are added.
  abbrev pub server_options : String → String → ℕ → List String
  server_options rpp_home host port =
      "--host" ∷ host ∷ "--port" ∷ machine.to_string port ∷ "--home" ∷ rpp_home ∷ []

  -- The loop over the components: the clients, the instances and the rest of the command.
  unfoldable pub load_clients :
      List ExternalComponentSpec → Result (List Client × List Plugin × List String)
  load_clients [] = ok ([], [], [])
  load_clients (s ∷ components) = do
    adapter ←
        machine.load_plugin_adapter_client s.plugin_info (s.plugin_info.plugin_name <> "_client")
          s.connection_name
    plugin ←
        or_throw (machine.as_plugin adapter)
          (runtime_error "Adapted component client does not implement Plugin.")
    (adapters, instances, options) ← load_clients components
    ok (adapter ∷ adapters, plugin ∷ instances, component_options s ++ options)

  -- ExternalComponentProcess::create; the command that is started comes with the result.
  unfoldable pub create :
      String
      → String
      → List ExternalComponentSpec
      → ExternalComponentProcessRegistry
      → String
      → Result (Process × List Plugin × List String)
  unfolding load_clients command_for
  create language rpp_home components registry host = do
    guard (not (is_empty components))
        (invalid_argument "External component runtime requires a component.")
    port ← machine.get_available_port
    server_command ← command_for registry language
    (adapters, instances, options) ← load_clients components
    let command = server_command ∷ (server_options rpp_home host port ++ options)
    process ← machine.external_component_process command host port adapters
    ok (process, instances, command)
