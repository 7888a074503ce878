-- ===== src/Builder/Processes.antt =====
-- The builder with the processes that it creates: create_process of its environment is
-- ExternalComponentProcess::create, over the plugin loader and the constructor of the process.
pub mod Live
pub mod Served
pub mod Scripts
use mathlib.Core.Option.{bind}
use rpp_cpp.Base.{ℕ, Bool, String, List, Option, none, some}
use rpp_cpp.Base.Result.{Result, ok, err, out_of_fuel, ◌>>=◌}
use rpp_cpp.Data.Plugin.{PluginInfo}
use rpp_cpp.Loader.{Linker, RppPtr, ClientAdapterParams, load_plugin_adapter_client}
use rpp_cpp.Network.{Sockets, get_available_port}
use rpp_cpp.External
use rpp_cpp.External.{ExternalComponentSpec, ExternalComponentProcessRegistry, create}
use rpp_cpp.External.Runtime.{
  ExternalComponentProcess, World, Construction, built, refused, unwound, waits,
  external_component_process,
}
use rpp_cpp.Builder.{Environment}

-- An adapter client that the loader has returned.
abbrev pub Owner : Type 0 → Type 0
Owner Client = Option (RppPtr Client)

-- What lies below: the clients' libraries, the cast to Plugin, the sockets that a free port is
-- found with for a language's server, and what a server that is started by a command meets.
pub record Site (Client Plugin : Type 0) : Type 0 where
  pub linker : Linker Client
  pub configure : Client → ClientAdapterParams → Result (Bool × Client)
  pub as_plugin : Client → Option Plugin
  pub sockets : String → Sockets
  pub to_string : ℕ → String
  pub world : List String → World (Owner Client)

module _ {Client Plugin : Type 0} (site : Site Client Plugin) where
  abbrev pub Started : Type 0
  Started = ExternalComponentProcess (Owner Client)

  -- What the constructor gives its caller; one that waits for ever gives nothing.
  abbrev pub constructed : Construction (Owner Client) → Result Started
  constructed (built x) = ok x
  constructed (refused e) = err e
  constructed (unwound e r) = err e
  constructed (waits p) = err out_of_fuel

  abbrev pub machine : String → String → External.Machine (Owner Client) Plugin Started
  machine home language = record {
    get_available_port = (get_available_port (site.sockets language)).1;
    to_string = site.to_string;
    load_plugin_adapter_client = λ info name connection_name.
        (load_plugin_adapter_client home site.linker site.configure info name connection_name
          "create_plugin_client").1;
    as_plugin = λ c. bind c (λ p. site.as_plugin p.object);
    external_component_process = λ command host port clients.
        constructed (external_component_process (site.world command) command clients);
  }

  -- ExternalComponentProcess::create, without the command that it starts.
  unfoldable pub create_process :
      ExternalComponentProcessRegistry
      → String
      → String
      → List ExternalComponentSpec
      → Result (Started × List Plugin)
  create_process registry language home components = do
    (process, instances, command) ←
        create (machine home language) language home components registry "127.0.0.1"
    ok (process, instances)

  -- The builder's environment, with its registry of servers.
  abbrev pub with_processes :
      ExternalComponentProcessRegistry → Environment Plugin Started → Environment Plugin Started
  with_processes registry env = record env { create_process = create_process registry }
