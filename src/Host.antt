-- ===== src/Host.antt =====
-- class RppServerHost of include/rpp_cpp/rpp_server_host.hpp and PluginRuntimeServer of
-- include/rpp_cpp/plugin_runtime.hpp, in one process. What reaches the host while it runs is a list
-- of events; the RPC library's transport of requests and answers is not modelled.
pub mod Running
pub mod Client
use rpp_cpp.Base.{
  ℕ, Bool, true, false, String, ◌<>◌, List, [], ◌∷◌, Option, none, some, map, if◌then◌else◌,
}
use rpp_cpp.Base.Dict.{Dict, find, insert, keys}

-- The struct of include/rpp_cpp/adapter_info.hpp.
pub record ServerAdapterInfo : Type 0 where
  pub name : String
  pub plugin_name : String
  pub plugin_type : String
  pub connection_name : String
  pub created_at : ℕ

-- A server adapter: its info, and the capability that it creates.
pub record ServerAdapter (Capability : Type 0) : Type 0 where
  pub info : ServerAdapterInfo
  pub capability : Capability

pub record RppServerHost (Capability : Type 0) : Type 0 where
  pub adapters : Dict (ServerAdapter Capability)
  pub shutdown_requested : Bool

-- What the service lists of an adapter.
pub record Listed : Type 0 where
  pub name : String
  pub plugin_name : String
  pub plugin_type : String
  pub created_at : ℕ

-- A request of a client; the handler of SIGINT and SIGTERM; the timer's check of the flag.
pub data Event : Type 0 where
  ping shutdown_request list_request interrupt check : Event
  capability_request : String → Event

pub data Answer (Capability : Type 0) : Type 0 where
  done : Answer Capability
  adapter_list : List Listed → Answer Capability
  plugin_ref : Capability → Answer Capability
  failed : String → Answer Capability

-- Whether run has returned, with the connections that it closed, or still waits.
pub data Phase : Type 0 where
  serving : Phase
  stopped : List String → Phase

abbrev pub is_check : Event → Bool
is_check check = true
is_check e = false

module _ {Capability : Type 0} where
  unfoldable pub server_host : RppServerHost Capability
  server_host = record { adapters = []; shutdown_requested = false }

  unfoldable pub add_server :
      ServerAdapter Capability → RppServerHost Capability → RppServerHost Capability
  add_server adapter host = record host {
    adapters = insert adapter.info.connection_name adapter host.adapters;
  }

  unfoldable pub shutdown : RppServerHost Capability → RppServerHost Capability
  shutdown host = record host { shutdown_requested = true }

  abbrev pub listed : String × ServerAdapter Capability → Listed
  listed (name, adapter) = record {
    name = adapter.info.name;
    plugin_name = adapter.info.plugin_name;
    plugin_type = adapter.info.plugin_type;
    created_at = adapter.info.created_at;
  }

  -- PluginRuntimeServer::listAdapters
  unfoldable pub list_adapters : RppServerHost Capability → List Listed
  list_adapters host = map listed host.adapters

  -- PluginRuntimeServer::getComponentCapability
  unfoldable pub get_component_capability : RppServerHost Capability → String → Answer Capability
  get_component_capability host name = elim (find name host.adapters) [
    | some adapter ↦ plugin_ref adapter.capability
    | none ↦ failed ("Adapter with connection name '" <> name <> "' not found.")
  ]

  -- The host after an event, and the answer.
  unfoldable pub serve :
      RppServerHost Capability → Event → RppServerHost Capability × Answer Capability
  unfolding shutdown list_adapters get_component_capability
  serve host ping = (host, done)
  serve host shutdown_request = (shutdown host, done)
  serve host list_request = (host, adapter_list (list_adapters host))
  serve host interrupt = (shutdown host, done)
  serve host check = (host, done)
  serve host (capability_request name) = (host, get_component_capability host name)

  -- The wait for the flag, over the events that come, and the loop that closes the adapters.
  unfoldable pub serve_all :
      RppServerHost Capability → List Event → List (Answer Capability) × Phase
  unfolding serve
  serve_all host [] = ([], serving)
  serve_all host (e ∷ events) =
      let (next, answer) = serve host e in
      let (answers, phase) = serve_all next events in
      if is_check e
      then (if host.shutdown_requested
          then ([], stopped (keys host.adapters))
          else (answers, phase))
      else (answer ∷ answers, phase)

  -- RppServerHost::run, with the check that it makes first.
  unfoldable pub run : RppServerHost Capability → List Event → List (Answer Capability) × Phase
  unfolding serve_all
  run host events = serve_all (record host { shutdown_requested = false }) events
