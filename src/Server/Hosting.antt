-- ===== src/Server/Hosting.antt =====
-- The rest of main of src/component_server.cpp, once the command line is read: the contexts are
-- built, each gets a server adapter, and the host runs. What main prints is left out.
pub mod Contexts
pub mod Registered
pub mod Served
pub mod Answers
use rpp_cpp.Base.{
  ℕ, Bool, true, false, not, String, ◌<>◌, ◌==◌, List, [], ◌∷◌, Option, none, some, if◌then◌else◌,
}
use mathlib.Core.Option
use rpp_cpp.Base.Result.{Result, ok, err, Error, ◌>>=◌}
use rpp_cpp.Base.Int.{ℤ}
use rpp_cpp.Data.Plugin.{PluginInfo, is_cpp_source_language}
use rpp_cpp.Data.Manager.{get_plugin_info_from_lib}
use rpp_cpp.Builder.{Environment, ComponentRoot}
use rpp_cpp.Builder.Construction.{build_from_component_roots}
use rpp_cpp.Context.{ComponentContext, initialize, get_instance}
use rpp_cpp.Loader.{Linker, RppPtr, ServerAdapterParams, load_plugin_adapter_server}
use rpp_cpp.Host.{
  ServerAdapterInfo, ServerAdapter, RppServerHost, Event, Answer, Phase, server_host, add_server,
  run,
}
use rpp_cpp.Server.{Arguments, exits, throws, goes_on, start_server}

-- What main calls: the builder's environment at a home directory, the plugins' initialize, and the
-- server adapters in their libraries. `fuel` bounds the depth of the component trees.
pub record Machine (Plugin Process Adapter Capability : Type 0) : Type 1 where
  pub environment : String → Environment Plugin Process
  pub fuel : ℕ
  pub initialize_plugin : Plugin → Result (Unit {0})
  pub linker : Linker Adapter
  pub configure : Adapter → ServerAdapterParams Plugin → Result (Bool × Adapter)
  pub get_info : Adapter → ServerAdapterInfo
  pub create_capability : Adapter → Capability
  pub stoi : String → Result ℤ

-- How main ends: by an exit code, an exception that nobody catches, a failed assertion, or with what
-- the host answers.
pub data End (Capability : Type 0) : Type 0 where
  exited : ℕ → End Capability
  terminated : Error → End Capability
  aborted : End Capability
  hosted : List (Answer Capability) × Phase → End Capability

-- What the arguments lead to: main returns a code; an assertion fails; the contexts are held and the
-- host runs.
pub data Hosting (Plugin Process Capability : Type 0) : Type 0 where
  refuses : ℕ → Hosting Plugin Process Capability
  fails : Hosting Plugin Process Capability
  hosts :
      List (ComponentContext Plugin Process)
      → RppServerHost Capability
      → Hosting Plugin Process Capability

module _ {Plugin Process Adapter Capability : Type 0}
    (m : Machine Plugin Process Adapter Capability) where
  -- RppDataManager::get_plugin_info_from_lib of the manager for the home directory
  abbrev pub plugin_info : String → String → Result PluginInfo
  plugin_info home name =
      let env = m.environment home in
      get_plugin_info_from_lib env.fs env.js env.json_fuel home name ""

  -- What follows the test of a root's language.
  abbrev pub with_root :
      Bool
      → ComponentRoot
      → Result (Option (List ComponentRoot))
      → Result (Option (List ComponentRoot))
  with_root false root rest = ok none
  with_root true root rest = do roots ← rest; ok (Option.map (λ roots. root ∷ roots) roots)

  -- The loop that makes the roots; `none` where main returns 1. The lists are of one length.
  unfoldable pub component_roots :
      String → List String → List String → Result (Option (List ComponentRoot))
  component_roots home (path ∷ paths) (name ∷ plugin_names) = do
    info ← plugin_info home name
    with_root (is_cpp_source_language info) (record { path = path; plugin_name = name })
        (component_roots home paths plugin_names)
  component_roots home _ _ = ok (some [])

  abbrev pub server_adapter : Adapter → ServerAdapter Capability
  server_adapter a = record { info = m.get_info a; capability = m.create_capability a }

  -- `server_host.add_server(std::move(server_adapter))`; a null pointer would end the program.
  abbrev pub added :
      RppServerHost Capability → Option (RppPtr Adapter) → Option (RppServerHost Capability)
  added host none = none
  added host (some p) = some (add_server (server_adapter p.object) host)

  -- The round of the loop for one context, after its assertion.
  unfoldable pub attach :
      String
      → RppServerHost Capability
      → ComponentContext Plugin Process
      → String
      → PluginInfo
      → Result (Option (RppServerHost Capability))
  attach home host ctx conn info = do
    started ← (initialize m.initialize_plugin ctx).1
    plugin ← get_instance ctx
    adapter ←
        (load_plugin_adapter_server home m.linker m.configure info plugin (conn <> "_server") conn
          "create_plugin_server").1
    ok (added host adapter)

  -- One round of the loop that registers the adapters; `none` where the assertion fails.
  unfoldable pub register :
      String
      → RppServerHost Capability
      → ComponentContext Plugin Process
      → String
      → String
      → Result (Option (RppServerHost Capability))
  unfolding attach
  register home host ctx conn name = do
    info ← plugin_info home name
    if info.plugin_name == "" then ok none else attach home host ctx conn info

  unfoldable pub register_all :
      String
      → RppServerHost Capability
      → List (ComponentContext Plugin Process)
      → List String
      → List String
      → Result (Option (RppServerHost Capability))
  register_all home host (ctx ∷ contexts) (conn ∷ conns) (name ∷ plugin_names) =
      register home host ctx conn name >>= (λ (registered : Option (RppServerHost Capability)).
        elim registered [
          | none ↦ ok none
          | some next ↦ register_all home next contexts conns plugin_names
        ])
  register_all home host _ _ _ = ok (some host)

  abbrev pub hosting :
      List (ComponentContext Plugin Process)
      → Option (RppServerHost Capability)
      → Hosting Plugin Process Capability
  hosting contexts none = fails
  hosting contexts (some host) = hosts contexts host

  -- What follows the loop that makes the roots.
  unfoldable pub build_roots :
      Arguments → Option (List ComponentRoot) → Result (Hosting Plugin Process Capability)
  unfolding register_all
  build_roots a none = ok (refuses 1)
  build_roots a (some roots) = do
    contexts ← build_from_component_roots (m.environment a.rpp_home) m.fuel roots
    registered ← register_all a.rpp_home server_host contexts a.conns a.plugin_names
    ok (hosting contexts registered)

  -- From the arguments to the host that is about to run.
  unfoldable pub build_host : Arguments → Result (Hosting Plugin Process Capability)
  unfolding component_roots build_roots
  build_host a = do roots ← component_roots a.rpp_home a.paths a.plugin_names; build_roots a roots

  abbrev pub run_host : List Event → Result (Hosting Plugin Process Capability) → End Capability
  run_host events (err e) = terminated e
  run_host events (ok (refuses code)) = exited code
  run_host events (ok fails) = aborted
  run_host events (ok (hosts contexts host)) = hosted (run host events)

  -- main, with RPP_HOME as the environment sets it, the command line without the program's name, and
  -- what reaches the host.
  unfoldable pub component_server : String → List String → List Event → End Capability
  unfolding build_host
  component_server home argv events = elim (start_server m.stoi home argv) [
    | exits code ↦ exited code
    | throws e ↦ terminated e
    | goes_on a ↦ run_host events (build_host a)
  ]
