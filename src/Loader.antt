-- ===== src/Loader.antt =====
-- include/rpp_cpp/plugin_loader.hpp and src/plugin_loader.cpp: objects that are made by a factory in
-- a shared library, and what becomes of the library. The dynamic loader and what a factory and an
-- adapter do are parameters; the loggers that are passed on are left out.
pub mod Handles
pub mod Linked
use rpp_cpp.Base.{
  ℕ, Bool, true, false, String, ◌<>◌, ◌==◌, List, [], ◌∷◌, ◌++◌, Option, none, some, if◌then◌else◌,
}
use rpp_cpp.Base.Result.{Result, ok, err, runtime_error}
use rpp_cpp.Paths.{get_app_registry_dir}
use rpp_cpp.Data.Plugin.{PluginInfo}

-- What dlopen gives: a handle, or the text of dlerror.
pub data Opening : Type 0 where
  handle : ℕ → Opening
  open_failed : String → Opening

-- What dlsym gives, and dlerror after it. A symbol is a factory, which returns an object or a null
-- pointer, or throws.
pub data Symbol (Object : Type 0) : Type 0 where
  factory : Result (Option Object) → Symbol Object
  null_symbol : Symbol Object
  symbol_error : String → Symbol Object

pub record Linker (Object : Type 0) : Type 0 where
  pub dlopen : String → Opening
  pub dlsym : ℕ → String → Symbol Object

-- An RppPtr: the object, and what its deleter holds.
pub record RppPtr (Object : Type 0) : Type 0 where
  pub object : Object
  pub from : ℕ
  pub delete_on_close : Bool

-- dlopen gave a handle; dlclose; the object of an open library was deleted.
pub data Effect : Type 0 where
  opened closed deleted : ℕ → Effect

-- What was done up to the return or the throw.
abbrev pub Traced : Type 0 → Type 0
Traced A = List Effect × Result A

abbrev pub then_do : {A : Type 0} → List Effect → Traced A → Traced A
then_do before (effects, r) = (before ++ effects, r)

module _ {Object : Type 0} where
  -- The deleters.
  abbrev pub release : RppPtr Object → List Effect
  release p = if p.delete_on_close then deleted p.from ∷ closed p.from ∷ [] else closed p.from ∷ []

  abbrev pub release_any : Option (RppPtr Object) → List Effect
  release_any none = []
  release_any (some p) = release p

  abbrev unresolved : String → String → String → Result (Option (RppPtr Object))
  unresolved create_symbol path reason = err (
      runtime_error
        ("Failed to resolve symbol '" <> create_symbol <> "' in '" <> path <> "': " <> reason))

  -- What follows dlsym.
  unfoldable pub from_symbol :
      ℕ → String → String → Bool → Bool → Symbol Object → Traced (Option (RppPtr Object))
  from_symbol h path create_symbol delete_on_close allow_nullptr null_symbol =
      (closed h ∷ [], unresolved create_symbol path "unknown error")
  from_symbol h path create_symbol delete_on_close allow_nullptr (symbol_error e) =
      (closed h ∷ [], unresolved create_symbol path e)
  from_symbol h path create_symbol delete_on_close allow_nullptr (factory (err e)) = ([], err e)
  from_symbol h path create_symbol delete_on_close allow_nullptr (factory (ok none)) = (
    closed h ∷ [],
    if allow_nullptr
        then ok none
        else err (
            runtime_error (
              "Factory symbol '" <> create_symbol <> "' returned a null plugin for '" <> path
              <> "'.")),
  )
  from_symbol h path create_symbol delete_on_close allow_nullptr (factory (ok (some o))) =
      ([], ok (some (record { object = o; from = h; delete_on_close = delete_on_close })))

  -- load_from_shared_library__
  unfoldable pub load_from_shared_library :
      String → Linker Object → String → String → Bool → Bool → Traced (Option (RppPtr Object))
  unfolding from_symbol get_app_registry_dir
  load_from_shared_library home linker path create_symbol delete_on_close allow_nullptr =
      let path_abs = get_app_registry_dir home <> "/" <> path in
      elim (linker.dlopen path_abs) [
        | open_failed e ↦
            ([], err (runtime_error ("dlopen failed for '" <> path_abs <> "': " <> e)))
        | handle h ↦ then_do (opened h ∷ []) (
            from_symbol h path_abs create_symbol delete_on_close allow_nullptr
              (linker.dlsym h create_symbol))
      ]

  -- load_cpp_plugin_parameters_description, load_cpp_plugin_component_spec
  unfoldable pub load_cpp_plugin_description :
      String → Linker Object → PluginInfo → String → Traced (Option (RppPtr Object))
  unfolding load_from_shared_library
  load_cpp_plugin_description home linker info create_symbol =
      load_from_shared_library home linker info.plugin_shared_library_path create_symbol false true

  unfoldable pub load_cpp_plugin_from_shared_library :
      String → Linker Object → PluginInfo → String → Traced (Option (RppPtr Object))
  unfolding load_from_shared_library
  load_cpp_plugin_from_shared_library home linker info create_symbol =
      load_from_shared_library home linker info.plugin_shared_library_path create_symbol true false

-- ClientAdapterParams
pub record ClientAdapterParams : Type 0 where
  pub name : String
  pub connection_name : String
  pub plugin_name : String

-- ServerAdapterParams
pub record ServerAdapterParams (Plugin : Type 0) : Type 0 where
  pub name : String
  pub connection_name : String
  pub plugin_name : String
  pub backend : Plugin

abbrev pub or_default : String → String → String
or_default given default_value = if given == "" then default_value else given

abbrev pub client_params : PluginInfo → String → String → ClientAdapterParams
client_params info name connection_name = record {
  name = or_default name (info.plugin_name <> "_adapter_client");
  connection_name = or_default connection_name (info.plugin_name <> "_connection");
  plugin_name = "";
}

abbrev pub server_params :
    {Plugin : Type 0} → PluginInfo → Plugin → String → String → ServerAdapterParams Plugin
server_params info plugin name connection_name = record {
  name = or_default name (info.plugin_name <> "_adapter_server");
  connection_name = or_default connection_name (info.plugin_name <> "_connection");
  plugin_name = info.plugin_name;
  backend = plugin;
}

module _ {Object : Type 0} where
  -- `if (!result) throw …; return adapter;`, given what configuring the adapter has returned: the
  -- adapter as it has become, and whether it agrees. A throw destroys the adapter.
  unfoldable pub configured :
      String → PluginInfo → RppPtr Object → Result (Bool × Object) → Traced (Option (RppPtr Object))
  configured side info p (err e) = (release p, err e)
  configured side info p (ok (false, o)) = (
    release (record p { object = o }),
    err (
        runtime_error
          ("Failed to configure " <> side <> " adapter for plugin: " <> info.plugin_name)),
  )
  configured side info p (ok (true, o)) = ([], ok (some (record p { object = o })))

  -- The rest of the function, once the library has given an adapter. No null pointer comes here.
  unfoldable pub configure_loaded :
      String
      → PluginInfo
      → (Object → Result (Bool × Object))
      → Traced (Option (RppPtr Object))
      → Traced (Option (RppPtr Object))
  unfolding configured
  configure_loaded side info configure (effects, err e) = (effects, err e)
  configure_loaded side info configure (effects, ok none) = (effects, ok none)
  configure_loaded side info configure (effects, ok (some p)) =
      then_do effects (configured side info p (configure p.object))

  unfoldable pub load_plugin_adapter_client :
      String
      → Linker Object
      → (Object → ClientAdapterParams → Result (Bool × Object))
      → PluginInfo
      → String
      → String
      → String
      → Traced (Option (RppPtr Object))
  unfolding load_from_shared_library configure_loaded
  load_plugin_adapter_client home linker configure info name connection_name create_symbol =
      configure_loaded "client" info (λ o. configure o (client_params info name connection_name))
        (load_from_shared_library home linker info.plugin_type_shared_library_path create_symbol
          true false)

  unfoldable pub load_plugin_adapter_server :
      {Plugin : Type 0}
      → String
      → Linker Object
      → (Object → ServerAdapterParams Plugin → Result (Bool × Object))
      → PluginInfo
      → Plugin
      → String
      → String
      → String
      → Traced (Option (RppPtr Object))
  unfolding load_from_shared_library configure_loaded
  load_plugin_adapter_server home linker configure info plugin name connection_name create_symbol =
      configure_loaded "server" info
        (λ o. configure o (server_params info plugin name connection_name))
        (load_from_shared_library home linker info.plugin_type_shared_library_path create_symbol
          true false)
