-- ===== src/Loader/Linked.antt =====
-- The templates of include/rpp_cpp/plugin_loader.hpp for adapters that are linked into the program:
-- the adapter is made on the spot, and what configuring it returns is not looked at.
use rpp_cpp.Base.{Bool, String, ◌<>◌}
use rpp_cpp.Base.Result.{Result, ok, ◌>>=◌}
use rpp_cpp.Loader.{ClientAdapterParams, ServerAdapterParams, or_default}

module _ {Adapter : Type 0} (plugin_name : Adapter → String) where
  -- load_plugin_adapter_client<BaseType>, with the client as make_unique gives it
  unfoldable pub make_adapter_client :
      (Adapter → ClientAdapterParams → Result (Bool × Adapter))
      → Adapter
      → String
      → String
      → Result Adapter
  make_adapter_client configure client name connection_name = do
    (agrees, configured) ← configure client (record {
      name = or_default name (plugin_name client <> "_adapter_client");
      connection_name = or_default connection_name (plugin_name client <> "_connection");
      plugin_name = "";
    })
    ok configured

  -- load_plugin_adapter_server<PluginBase>
  unfoldable pub make_adapter_server :
      {Plugin : Type 0}
      → (Adapter → ServerAdapterParams Plugin → Result (Bool × Adapter))
      → Adapter
      → Plugin
      → String
      → String
      → Result Adapter
  make_adapter_server configure server plugin name connection_name = do
    (agrees, configured) ← configure server (record {
      name = or_default name (plugin_name server <> "_adapter_server");
      connection_name = or_default connection_name (plugin_name server <> "_connection");
      plugin_name = "";
      backend = plugin;
    })
    ok configured
