-- ===== src/Host/Client.antt =====
-- class PluginRuntimeClient of include/rpp_cpp/plugin_runtime.hpp: what it makes of the answers.
use rpp_cpp.Base.{◌≡◌, refl, ap, String, List, [], ◌∷◌, map}
use rpp_cpp.Base.Dict.{Dict}
use rpp_cpp.Host.{
  ServerAdapterInfo, ServerAdapter, RppServerHost, Listed, Answer, adapter_list, list_request,
  serve, list_adapters, listed,
}

-- One entry of the loop in listAdapters: the answer has no connection name.
abbrev pub read_info : Listed → ServerAdapterInfo
read_info l = record {
  name = l.name;
  plugin_name = l.plugin_name;
  plugin_type = l.plugin_type;
  connection_name = "";
  created_at = l.created_at;
}

module _ {Capability : Type 0} where
  -- PluginRuntimeClient::listAdapters, of the answer to its request
  unfoldable pub list_adapter_infos : Answer Capability → List ServerAdapterInfo
  list_adapter_infos (adapter_list entries) = map read_info entries
  list_adapter_infos _ = []

  abbrev unnamed : String × ServerAdapter Capability → ServerAdapterInfo
  unnamed (connection, adapter) = record adapter.info { connection_name = "" }

  read_info-listed :
      (m : Dict (ServerAdapter Capability)) → map read_info (map listed m) ≡ map unnamed m
  read_info-listed [] = refl
  read_info-listed ((k, a) ∷ m) = ap (◌∷◌ (unnamed (k, a))) (read_info-listed m)

  -- A client that asks a host for its adapters gets the info of each, in the order of their
  -- connections, but with no connection name, by which alone an adapter can be asked for.
  pub list_adapter_infos-serve :
      (host : RppServerHost Capability)
      → list_adapter_infos (serve host list_request).1 ≡ map unnamed host.adapters
  unfolding list_adapter_infos serve list_adapters
  list_adapter_infos-serve host = read_info-listed host.adapters
