-- ===== src/Server/Hosting/Registered.antt =====
-- What one registration adds to the host.
use rpp_cpp.Base.{
  ◌≡◌, refl, ap, ◌∙◌, Bool, true, false, String, ◌<>◌, ◌==◌, eq_refl, Option, none, some, arith,
  if◌then◌else◌,
}
use rpp_cpp.Base.Result.{Result, ok, err, >>=-eq-ok}
use rpp_cpp.Base.Dict.{find, find-insert}
use rpp_cpp.Data.Plugin.{PluginInfo}
use rpp_cpp.Context.{ComponentContext, initialize, get_instance}
use rpp_cpp.Loader.{
  RppPtr, server_params, load_plugin_adapter_server, load_from_shared_library, configure_loaded,
  configured, Traced, then_do,
}
use rpp_cpp.Host.{RppServerHost, add_server}
use rpp_cpp.Server.Hosting.{Machine, plugin_info, server_adapter, added, attach, register}

module _ {Object : Type 0} where
  -- An adapter that is returned has agreed to its configuration.
  configure_loaded-agrees :
      (side : String) (info : PluginInfo) (configure : Object → Result (Bool × Object))
      (t : Traced (Option (RppPtr Object))) (p : RppPtr Object)
      → (configure_loaded side info configure t).1 ≡ ok (some p)
      → (o : Object) × (configure o ≡ ok (true, p.object))
  unfolding configure_loaded configured
  configure_loaded-agrees side info configure (effects, err e) p h = absurd (cc h)
  configure_loaded-agrees side info configure (effects, ok none) p h = absurd (cc h)
  configure_loaded-agrees side info configure (effects, ok (some q)) p h =
      go (configure q.object) refl h
    where
      go :
          (r : Result (Bool × Object))
          → configure q.object ≡ r
          → (then_do effects (configured side info q r)).1 ≡ ok (some p)
          → (o : Object) × (configure o ≡ ok (true, p.object))
      go (err e) e1 h = absurd (cc h)
      go (ok (false, o)) e1 h = absurd (cc h)
      go (ok (true, o)) e1 h = (q.object, ground (arith, e1, h))

module _ {Plugin Process Adapter Capability : Type 0}
    (m : Machine Plugin Process Adapter Capability) (home : String) where
  -- An adapter that agrees to its configuration goes by the connection's name that it was given.
  abbrev pub KeepsNames : Type 0
  KeepsNames =
      (o a : Adapter) (info : PluginInfo) (plugin : Plugin) (name connection_name : String)
      → m.configure o (server_params info plugin name connection_name) ≡ ok (true, a)
      → (m.get_info a).connection_name
        ≡ (server_params info plugin name connection_name).connection_name

  -- The adapter a stands for the context under the connection: it was configured with the context's
  -- own instance, and the host has it at the connection.
  abbrev pub IsRegistered :
      RppServerHost Capability → ComponentContext Plugin Process → String → String → Type 0
  IsRegistered host ctx conn name =
      (info : PluginInfo) × (plugin : Plugin) × (o : Adapter) × (a : Adapter) × (plugin_info m home
          name
        ≡ ok info)
      × (get_instance ctx ≡ ok plugin)
      × (m.configure o (server_params info plugin (conn <> "_server") conn) ≡ ok (true, a))
      × (find conn host.adapters ≡ some (server_adapter m a))

  abbrev Registered :
      RppServerHost Capability
      → RppServerHost Capability
      → ComponentContext Plugin Process
      → String
      → String
      → Type 0
  Registered host next ctx conn name =
      (info : PluginInfo) × (plugin : Plugin) × (o : Adapter) × (a : Adapter) × (plugin_info m home
          name
        ≡ ok info)
      × (get_instance ctx ≡ ok plugin)
      × (m.configure o (server_params info plugin (conn <> "_server") conn) ≡ ok (true, a))
      × (next ≡ add_server (server_adapter m a) host)

  attach-Registered :
      (host next : RppServerHost Capability) (ctx : ComponentContext Plugin Process)
      (conn name : String) (info : PluginInfo)
      → plugin_info m home name ≡ ok info
      → attach m home host ctx conn info ≡ ok (some next)
      → Registered host next ctx conn name
  unfolding attach load_plugin_adapter_server
  attach-Registered host next ctx conn name info i e =
      let (_, _, e1) = >>=-eq-ok (initialize m.initialize_plugin ctx).1 _ e in
      let (plugin, g, e2) = >>=-eq-ok (get_instance ctx) _ e1 in
      let (adapter, l, e3) =
        >>=-eq-ok
          (load_plugin_adapter_server home m.linker m.configure info plugin (conn <> "_server") conn
            "create_plugin_server").1
          _ e2 in
      go plugin g adapter l e3
    where
      go :
          (plugin : Plugin)
          → get_instance ctx ≡ ok plugin
          → (adapter : Option (RppPtr Adapter))
          → (load_plugin_adapter_server home m.linker m.configure info plugin
              (conn <> "_server")
              conn
              "create_plugin_server").1
            ≡ ok adapter
          → ok (added m host adapter) ≡ ok (some next)
          → Registered host next ctx conn name
      go plugin g none l e3 = absurd (cc e3)
      go plugin g (some p) l e3 =
          let (o, c) =
            configure_loaded-agrees "server" info
              (λ o. m.configure o (server_params info plugin (conn <> "_server") conn))
              (load_from_shared_library home m.linker info.plugin_type_shared_library_path
                "create_plugin_server" true false)
              p l in
          (info, plugin, o, p.object, i, g, c, cc e3)

  register-Registered :
      (host next : RppServerHost Capability) (ctx : ComponentContext Plugin Process)
      (conn name : String)
      → register m home host ctx conn name ≡ ok (some next)
      → Registered host next ctx conn name
  unfolding register
  register-Registered host next ctx conn name e =
      let (info, i, e1) = >>=-eq-ok (plugin_info m home name) _ e in
      attach-Registered host next ctx conn name info i (checked (info.plugin_name == "") _ e1)
    where
      checked :
          (b : Bool) (r : Result (Option (RppServerHost Capability)))
          → (if b then ok none else r) ≡ ok (some next)
          → r ≡ ok (some next)
      checked true r e1 = absurd (cc e1)
      checked false r e1 = e1

  module _ (keeps : KeepsNames) where
    name_kept :
        (o a : Adapter) (info : PluginInfo) (plugin : Plugin) (name conn : String)
        → (conn == "") ≡ false
        → m.configure o (server_params info plugin name conn) ≡ ok (true, a)
        → (m.get_info a).connection_name ≡ conn
    name_kept o a info plugin name conn named c =
        keeps o a info plugin name conn c
        ∙ ap (λ b. if b then info.plugin_name <> "_connection" else conn) named

    -- The table after an adapter is added under a connection.
    find-added :
        (host next : RppServerHost Capability) (a : Adapter) (conn k : String)
        → (m.get_info a).connection_name ≡ conn
        → next ≡ add_server (server_adapter m a) host
        → find k next.adapters
          ≡ (if conn == k then some (server_adapter m a) else find k host.adapters)
    unfolding add_server
    find-added host next a conn k named e =
        ap (λ (h : RppServerHost Capability). find k h.adapters) e
        ∙ find-insert k (m.get_info a).connection_name (server_adapter m a) host.adapters
        ∙ ap (λ (c : String). if c == k then some (server_adapter m a) else find k host.adapters)
            named

    -- A registration leaves the other connections alone.
    pub register-find :
        (host next : RppServerHost Capability) (ctx : ComponentContext Plugin Process)
        (conn name k : String)
        → (conn == "") ≡ false
        → (conn == k) ≡ false
        → register m home host ctx conn name ≡ ok (some next)
        → find k next.adapters ≡ find k host.adapters
    register-find host next ctx conn name k named other e =
        let (info, plugin, o, a, i, g, c, n) = register-Registered host next ctx conn name e in
        find-added host next a conn k (name_kept o a info plugin (conn <> "_server") conn named c) n
        ∙ ap (λ b. if b then some (server_adapter m a) else find k host.adapters) other

    pub register-IsRegistered :
        (host next : RppServerHost Capability) (ctx : ComponentContext Plugin Process)
        (conn name : String)
        → (conn == "") ≡ false
        → register m home host ctx conn name ≡ ok (some next)
        → IsRegistered next ctx conn name
    register-IsRegistered host next ctx conn name named e =
        let (info, plugin, o, a, i, g, c, n) = register-Registered host next ctx conn name e in
        (
          info,
          plugin,
          o,
          a,
          i,
          g,
          c,
          find-added host next a conn conn
                (name_kept o a info plugin (conn <> "_server") conn named c) n
              ∙ ap (λ b. if b then some (server_adapter m a) else find conn host.adapters)
                  (eq_refl conn),
        )

    -- Later registrations keep an earlier one.
    pub IsRegistered-kept :
        (host last : RppServerHost Capability) (ctx : ComponentContext Plugin Process)
        (conn name : String)
        → find conn last.adapters ≡ find conn host.adapters
        → IsRegistered host ctx conn name
        → IsRegistered last ctx conn name
    IsRegistered-kept host last ctx conn name same (info, plugin, o, a, i, g, c, f) =
        (info, plugin, o, a, i, g, c, same ∙ f)
