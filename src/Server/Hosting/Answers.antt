-- ===== src/Server/Hosting/Answers.antt =====
-- What a client that follows the command line of create can ask of the server that reads it.
use rpp_cpp.Base.{
  ℕ, ◌≡◌, ◌<◌, ◌∙◌, refl, sym, ap, true, false, String, ◌<>◌, ◌==◌, List, [], ◌∷◌, map, All, Option,
  none, some,
}
use rpp_cpp.Base.Result.{ok, ok_inj, >>=-eq-ok, traverse}
use rpp_cpp.Base.Int.{pos}
use rpp_cpp.Data.Plugin.{PluginInfo}
use rpp_cpp.Context.{ComponentContext, get_instance}
use rpp_cpp.Loader.{server_params}
use mathlib.Core.Path.{subst}
use rpp_cpp.Builder.{ComponentRoot, ComponentNode, make_component_node}
use rpp_cpp.Builder.Construction.{
  Adapted, build_for_component, build_from_component_roots, prepare_component_processes,
}
use rpp_cpp.Host
use rpp_cpp.Host.{RppServerHost, Event, server_host, run, get_component_capability, plugin_ref}
use rpp_cpp.External
use rpp_cpp.External.{ExternalComponentSpec, ExternalComponentProcessRegistry, create, command_for}
use rpp_cpp.Server.{Arguments}
use rpp_cpp.Server.CommandLine.{described, plugin_of, create-start_server}
use rpp_cpp.Server.Hosting.{
  Machine, plugin_info, component_roots, build_roots, register_all, hosting, hosts, build_host,
  component_server, hosted,
}
use rpp_cpp.Server.Hosting.Contexts.{
  zip_roots, make_root, BuiltFor, build_from_component_roots-BuiltFor, component_roots-zip_roots,
}
use rpp_cpp.Server.Hosting.Registered.{KeepsNames, IsRegistered}
use rpp_cpp.Server.Hosting.Served.{Distinct, AllRegistered, register_all-AllRegistered}

module _ {Plugin Process Adapter Capability : Type 0}
    (m : Machine Plugin Process Adapter Capability) where
  hosting-hosts :
      (contexts held : List (ComponentContext Plugin Process))
      (r : Option (RppServerHost Capability)) (host : RppServerHost Capability)
      → hosting m contexts r ≡ hosts held host
      → (contexts ≡ held) × (r ≡ some host)
  hosting-hosts contexts held none host e = absurd (cc e)
  hosting-hosts contexts held (some h) host e = (cc e, cc e)

  -- What is held where the roots lead to a host.
  abbrev Holds :
      Arguments
      → List ComponentRoot
      → List (ComponentContext Plugin Process)
      → RppServerHost Capability
      → Type 0
  Holds a roots contexts host =
      (build_from_component_roots (m.environment a.rpp_home) m.fuel roots ≡ ok contexts)
      × (register_all m a.rpp_home server_host contexts a.conns a.plugin_names ≡ ok (some host))

  build_roots-hosts :
      (a : Arguments) (found : Option (List ComponentRoot))
      (contexts : List (ComponentContext Plugin Process)) (host : RppServerHost Capability)
      → build_roots m a found ≡ ok (hosts contexts host)
      → (roots : List ComponentRoot) × (found ≡ some roots) × Holds a roots contexts host
  unfolding build_roots
  build_roots-hosts a none contexts host e = absurd (cc e)
  build_roots-hosts a (some roots) contexts host e =
      let (held, b, e1) =
        >>=-eq-ok (build_from_component_roots (m.environment a.rpp_home) m.fuel roots) _ e in
      let (r, q, e2) =
        >>=-eq-ok (register_all m a.rpp_home server_host held a.conns a.plugin_names) _ e1 in
      let (same, found) = hosting-hosts held contexts r host (ok_inj e2) in
      (
        roots,
        refl,
        subst (λ cs. Holds a roots cs host) same
            (b, q ∙ ap (λ (o : Option (RppServerHost Capability)). ok o) found),
      )

  -- What build_host did on its way to a host.
  build_host-hosts :
      (a : Arguments) (contexts : List (ComponentContext Plugin Process))
      (host : RppServerHost Capability)
      → build_host m a ≡ ok (hosts contexts host)
      → Holds a (zip_roots a.paths a.plugin_names) contexts host
  unfolding build_host
  build_host-hosts a contexts host e =
      let (found, f, e1) = >>=-eq-ok (component_roots m a.rpp_home a.paths a.plugin_names) _ e in
      let (roots, q, holds) = build_roots-hosts a found contexts host e1 in
      subst (λ rs. Holds a rs contexts host)
        (component_roots-zip_roots m a.rpp_home a.paths a.plugin_names roots
          (f ∙ ap (λ (o : Option (List ComponentRoot)). ok o) q))
        holds

  -- The context's connection gives the capability of an adapter that stands for the context's own
  -- instance.
  abbrev pub IsServed :
      String → RppServerHost Capability → ComponentContext Plugin Process → String → String → Type 0
  IsServed home host ctx conn name =
      (info : PluginInfo) × (plugin : Plugin) × (o : Adapter) × (a : Adapter) × (plugin_info m home
          name
        ≡ ok info)
      × (get_instance ctx ≡ ok plugin)
      × (m.configure o (server_params info plugin (conn <> "_server") conn) ≡ ok (true, a))
      × (get_component_capability host conn ≡ plugin_ref (m.create_capability a))

  -- The table that was prepared for all of the components.
  abbrev pub IsPrepared :
      (home : String) → List ExternalComponentSpec → Adapted (m.environment home) → Type 0
  IsPrepared home components adapted =
      (nodes : List ComponentNode) × (traverse
          (λ (s : ExternalComponentSpec).
            make_component_node (m.environment home) s.component_path s.component_path
              (plugin_of s))
          components
        ≡ ok nodes)
      × (prepare_component_processes (m.environment home) m.fuel nodes ≡ ok adapted)

  -- The contexts and the components, one for one, in order: each context is the one that construction
  -- gives for the component's folder and plugin, and is served under the component's connection.
  abbrev pub AllServed :
      (home : String)
      → Adapted (m.environment home)
      → RppServerHost Capability
      → List (ComponentContext Plugin Process)
      → List ExternalComponentSpec
      → Type 0
  AllServed home adapted host [] [] = Unit
  AllServed home adapted host (ctx ∷ contexts) (s ∷ components) =
      (build_for_component (m.environment home) m.fuel adapted s.component_path s.component_path
          (plugin_of s)
        ≡ ok ctx)
      × IsServed home host ctx s.connection_name (plugin_of s)
      × AllServed home adapted host contexts components
  AllServed home adapted host _ _ = ⊥

  roots_of : List ExternalComponentSpec → List ComponentRoot
  roots_of components =
      zip_roots (map (λ s. s.component_path) components) (map plugin_of components)

  traverse-roots_of :
      (home : String) (components : List ExternalComponentSpec)
      → traverse (make_root (m.environment home) m.fuel) (roots_of components)
        ≡ traverse
            (λ (s : ExternalComponentSpec).
              make_component_node
                (m.environment home)
                s.component_path
                s.component_path
                (plugin_of s))
            components
  unfolding roots_of
  traverse-roots_of home [] = refl
  traverse-roots_of home (s ∷ components) = rw (traverse-roots_of home components) refl

  served :
      (home : String) (host : RppServerHost Capability) (ctx : ComponentContext Plugin Process)
      (conn name : String)
      → IsRegistered m home host ctx conn name
      → IsServed home host ctx conn name
  unfolding get_component_capability
  served home host ctx conn name (info, plugin, o, a, i, g, c, f) =
      (info, plugin, o, a, i, g, c, rw (f, get_component_capability) refl)

  all_served :
      (home : String) (adapted : Adapted (m.environment home)) (host : RppServerHost Capability)
      (contexts : List (ComponentContext Plugin Process)) (components : List ExternalComponentSpec)
      (keeps : KeepsNames m home)
      → BuiltFor (m.environment home) m.fuel adapted (roots_of components) contexts
      → AllRegistered m home keeps host contexts
          (map (λ s. s.connection_name) components)
          (map plugin_of components)
      → AllServed home adapted host contexts components
  unfolding roots_of
  all_served home adapted host [] [] keeps b r = tt
  all_served home adapted host [] (s ∷ components) keeps b r = absurd b
  all_served home adapted host (ctx ∷ contexts) [] keeps b r = absurd b
  all_served home adapted host (ctx ∷ contexts) (s ∷ components) keeps (b, bs) (r, rs) = (
    b,
    served home host ctx s.connection_name (plugin_of s) r,
    all_served home adapted host contexts components keeps bs rs,
  )

  -- A server that create has started, once its command line leads it to a host: main runs that host
  -- and holds a context for each component that create was given, in order, the one that construction
  -- gives for the component's folder and plugin with what was prepared for all of them; and the
  -- component's connection gives the capability of an adapter that was configured with the instance
  -- of that very context. It holds where the connections have distinct names and none is empty, an
  -- adapter that agrees to its configuration goes by its connection's name, std::stoi reads what
  -- std::to_string wrote, and the port that is found fits sixteen bits.
  pub component_server-served :
      {Client Instance Started : Type 0} (machine : External.Machine Client Instance Started)
      (home language rpp_home host : String) (port : ℕ) (components : List ExternalComponentSpec)
      (registry : ExternalComponentProcessRegistry) (process : Started) (instances : List Instance)
      (command : List String) (contexts : List (ComponentContext Plugin Process))
      (server_host : RppServerHost Capability) (events : List Event)
      → machine.get_available_port ≡ ok port
      → m.stoi (machine.to_string port) ≡ ok (pos port)
      → port < 65536
      → KeepsNames m rpp_home
      → All (λ c. (c == "") ≡ false) (map (λ s. s.connection_name) components)
      → Distinct (map (λ s. s.connection_name) components)
      → create machine language rpp_home components registry host ≡ ok (process, instances, command)
      → build_host m (described m.stoi rpp_home host port components)
        ≡ ok (hosts contexts server_host)
      → (server : String) × (argv : List String) × (command ≡ server ∷ argv)
        × (component_server m home argv events ≡ hosted (run server_host events))
        × (adapted : Adapted (m.environment rpp_home)) × IsPrepared rpp_home components adapted
        × AllServed rpp_home adapted server_host contexts components
  unfolding component_server roots_of
  component_server-served machine home language rpp_home host port components registry process
        instances command contexts server_host events available numeral fits keeps named distinct
        created build =
      let (server, argv, f, same, starts, l) =
        create-start_server machine m.stoi home language rpp_home host port components registry
          process instances command available numeral fits created in
      let (built, registered) =
        build_host-hosts (described m.stoi rpp_home host port components) contexts server_host
          build in
      let (nodes, adapted, n, a, b) =
        build_from_component_roots-BuiltFor (m.environment rpp_home) m.fuel (roots_of components)
          contexts built in
      (
        server,
        argv,
        same,
        rw (starts, component_server) (rw build refl),
        adapted,
        (nodes, sym (traverse-roots_of rpp_home components) ∙ n, a),
        all_served rpp_home adapted server_host contexts components keeps b (
            register_all-AllRegistered m rpp_home keeps Host.server_host server_host contexts
              (map (λ s. s.connection_name) components) (map plugin_of components) named distinct
              registered),
      )
