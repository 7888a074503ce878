-- ===== src/External/Created.antt =====
-- What create hands to the constructor of the process.
use mathlib.Core.Path.{subst}
use rpp_cpp.Base.{
  ℕ, ◌≡◌, inl, inr, String, List, [], ◌∷◌, is_empty, not, length, All, Any, All-imp, some, arith,
}
use rpp_cpp.Base.Result.{ok, guard, or_throw, or_throw-some, >>=-eq-ok}
use rpp_cpp.External.{
  ExternalComponentSpec, Machine, load_clients, create, command_for,
  ExternalComponentProcessRegistry,
}

module _ {Client Plugin Process : Type 0} (machine : Machine Client Plugin Process) where
  length-load_clients :
      (components : List ExternalComponentSpec) (adapters : List Client) (instances : List Plugin)
      (options : List String)
      → load_clients machine components ≡ ok (adapters, instances, options)
      → (length adapters ≡ length components) × (length instances ≡ length components)
  unfolding load_clients
  length-load_clients [] adapters instances options e = (ground (arith, e), ground (arith, e))
  length-load_clients (s ∷ components) adapters instances options e =
      let (c, _, e1) = >>=-eq-ok (machine.load_plugin_adapter_client s.plugin_info _ _) _ e in
      let (i, _, e2) = >>=-eq-ok (or_throw (machine.as_plugin c) _) _ e1 in
      let ((cs, is, os), f, e3) = >>=-eq-ok (load_clients machine components) _ e2 in
      let (p, q) = length-load_clients components cs is os f in
      (ground (arith, e3, p), ground (arith, e3, q))

  -- An instance is the cast of one of the clients.
  abbrev pub IsCast : List Client → Plugin → Type 0
  IsCast clients i = Any (λ c. machine.as_plugin c ≡ some i) clients

  load_clients-IsCast :
      (components : List ExternalComponentSpec) (adapters : List Client) (instances : List Plugin)
      (options : List String)
      → load_clients machine components ≡ ok (adapters, instances, options)
      → All (IsCast adapters) instances
  unfolding load_clients
  load_clients-IsCast [] adapters instances options e =
      subst (All (IsCast adapters)) (let p : [] ≡ instances = cc e in p) tt
  load_clients-IsCast (s ∷ components) adapters instances options e =
      let (c, _, e1) = >>=-eq-ok (machine.load_plugin_adapter_client s.plugin_info _ _) _ e in
      let (i, j, e2) = >>=-eq-ok (or_throw (machine.as_plugin c) _) _ e1 in
      let ((cs, is, os), f, e3) = >>=-eq-ok (load_clients machine components) _ e2 in
      let same : c ∷ cs ≡ adapters = cc e3 in
      let counted : i ∷ is ≡ instances = cc e3 in
      subst (λ as_. All (IsCast as_) instances) same
        (subst (All (IsCast (c ∷ cs))) counted (
          inl (or_throw-some _ _ i j),
          All-imp (λ x a. inr a) is (load_clients-IsCast components cs is os f),
        ))

  -- The process is the one that the constructor gives for the command that is started and the clients
  -- that were loaded, one for each component, and the instances are their casts.
  pub create-constructed :
      (language rpp_home host : String) (components : List ExternalComponentSpec)
      (registry : ExternalComponentProcessRegistry) (process : Process) (instances : List Plugin)
      (command : List String)
      → create machine language rpp_home components registry host ≡ ok (process, instances, command)
      → (clients : List Client) × (port : ℕ) × (length clients ≡ length components)
        × (length instances ≡ length components)
        × All (IsCast clients) instances
        × (machine.external_component_process command host port clients ≡ ok process)
  unfolding create
  create-constructed language rpp_home host components registry process instances command e =
      let (_, g, e1) = >>=-eq-ok (guard (not (is_empty components)) _) _ e in
      let (port, _, e0) = >>=-eq-ok machine.get_available_port _ e1 in
      let (server, f, e2) = >>=-eq-ok (command_for registry language) _ e0 in
      let ((cs, is, os), l, e3) = >>=-eq-ok (load_clients machine components) _ e2 in
      let (pr, q, e4) = >>=-eq-ok (machine.external_component_process _ _ _ cs) _ e3 in
      let (p, r) = length-load_clients components cs is os l in
      (
        cs,
        port,
        p,
        ground (arith, e4, r),
        subst (All (IsCast cs)) (let same : is ≡ instances = cc e4 in same)
            (load_clients-IsCast components cs is os l),
        ground (arith, e4, q),
      )
