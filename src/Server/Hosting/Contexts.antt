-- ===== src/Server/Hosting/Contexts.antt =====
-- Which contexts main of src/component_server.cpp holds: each is built for one of the components of
-- the command line.
use mathlib.Core.Path.{subst}
use rpp_cpp.Base.{
  ℕ, ◌≡◌, ◌∙◌, refl, sym, ap, Bool, true, false, String, List, [], ◌∷◌, Option, none, some,
}
use rpp_cpp.Base.Result.{Result, ok, err, ok_inj, >>=-eq-ok, traverse}
use rpp_cpp.Data.Plugin.{is_cpp_source_language}
use rpp_cpp.Context.{ComponentContext}
use rpp_cpp.Builder.{
  Environment, ComponentRoot, ComponentNode, resolve_component, plugin_of, make_component_node,
}
use rpp_cpp.Builder.Construction.{
  Adapted, build_for_component, build_from_component_roots, prepare_component_processes,
}
use rpp_cpp.Server.Hosting.{Machine, plugin_info, component_roots, with_root}

-- A root for each path with the plugin's name that goes with it.
abbrev pub zip_roots : List String → List String → List ComponentRoot
zip_roots (path ∷ paths) (name ∷ names) =
    record { path = path; plugin_name = name } ∷ zip_roots paths names
zip_roots _ _ = []

module _ {Plugin Process : Type 0} (env : Environment Plugin Process) (fuel : ℕ) where
  abbrev pub make_root : ComponentRoot → Result ComponentNode
  make_root root = make_component_node env root.path root.path root.plugin_name

  -- The contexts are those that construction gives for the roots, one for one, in order.
  abbrev pub BuiltFor :
      Adapted env → List ComponentRoot → List (ComponentContext Plugin Process) → Type 0
  BuiltFor adapted [] [] = Unit
  BuiltFor adapted (root ∷ roots) (ctx ∷ contexts) =
      (build_for_component env fuel adapted root.path root.path root.plugin_name ≡ ok ctx)
      × BuiltFor adapted roots contexts
  BuiltFor adapted _ _ = ⊥

  make_component_node-asked :
      (path parent name : String) (n : ComponentNode)
      → make_component_node env path parent name ≡ ok n
      → (n.path ≡ path) × (n.parent_path ≡ parent) × (n.plugin_name ≡ name)
  unfolding make_component_node
  make_component_node-asked path parent name n e =
      let (r, _, e1) = >>=-eq-ok (resolve_component env path parent name) _ e in
      let (info, _, e2) = >>=-eq-ok (plugin_of env r) _ e1 in
      let same = sym (ok_inj e2) in
      (
        ap (λ (n : ComponentNode). n.path) same,
        ap (λ (n : ComponentNode). n.parent_path) same,
        ap (λ (n : ComponentNode). n.plugin_name) same,
      )

  abbrev build_node : Adapted env → ComponentNode → Result (ComponentContext Plugin Process)
  build_node adapted n = build_for_component env fuel adapted n.path n.parent_path n.plugin_name

  nodes-BuiltFor :
      (adapted : Adapted env) (roots : List ComponentRoot) (nodes : List ComponentNode)
      (contexts : List (ComponentContext Plugin Process))
      → traverse make_root roots ≡ ok nodes
      → traverse (build_node adapted) nodes ≡ ok contexts
      → BuiltFor adapted roots contexts
  nodes-BuiltFor adapted [] nodes contexts made built =
      let none_made : [] ≡ nodes = ok_inj made in
      let e = subst (λ ns. traverse (build_node adapted) ns ≡ ok contexts) (sym none_made) built in
      subst (BuiltFor adapted []) (ok_inj e) tt
  nodes-BuiltFor adapted (root ∷ roots) nodes contexts made built =
      let (n, m, e1) = >>=-eq-ok (make_root root) _ made in
      let (ns, rest, e2) = >>=-eq-ok (traverse make_root roots) _ e1 in
      let e =
        subst (λ ns. traverse (build_node adapted) ns ≡ ok contexts) (sym (ok_inj e2)) built in
      let (c, b, e3) = >>=-eq-ok (build_node adapted n) _ e in
      let (cs, bs, e4) = >>=-eq-ok (traverse (build_node adapted) ns) _ e3 in
      let (path, parent, name) =
        make_component_node-asked root.path root.path root.plugin_name n m in
      subst (BuiltFor adapted (root ∷ roots)) (ok_inj e4)
        (rw (path, parent, name) at b, nodes-BuiltFor adapted roots ns cs rest bs)

  pub build_from_component_roots-BuiltFor :
      (roots : List ComponentRoot) (contexts : List (ComponentContext Plugin Process))
      → build_from_component_roots env fuel roots ≡ ok contexts
      → (nodes : List ComponentNode) × (adapted : Adapted env) × (traverse make_root roots
          ≡ ok nodes)
        × (prepare_component_processes env fuel nodes ≡ ok adapted)
        × BuiltFor adapted roots contexts
  unfolding build_from_component_roots
  build_from_component_roots-BuiltFor roots contexts e =
      let (nodes, n, e1) = >>=-eq-ok (traverse make_root roots) _ e in
      let (adapted, a, e2) = >>=-eq-ok (prepare_component_processes env fuel nodes) _ e1 in
      (nodes, adapted, n, a, nodes-BuiltFor adapted roots nodes contexts n e2)

module _ {Plugin Process Adapter Capability : Type 0}
    (m : Machine Plugin Process Adapter Capability) where
  with_root-found :
      (b : Bool) (root : ComponentRoot) (r : Result (Option (List ComponentRoot)))
      (roots expected : List ComponentRoot)
      → ((rs : List ComponentRoot) → r ≡ ok (some rs) → rs ≡ expected)
      → with_root m b root r ≡ ok (some roots)
      → roots ≡ root ∷ expected
  with_root-found false root r roots expected rest e = absurd (cc e)
  with_root-found true root (err x) roots expected rest e = absurd (cc e)
  with_root-found true root (ok none) roots expected rest e = absurd (cc e)
  with_root-found true root (ok (some rs)) roots expected rest e =
      let same : root ∷ rs ≡ roots = cc e in
      sym same ∙ ap (λ (rs : List ComponentRoot). root ∷ rs) (rest rs refl)

  -- The roots are those of the command line, in order.
  pub component_roots-zip_roots :
      (home : String) (paths names : List String) (roots : List ComponentRoot)
      → component_roots m home paths names ≡ ok (some roots)
      → roots ≡ zip_roots paths names
  unfolding component_roots
  component_roots-zip_roots home [] names roots e = cc e
  component_roots-zip_roots home (path ∷ paths) [] roots e = cc e
  component_roots-zip_roots home (path ∷ paths) (name ∷ names) roots e =
      let (info, i, e1) = >>=-eq-ok (plugin_info m home name) _ e in
      with_root-found (is_cpp_source_language info) (record { path = path; plugin_name = name })
        (component_roots m home paths names) roots (zip_roots paths names)
        (λ rs q. component_roots-zip_roots home paths names rs q) e1
