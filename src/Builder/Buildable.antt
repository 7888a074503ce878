-- ===== src/Builder/Buildable.antt =====
-- What was collected for preparation can be built.
use mathlib.Core.Path.{subst}
use mathlib.Core.List.{append-nil}
use rpp_cpp.Base.{
  ℕ, zero, suc, ◌≡◌, refl, sym, ap, ◌∙◌, ◌⊎◌, true, false, Bool-cases, inl, inr, String, List, [],
  ◌∷◌, ◌++◌, All, Option, none, some, arith,
}
use rpp_cpp.Base.Result.{Result, ok, traverse, ok_inj, ◌>>=◌, >>=-eq-ok}
use rpp_cpp.Base.Dict.{Dict}
use rpp_cpp.Params.Value.{ParameterValue}
use rpp_cpp.Data.Plugin.{PluginInfo, is_cpp_source_language}
use rpp_cpp.Data.Component.{ComponentRecord, LinkedComponentRecord, SubcomponentInfo}
use rpp_cpp.Data.Manager.{get_subcomponent_folder_path}
use rpp_cpp.Params.Store.Resolve.{resolve_params}
use rpp_cpp.Logger.{logger, default_options}
use rpp_cpp.Context.{ComponentContext, component_context, context, slots_of}
use rpp_cpp.Clock.{RppClock, create_clock}
use rpp_cpp.Params.Store.{Parameters}
use rpp_cpp.Builder.{
  Environment, ComponentNode, load, resolve_component, plugin_of, make_component_node, collect_each,
  collect_slots, collect_component_nodes, followed,
}
use rpp_cpp.Builder.Construction.{
  Adapted, build_slots, build_native_component, build_adapted, build_for_component,
  prepare_component_processes, collect_roots, build_component_from_path,
}
use rpp_cpp.Builder.Prepared.{Has, AdaptedAll, Gives, prepared-covers}

-- No component is linked, the plugins and parameters of all of them load, and the clock's type is one
-- of the two.
pub record Loads {Plugin Process : Type 0} (env : Environment Plugin Process) : Type 0 where
  pub unlinked :
      (path : String) (r : ComponentRecord ⊎ LinkedComponentRecord)
      → load env path ≡ ok r
      → (c : ComponentRecord) × (r ≡ inl c)
  pub clock : (c : RppClock) × (create_clock env.clock_options ≡ ok c)
  pub plugin : (info : PluginInfo) → (p : Plugin) × (env.load_plugin info ≡ ok p)
  pub parameters :
      (folder : String) → (d : Dict ParameterValue) × (env.load_parameters folder ≡ ok d)

All-prefix :
    (P : ComponentNode → Type 0) (xs ys : List ComponentNode)
    → All P (xs ++ ys)
    → All P xs × All P ys
All-prefix P [] ys a = (tt, a)
All-prefix P (x ∷ xs) ys (a, b) = let (c, d) = All-prefix P xs ys b in ((a, c), d)

module _ {Plugin Process : Type 0} (env : Environment Plugin Process) (loads : Loads env) where
  -- Without links the parent and the plugin's name do not matter.
  resolve_component_any :
      (path parent name parent' name' : String) (r : ComponentRecord)
      → resolve_component env path parent name ≡ ok r
      → resolve_component env path parent' name' ≡ ok r
  unfolding resolve_component followed
  resolve_component_any path parent name parent' name' r e =
      let (x, l, e1) = >>=-eq-ok (load env path) _ e in
      let (c, q) = loads.unlinked path x l in let e2 : ok c ≡ ok r = rw q at e1 in rw (l, q) e2

  collected_one :
      (fuel : ℕ) (node : ComponentNode) (nodes : List ComponentNode)
      → collect_roots env fuel (node ∷ []) ≡ ok nodes
      → collect_component_nodes env fuel node ≡ ok nodes
  unfolding collect_roots
  collected_one fuel node nodes e =
      let (xs, f, e1) = >>=-eq-ok (collect_component_nodes env fuel node) _ e in
      rw f (ap (λ (ys : List ComponentNode). ok ys) (sym (append-nil xs)) ∙ e1)

  made :
      (i : Option Plugin) (params : Parameters) (process : Option Process)
      (subcomponents : Dict (List (ComponentContext Plugin Process)))
      → (c : ComponentContext Plugin Process) × (component_context i params process subcomponents
            env.clock_options
          ≡ ok c)
  unfolding component_context
  made i params process subcomponents =
      let (c, e) = loads.clock in
      (
        context
            (record {
              parameters = params;
              external_component_process = process;
              instance_ = i;
              logger = logger default_options;
              clock = c;
            })
            (slots_of subcomponents),
        rw e refl,
      )

  module _ (adapted : Adapted env) where
    abbrev pub Covered : List ComponentNode → Type 0
    Covered nodes = AdaptedAll (Has env adapted) nodes

    -- A node that was made and collected can be built, whatever parent and name it is given.
    abbrev pub Buildable : ℕ → Type 0
    Buildable fuel =
        (path parent name parent' name' : String) (node : ComponentNode)
        (nodes : List ComponentNode)
        → make_component_node env path parent name ≡ ok node
        → collect_component_nodes env fuel node ≡ ok nodes
        → Covered nodes
        → (c : ComponentContext Plugin Process) × (build_for_component env fuel adapted path parent'
              name'
            ≡ ok c)

    module _ (fuel : ℕ) (ih : Buildable fuel) (node : ComponentNode) where
      abbrev build_child : SubcomponentInfo → Result (ComponentContext Plugin Process)
      build_child s =
          build_for_component env fuel adapted
            (get_subcomponent_folder_path node.record_.folder s.id) node.record_.folder
            s.plugin_name

      children-built :
          (ss : List SubcomponentInfo) (ys : List ComponentNode)
          → collect_each env (collect_component_nodes env fuel) node ss ≡ ok ys
          → Covered ys
          → (cs : List (ComponentContext Plugin Process)) × (traverse build_child ss ≡ ok cs)
      unfolding collect_each
      children-built [] ys e c = ([], refl)
      children-built (s ∷ ss) ys e c =
          let (xs, f, e1) = >>=-eq-ok (_ >>= collect_component_nodes env fuel) _ e in
          let (zs, g, e2) =
            >>=-eq-ok (collect_each env (collect_component_nodes env fuel) node ss) _ e1 in
          let (child, m, f1) =
            >>=-eq-ok
              (make_component_node env (get_subcomponent_folder_path node.record_.folder s.id)
                node.path s.plugin_name)
              _ f in
          let (a, b) = All-prefix _ xs zs (subst Covered (sym (ok_inj e2)) c) in
          let (k, h) = ih _ _ _ node.record_.folder s.plugin_name child xs m f1 a in
          let (ks, hs) = children-built ss zs g b in (k ∷ ks, rw (h, hs) refl)

      slots-built :
          (slots : Dict (List SubcomponentInfo)) (ys : List ComponentNode)
          → collect_slots env (collect_component_nodes env fuel) node slots ≡ ok ys
          → Covered ys
          → (ds : Dict (List (ComponentContext Plugin Process))) × (build_slots env build_child
                slots
              ≡ ok ds)
      unfolding collect_slots build_slots
      slots-built [] ys e c = ([], refl)
      slots-built ((slot_name, ss) ∷ slots) ys e c =
          let (xs, f, e1) =
            >>=-eq-ok (collect_each env (collect_component_nodes env fuel) node ss) _ e in
          let (zs, g, e2) =
            >>=-eq-ok (collect_slots env (collect_component_nodes env fuel) node slots) _ e1 in
          let (a, b) = All-prefix _ xs zs (subst Covered (sym (ok_inj e2)) c) in
          let (ks, h) = children-built ss xs f a in
          let (ds, hs) = slots-built slots zs g b in ((slot_name, ks) ∷ ds, rw (h, hs) refl)

    node_of : String → String → String → ComponentRecord → PluginInfo → ComponentNode
    node_of path parent name r info = record {
      path = path;
      parent_path = parent;
      plugin_name = name;
      record_ = r;
      plugin_info = info;
    }

    native-built :
        (fuel : ℕ) (path parent name : String) (r : ComponentRecord) (info : PluginInfo)
        (nodes : List ComponentNode)
        → Buildable fuel
        → is_cpp_source_language info ≡ true
        → collect_component_nodes env (suc fuel) (node_of path parent name r info) ≡ ok nodes
        → Covered nodes
        → (c : ComponentContext Plugin Process) × (build_native_component env
              (build_for_component env fuel adapted)
              r
              info
            ≡ ok c)
    unfolding collect_component_nodes build_native_component node_of
    native-built fuel path parent name r info nodes ih cpp e c =
        let e1 = rw cpp at e in
        let (ys, f, e2) =
          >>=-eq-ok
            (collect_slots env (collect_component_nodes env fuel) (node_of path parent name r info)
              r.subcomponents)
            _ e1 in
        let covered = subst Covered (sym (ok_inj e2)) c in
        let (i, p) = loads.plugin info in
        let (d, q) = loads.parameters r.folder in
        let (ds, h) =
          slots-built fuel ih (node_of path parent name r info) r.subcomponents ys f covered.1 in
        let (c, k) = made (some i) (resolve_params info.parameters d) none ds in (c, rw (p, q, h) k)

    adapted-built :
        (fuel : ℕ) (path parent name : String) (r : ComponentRecord) (info : PluginInfo)
        (nodes : List ComponentNode)
        → is_cpp_source_language info ≡ false
        → collect_component_nodes env (suc fuel) (node_of path parent name r info) ≡ ok nodes
        → Covered nodes
        → (c : ComponentContext Plugin Process) × (build_adapted env adapted r info ≡ ok c)
    unfolding collect_component_nodes build_adapted node_of
    adapted-built fuel path parent name r info nodes foreign e c =
        let e1 = rw foreign at e in
        let covered = subst Covered (sym (ok_inj e1)) c in
        let (p, h) = covered.0 foreign in
        let (d, q) = loads.parameters r.folder in
        let (c, k) =
          made (some p.instance_) (resolve_params info.parameters d) (some p.process) [] in
        (c, rw (h, q) k)

    built : (fuel : ℕ) → Buildable fuel
    unfolding build_for_component make_component_node node_of
    built zero path parent name parent' name' node nodes m e c =
        unfold collect_component_nodes in ground (arith, e)
    built (suc fuel) path parent name parent' name' node nodes m e c =
        let (r, f, m1) = >>=-eq-ok (resolve_component env path parent name) _ m in
        let (info, g, m2) = >>=-eq-ok (plugin_of env r) _ m1 in
        let e1 =
          subst (λ n. collect_component_nodes env (suc fuel) n ≡ ok nodes) (sym (ok_inj m2)) e in
        elim (Bool-cases (is_cpp_source_language info)) [
          | inl cpp ↦
              let (k, h) = native-built fuel path parent name r info nodes (built fuel) cpp e1 c in
              (k, rw (resolve_component_any path parent name _ name' r f, g, cpp) h)
          | inr foreign ↦
              let (k, h) = adapted-built fuel path parent name r info nodes foreign e1 c in
              (k, rw (resolve_component_any path parent name _ name' r f, g, foreign) h)
        ]

  -- Once the processes of a component are prepared, build_component_from_path returns a context: every
  -- adapted component that construction meets was prepared. It holds where no component is linked,
  -- plugins and parameters load, the clock can be made, and create gives an instance for each component.
  pub prepared-builds :
      (fuel : ℕ) (path : String) (node : ComponentNode) (adapted : Adapted env)
      → Gives env
      → make_component_node env path path "" ≡ ok node
      → prepare_component_processes env fuel (node ∷ []) ≡ ok adapted
      → (c : ComponentContext Plugin Process) × (build_component_from_path env fuel path ≡ ok c)
  unfolding build_component_from_path
  prepared-builds fuel path node adapted gives m p =
      let (nodes, e, covered) = prepared-covers env fuel (node ∷ []) adapted gives p in
      let f = collected_one fuel node nodes e in
      let (c, h) = built adapted fuel path path "" "" "" node nodes m f covered in (c, rw (m, p) h)
