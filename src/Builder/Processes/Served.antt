-- ===== src/Builder/Processes/Served.antt =====
-- The contexts that are built of prepared components.
use rpp_cpp.Base.{
  ℕ, zero, suc, ◌≡◌, ◌⊎◌, inl, inr, refl, true, Bool-cases, String, List, [], ◌∷◌, All, none, some,
}
use mathlib.Core.Path.{subst}
use rpp_cpp.Base.Result.{
  Result, ok, ok_inj, or_throw, or_throw-some, traverse, All-traverse, >>=-eq-ok,
}
use rpp_cpp.Base.Dict.{Dict, find}
use rpp_cpp.Base.Dict.Replaced.{AllValues, AllValues-find}
use rpp_cpp.Data.Plugin.{PluginInfo, is_cpp_source_language}
use rpp_cpp.Data.Component.{ComponentRecord, SubcomponentInfo}
use rpp_cpp.External.{ExternalComponentProcessRegistry}
use rpp_cpp.Clock.{create_clock}
use rpp_cpp.Context.{component_context-made, Own, ComponentContext, slots_of}
use rpp_cpp.Context.Everywhere.{Everywhere, InSlots-slots_of}
use rpp_cpp.Builder.{Environment, make_component_node, resolve_component, plugin_of}
use rpp_cpp.Builder.Construction.{
  Adapted, build_slots, build_native_component, build_adapted, build_for_component, not_prepared,
  prepare_component_processes, build_component_from_path,
}
use rpp_cpp.Builder.Processes.{Site, Started, with_processes}
use rpp_cpp.Builder.Processes.Live.{
  AllPrepared, Creates, prepared-All, IsServed, CleansUp, with_processes-Creates,
}

module _ {Plugin Process : Type 0} (env : Environment Plugin Process)
    (P : Process → Plugin → Type 0) where
  -- A context has a clock of the type that is asked for, and an instance of a C++ plugin and no process, or an instance and its process.
  abbrev pub HasInstance : Own Plugin Process → Type 0
  HasInstance o =
      (create_clock env.clock_options ≡ ok o.clock)
      × (((info : PluginInfo) × (i : Plugin) × (is_cpp_source_language info ≡ true)
            × (env.load_plugin info ≡ ok i)
            × (o.instance_ ≡ some i)
            × (o.external_component_process ≡ none))
          ⊎ ((x : Process) × (i : Plugin) × (o.instance_ ≡ some i)
              × (o.external_component_process ≡ some x)
              × P x i))

  abbrev pub AllInstances : ComponentContext Plugin Process → Type 0
  AllInstances = Everywhere HasInstance

  build_slots-All :
      (build : SubcomponentInfo → Result (ComponentContext Plugin Process))
      (slots : Dict (List SubcomponentInfo)) (built : Dict (List (ComponentContext Plugin Process)))
      → ((s : SubcomponentInfo) (c : ComponentContext Plugin Process)
          → build s ≡ ok c
          → AllInstances c)
      → build_slots env build slots ≡ ok built
      → AllValues (All AllInstances) built
  unfolding build_slots
  build_slots-All build [] built h e = subst (AllValues (All AllInstances)) (ok_inj e) tt
  build_slots-All build ((slot_name, infos) ∷ slots) built h e =
      let (cs, c, e1) = >>=-eq-ok (traverse build infos) _ e in
      let (others, o, e2) = >>=-eq-ok (build_slots env build slots) _ e1 in
      subst (AllValues (All AllInstances)) (ok_inj e2)
        (All-traverse build h infos cs c, build_slots-All build slots others h o)

  build_native_component-All :
      (build : String → String → String → Result (ComponentContext Plugin Process))
      (r : ComponentRecord) (info : PluginInfo) (ctx : ComponentContext Plugin Process)
      → ((path parent name : String) (c : ComponentContext Plugin Process)
          → build path parent name ≡ ok c
          → AllInstances c)
      → is_cpp_source_language info ≡ true
      → build_native_component env build r info ≡ ok ctx
      → AllInstances ctx
  unfolding build_native_component Everywhere
  build_native_component-All build r info ctx h native e =
      let (i, l, e1) = >>=-eq-ok (env.load_plugin info) _ e in
      let (params_module, _, e2) = >>=-eq-ok (env.load_parameters r.folder) _ e1 in
      let (built, b, e3) = >>=-eq-ok (build_slots env _ r.subcomponents) _ e2 in
      let (clock, k, same) =
        component_context-made (some i) _ none built env.clock_options ctx e3 in
      subst AllInstances same (
        (k, inl (info, i, native, l, refl, refl)),
        InSlots-slots_of HasInstance built
            (build_slots-All _ r.subcomponents built (λ s c. h _ _ _ c) b),
      )

  build_adapted-All :
      (adapted : Adapted env) (r : ComponentRecord) (info : PluginInfo)
      (ctx : ComponentContext Plugin Process)
      → AllPrepared env P adapted
      → build_adapted env adapted r info ≡ ok ctx
      → AllInstances ctx
  unfolding build_adapted Everywhere slots_of
  build_adapted-All adapted r info ctx a e =
      let (prepared, f, e1) = >>=-eq-ok (or_throw (find r.folder adapted) (not_prepared env)) _ e in
      let (params_module, _, e2) = >>=-eq-ok (env.load_parameters r.folder) _ e1 in
      let (clock, k, same) =
        component_context-made (some prepared.instance_) _ (some prepared.process) []
          env.clock_options ctx e2 in
      subst AllInstances same (
        (
          k,
          inr (
            prepared.process,
            prepared.instance_,
            refl,
            refl,
            AllValues-find _ r.folder prepared adapted a
                (or_throw-some (find r.folder adapted) (not_prepared env) prepared f),
          ),
        ),
        tt,
      )

  pub build_for_component-All :
      (fuel : ℕ) (adapted : Adapted env) (path parent name : String)
      (ctx : ComponentContext Plugin Process)
      → AllPrepared env P adapted
      → build_for_component env fuel adapted path parent name ≡ ok ctx
      → AllInstances ctx
  unfolding build_for_component
  build_for_component-All zero adapted path parent name ctx a e = absurd (cc e)
  build_for_component-All (suc fuel) adapted path parent name ctx a e =
      let (r, _, e1) = >>=-eq-ok (resolve_component env path _ name) _ e in
      let (info, _, e2) = >>=-eq-ok (plugin_of env r) _ e1 in
      elim (Bool-cases (is_cpp_source_language info)) [
        | inl native ↦
            build_native_component-All (build_for_component env fuel adapted) r info ctx
              (λ p q n c. build_for_component-All fuel adapted p q n c a) native (rw native at e2)
        | inr other ↦ build_adapted-All adapted r info ctx a (rw other at e2)
      ]

  build_component-All :
      (fuel : ℕ) (path : String) (ctx : ComponentContext Plugin Process)
      → Creates env P
      → build_component_from_path env fuel path ≡ ok ctx
      → AllInstances ctx
  unfolding build_component_from_path
  build_component-All fuel path ctx created e =
      let (node, _, e1) = >>=-eq-ok (make_component_node env path path "") _ e in
      let (adapted, p, e2) = >>=-eq-ok (prepare_component_processes env fuel (node ∷ [])) _ e1 in
      build_for_component-All fuel adapted path "" "" ctx
        (prepared-All env P fuel (node ∷ []) adapted created p) e2

-- Every context in the tree of a component that is built has the clock that the builder was given
-- options for and an instance: that of a C++ plugin that
-- was loaded, and no process, or a server process that runs, whose executor is started and whose
-- adapter clients are all connected, and the instance is the cast of one of these clients. It holds
-- where the system lets the cleanup of a server end.
pub built-IsServed :
    {Client Plugin : Type 0}
    → (site : Site Client Plugin) → (registry : ExternalComponentProcessRegistry)
    → (env : Environment Plugin (Started site)) → (fuel : ℕ) → (path : String)
    → (ctx : ComponentContext Plugin (Started site)) → CleansUp site
    → build_component_from_path (with_processes site registry env) fuel path ≡ ok ctx
    → AllInstances (with_processes site registry env) (IsServed site) ctx
built-IsServed site registry env fuel path ctx cleans =
    build_component-All (with_processes site registry env) (IsServed site) fuel path ctx
      (with_processes-Creates site registry env cleans)
