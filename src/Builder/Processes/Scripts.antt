-- ===== src/Builder/Processes/Scripts.antt =====
-- The contexts of a script that is built.
use rpp_cpp.Base.{ℕ, ◌≡◌, String, List, [], ◌∷◌, All, Option, none}
use mathlib.Core.Path.{subst}
use rpp_cpp.Base.Result.{Result, ok, ok_inj, >>=-eq-ok, ◌>>=◌, traverse, All-traverse}
use rpp_cpp.Base.Dict.{Dict}
use rpp_cpp.Base.Dict.Replaced.{AllValues}
use rpp_cpp.Data.Script.{ScriptComponent, ComponentAssignments}
use rpp_cpp.Data.Manager.{load_script_description}
use rpp_cpp.External.{ExternalComponentProcessRegistry}
use rpp_cpp.Context.{ComponentContext, context, Slots, component_context-made}
use rpp_cpp.Context.Everywhere.{InSlots, InSlots-slots_of}
use rpp_cpp.Builder.{Environment}
use rpp_cpp.Builder.Construction.{prepare_component_processes, build_for_component}
use rpp_cpp.Builder.Scripts.{
  get_script_components, path_in, parts_of, script_roots, script_slots,
  build_script_from_description_path,
}
use rpp_cpp.Builder.Processes.{Site, Started, with_processes}
use rpp_cpp.Builder.Processes.Live.{
  Creates, prepared-All, IsServed, CleansUp, with_processes-Creates,
}
use rpp_cpp.Builder.Processes.Served.{HasInstance, AllInstances, build_for_component-All}

abbrev pub below :
    {Plugin Process : Type 0} → ComponentContext Plugin Process → Slots Plugin Process
below (context o s) = s

module _ {Plugin Process : Type 0} (env : Environment Plugin Process)
    (P : Process → Plugin → Type 0) where
  script_slots-All :
      (build : String → String → Result (ComponentContext Plugin Process)) (parts_folder : String)
      (assignments : ComponentAssignments) (built : Dict (List (ComponentContext Plugin Process)))
      → ((path name : String) (c : ComponentContext Plugin Process)
          → build path name ≡ ok c
          → AllInstances env P c)
      → script_slots env build parts_folder assignments ≡ ok built
      → AllValues (All (AllInstances env P)) built
  unfolding script_slots
  script_slots-All build parts_folder [] built h e =
      subst (AllValues (All (AllInstances env P))) (ok_inj e) tt
  script_slots-All build parts_folder ((slot_name, assigned) ∷ rest) built h e =
      let (cs, c, e1) =
        >>=-eq-ok
          (traverse
            (λ (c : ScriptComponent).
              path_in env parts_folder c >>= λ path. build path c.plugin_name)
            assigned)
          _ e in
      let (others, o, e2) = >>=-eq-ok (script_slots env build parts_folder rest) _ e1 in
      subst (AllValues (All (AllInstances env P))) (ok_inj e2) (
        All-traverse
            (λ (c : ScriptComponent).
              path_in env parts_folder c >>= λ path. build path c.plugin_name)
            (λ s ctx q.
              let (path, _, b) = >>=-eq-ok (path_in env parts_folder s) _ q in h path _ ctx b)
            assigned cs c,
        script_slots-All build parts_folder rest others h o,
      )

  build_script-All :
      (fuel : ℕ) (path : String) (configuration parts_folder : Option String)
      (ctx : ComponentContext Plugin Process)
      → Creates env P
      → build_script_from_description_path env fuel path configuration parts_folder ≡ ok ctx
      → InSlots (HasInstance env P) (below ctx)
  unfolding build_script_from_description_path
  build_script-All fuel path configuration parts_folder ctx created e =
      let (d, _, e1) = >>=-eq-ok (load_script_description env.fs env.js path) _ e in
      let (components, _, e2) = >>=-eq-ok (get_script_components d configuration) _ e1 in
      let (roots, _, e3) =
        >>=-eq-ok (script_roots env (parts_of env path parts_folder) components) _ e2 in
      let (adapted, a, e4) = >>=-eq-ok (prepare_component_processes env fuel roots) _ e3 in
      let build : String → String → Result (ComponentContext Plugin Process) =
        λ path plugin_name. build_for_component env fuel adapted path path plugin_name in
      let (built, b, e5) =
        >>=-eq-ok (script_slots env build (parts_of env path parts_folder) components) _ e4 in
      let (clock, _, same) = component_context-made none _ none built env.clock_options ctx e5 in
      subst (λ c. InSlots (HasInstance env P) (below c)) same
        (InSlots-slots_of (HasInstance env P) built (
          script_slots-All build (parts_of env path parts_folder) components built
            (λ p n c q.
              build_for_component-All env P fuel adapted p p n c
                (prepared-All env P fuel roots adapted created a) q)
            b))

-- Every context below a script's own is as in the tree of a component: it has the clock that the
-- builder was given options for and an instance, of a loaded C++ plugin or as the cast of a connected
-- client of a server process that runs. It holds where the system lets the cleanup of a server end.
pub script-IsServed :
    {Client Plugin : Type 0}
    → (site : Site Client Plugin) → (registry : ExternalComponentProcessRegistry)
    → (env : Environment Plugin (Started site)) → (fuel : ℕ) → (path : String)
    → (configuration parts_folder : Option String) → (ctx : ComponentContext Plugin (Started site))
    → CleansUp site
    → build_script_from_description_path
        (with_processes site registry env)
        fuel
        path
        configuration
        parts_folder
      ≡ ok ctx
    → InSlots (HasInstance (with_processes site registry env) (IsServed site)) (below ctx)
script-IsServed site registry env fuel path configuration parts_folder ctx cleans =
    build_script-All (with_processes site registry env) (IsServed site) fuel path configuration
      parts_folder ctx (with_processes-Creates site registry env cleans)
