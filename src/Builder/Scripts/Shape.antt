-- ===== src/Builder/Scripts/Shape.antt =====
-- Which components the slots of a script's context hold.
use rpp_cpp.Base.{
  ℕ, ◌≡◌, refl, sym, ap, ◌∙◌, String, List, [], ◌∷◌, Option, none, some, not, is_empty,
}
use mathlib.Core.Path.{subst}
use rpp_cpp.Base.Result.{Result, ok, ok_inj, guard, or_throw-some, >>=-eq-ok, ◌>>=◌, traverse}
use rpp_cpp.Base.Dict.{Dict, find}
use rpp_cpp.Data.Script.{ScriptDescription, ScriptComponent, ComponentAssignments}
use rpp_cpp.Data.Manager.{
  load_script_description, get_default_script_parts_folder_path_from_description,
  get_component_path_in_parts_folder,
}
use rpp_cpp.Context.{
  component_context-made, ComponentContext, contexts, contexts_of, slots, slots_of, subcomponents,
  own,
}
use rpp_cpp.Builder.{Environment, ComponentNode}
use rpp_cpp.Builder.Construction.{Adapted, prepare_component_processes, build_for_component}
use rpp_cpp.Builder.Scripts.Roots.{all_assigned, AreRoots, script_roots-AreRoots}
use rpp_cpp.Builder.Scripts.{
  selected_configuration, get_script_components, path_in, parts_of, script_roots, script_slots,
  build_script_from_description_path,
}

-- The name of the configuration: the one that is asked for, or the active one where none is.
abbrev pub IsChosen : ScriptDescription → Option String → String → Type 0
IsChosen d none name = name ≡ d.active_configuration
IsChosen d (some asked) name = name ≡ asked

selected-IsChosen :
    (d : ScriptDescription) (configuration : Option String)
    → IsChosen d configuration (selected_configuration configuration d)
selected-IsChosen d none = refl
selected-IsChosen d (some asked) = refl

get_script_components-IsChosen :
    (d : ScriptDescription) (configuration : Option String) (components : ComponentAssignments)
    → get_script_components d configuration ≡ ok components
    → (name : String) × IsChosen d configuration name
      × (find name d.configurations ≡ some components)
unfolding get_script_components
get_script_components-IsChosen d configuration components e =
    let (_, g, e1) = >>=-eq-ok (guard (not (is_empty d.configurations)) _) _ e in
    (
      selected_configuration configuration d,
      selected-IsChosen d configuration,
      or_throw-some (find (selected_configuration configuration d) d.configurations) _ components
          e1,
    )

module _ {Plugin Process : Type 0} where
  contexts-contexts_of :
      (cs : List (ComponentContext Plugin Process)) → contexts (contexts_of cs) ≡ cs
  unfolding contexts contexts_of
  contexts-contexts_of [] = refl
  contexts-contexts_of (c ∷ cs) = ap (◌∷◌ c) (contexts-contexts_of cs)

  slots-slots_of : (m : Dict (List (ComponentContext Plugin Process))) → slots (slots_of m) ≡ m
  unfolding slots slots_of
  slots-slots_of [] = refl
  slots-slots_of ((k, cs) ∷ m) = rw (contexts-contexts_of cs, slots-slots_of m) refl

  module _ (env : Environment Plugin Process) where
    -- The folder of the parts: the one that is given, or the default for the description.
    abbrev pub IsPartsFolder : String → Option String → String → Type 0
    IsPartsFolder path (some given) parts_folder = parts_folder ≡ given
    IsPartsFolder path none parts_folder =
        parts_folder ≡ get_default_script_parts_folder_path_from_description env.fs path

    module _ (fuel : ℕ) (adapted : Adapted env) (parts_folder : String) where
      -- A context for each component, in order: the one that construction gives for the component's
      -- folder among the parts.
      abbrev pub AreBuilt : List ScriptComponent → List (ComponentContext Plugin Process) → Type 0
      AreBuilt [] [] = Unit
      AreBuilt (c ∷ assigned) (ctx ∷ contexts) =
          ((path : String) × (get_component_path_in_parts_folder env.fs parts_folder c.plugin_name
                c.id
              ≡ ok path)
            × (build_for_component env fuel adapted path path c.plugin_name ≡ ok ctx))
          × AreBuilt assigned contexts
      AreBuilt _ _ = ⊥

      -- The same slots in the same order.
      abbrev pub Matches :
          ComponentAssignments → Dict (List (ComponentContext Plugin Process)) → Type 0
      Matches [] [] = Unit
      Matches ((slot_name, assigned) ∷ rest) ((k, contexts) ∷ slots) =
          (k ≡ slot_name) × AreBuilt assigned contexts × Matches rest slots
      Matches _ _ = ⊥

      build_part : ScriptComponent → Result (ComponentContext Plugin Process)
      build_part c = path_in env parts_folder c >>= λ path.
          build_for_component env fuel adapted path path c.plugin_name

      traverse-AreBuilt :
          (assigned : List ScriptComponent) (contexts : List (ComponentContext Plugin Process))
          → traverse build_part assigned ≡ ok contexts
          → AreBuilt assigned contexts
      unfolding build_part
      traverse-AreBuilt [] contexts e = subst (AreBuilt []) (ok_inj e) tt
      traverse-AreBuilt (c ∷ assigned) contexts e =
          let (ctx, b, e1) = >>=-eq-ok (build_part c) _ e in
          let (rest, q, e2) = >>=-eq-ok (traverse build_part assigned) _ e1 in
          subst (AreBuilt (c ∷ assigned)) (ok_inj e2)
            (>>=-eq-ok (path_in env parts_folder c) _ b, traverse-AreBuilt assigned rest q)

      script_slots-Matches :
          (assignments : ComponentAssignments)
          (built : Dict (List (ComponentContext Plugin Process)))
          → script_slots env
              (λ path plugin_name. build_for_component env fuel adapted path path plugin_name)
              parts_folder
              assignments
            ≡ ok built
          → Matches assignments built
      unfolding script_slots build_part
      script_slots-Matches [] built e = subst (Matches []) (ok_inj e) tt
      script_slots-Matches ((slot_name, assigned) ∷ rest) built e =
          let (cs, c, e1) = >>=-eq-ok (traverse build_part assigned) _ e in
          let (others, o, e2) =
            >>=-eq-ok
              (script_slots env
                (λ path plugin_name. build_for_component env fuel adapted path path plugin_name)
                parts_folder rest)
              _ e1 in
          subst (Matches ((slot_name, assigned) ∷ rest)) (ok_inj e2)
            (refl, traverse-AreBuilt assigned cs c, script_slots-Matches rest others o)

    parts_of-IsPartsFolder :
        (path : String) (given : Option String) → IsPartsFolder path given (parts_of env path given)
    parts_of-IsPartsFolder path none = refl
    parts_of-IsPartsFolder path (some parts_folder) = refl

    -- A script that is built has, for each slot of the configuration that is asked for, or else of the
    -- active one, and in the same order, a context for each of the slot's components, in order: the
    -- one that construction gives for the component's folder in the given or the default folder of
    -- parts, with the processes that were prepared for all of these components. It has no instance of
    -- its own.
    pub build_script-Matches :
        (fuel : ℕ) (path : String) (configuration parts_folder : Option String)
        (ctx : ComponentContext Plugin Process)
        → build_script_from_description_path env fuel path configuration parts_folder ≡ ok ctx
        → (d : ScriptDescription) × (name : String) × (components : ComponentAssignments)
          × (parts : String) × (roots : List ComponentNode) × (adapted : Adapted env)
          × (load_script_description env.fs env.js path ≡ ok d)
          × IsChosen d configuration name
          × (find name d.configurations ≡ some components)
          × IsPartsFolder path parts_folder parts
          × AreRoots env parts (all_assigned components) roots
          × (prepare_component_processes env fuel roots ≡ ok adapted)
          × Matches fuel adapted parts components (subcomponents ctx)
          × ((own ctx).instance_ ≡ none)
    unfolding build_script_from_description_path
    build_script-Matches fuel path configuration parts_folder ctx e =
        let (d, l, e1) = >>=-eq-ok (load_script_description env.fs env.js path) _ e in
        let (components, g, e2) = >>=-eq-ok (get_script_components d configuration) _ e1 in
        let parts = parts_of env path parts_folder in
        let (roots, r, e3) = >>=-eq-ok (script_roots env parts components) _ e2 in
        let (adapted, a, e4) = >>=-eq-ok (prepare_component_processes env fuel roots) _ e3 in
        let (built, b, e5) =
          >>=-eq-ok
            (script_slots env
              (λ path plugin_name. build_for_component env fuel adapted path path plugin_name) parts
              components)
            _ e4 in
        let (clock, _, same) = component_context-made none _ none built env.clock_options ctx e5 in
        let (name, chosen, found) = get_script_components-IsChosen d configuration components g in
        (
          d,
          name,
          components,
          parts,
          roots,
          adapted,
          l,
          chosen,
          found,
          parts_of-IsPartsFolder path parts_folder,
          script_roots-AreRoots env parts components roots r,
          a,
          subst (Matches fuel adapted parts components)
              (sym (slots-slots_of built) ∙ ap (λ c. subcomponents c) same)
              (script_slots-Matches fuel adapted parts components built b),
          sym (ap (λ c. (own c).instance_) same),
        )
