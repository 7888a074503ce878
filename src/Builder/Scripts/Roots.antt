-- ===== src/Builder/Scripts/Roots.antt =====
-- The nodes that a script's processes are prepared for.
use mathlib.Core.Path.{subst}
use rpp_cpp.Base.{◌≡◌, String, List, [], ◌∷◌, ◌++◌}
use rpp_cpp.Base.Result.{Result, ok, ok_inj, >>=-eq-ok, ◌>>=◌, traverse}
use rpp_cpp.Data.Script.{ScriptComponent, ComponentAssignments}
use rpp_cpp.Data.Manager.{get_component_path_in_parts_folder}
use rpp_cpp.Builder.{Environment, ComponentNode, make_component_node}
use rpp_cpp.Builder.Scripts.{path_in, script_roots}

-- The components of all slots.
abbrev pub all_assigned : ComponentAssignments → List ScriptComponent
all_assigned [] = []
all_assigned ((slot_name, assigned) ∷ rest) = assigned ++ all_assigned rest

module _ {Plugin Process : Type 0} (env : Environment Plugin Process) (parts_folder : String) where
  -- A node for each component, in order: that of the component's folder among the parts.
  abbrev pub AreRoots : List ScriptComponent → List ComponentNode → Type 0
  AreRoots [] [] = Unit
  AreRoots (c ∷ assigned) (node ∷ nodes) =
      ((path : String) × (get_component_path_in_parts_folder env.fs parts_folder c.plugin_name c.id
          ≡ ok path)
        × (make_component_node env path path c.plugin_name ≡ ok node))
      × AreRoots assigned nodes
  AreRoots _ _ = ⊥

  AreRoots-append :
      (assigned others : List ScriptComponent) (nodes more : List ComponentNode)
      → AreRoots assigned nodes
      → AreRoots others more
      → AreRoots (assigned ++ others) (nodes ++ more)
  AreRoots-append [] others [] more a b = b
  AreRoots-append [] others (node ∷ nodes) more a b = absurd a
  AreRoots-append (c ∷ assigned) others [] more a b = absurd a
  AreRoots-append (c ∷ assigned) others (node ∷ nodes) more (p, a) b =
      (p, AreRoots-append assigned others nodes more a b)

  root_of : ScriptComponent → Result ComponentNode
  root_of c = path_in env parts_folder c >>= λ path. make_component_node env path path c.plugin_name

  traverse-AreRoots :
      (assigned : List ScriptComponent) (nodes : List ComponentNode)
      → traverse root_of assigned ≡ ok nodes
      → AreRoots assigned nodes
  unfolding root_of
  traverse-AreRoots [] nodes e = subst (AreRoots []) (ok_inj e) tt
  traverse-AreRoots (c ∷ assigned) nodes e =
      let (node, r, e1) = >>=-eq-ok (root_of c) _ e in
      let (rest, q, e2) = >>=-eq-ok (traverse root_of assigned) _ e1 in
      subst (AreRoots (c ∷ assigned)) (ok_inj e2)
        (>>=-eq-ok (path_in env parts_folder c) _ r, traverse-AreRoots assigned rest q)

  pub script_roots-AreRoots :
      (components : ComponentAssignments) (nodes : List ComponentNode)
      → script_roots env parts_folder components ≡ ok nodes
      → AreRoots (all_assigned components) nodes
  unfolding script_roots root_of
  script_roots-AreRoots [] nodes e = subst (AreRoots []) (ok_inj e) tt
  script_roots-AreRoots ((slot_name, assigned) ∷ rest) nodes e =
      let (xs, t, e1) = >>=-eq-ok (traverse root_of assigned) _ e in
      let (ys, r, e2) = >>=-eq-ok (script_roots env parts_folder rest) _ e1 in
      subst (AreRoots (assigned ++ all_assigned rest)) (ok_inj e2) (
        AreRoots-append assigned (all_assigned rest) xs ys (traverse-AreRoots assigned xs t)
          (script_roots-AreRoots rest ys r))
