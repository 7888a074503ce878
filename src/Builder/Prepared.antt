-- ===== src/Builder/Prepared.antt =====
-- What prepare_component_processes leaves in the table of adapted components.
use rpp_cpp.Base.{
  ℕ, ◌≡◌, refl, ◌∙◌, Bool, true, false, not, Bool-cases, inl, inr, String, ◌==◌, List, [], ◌∷◌,
  ◌++◌, length, All, Option, none, some, arith, if◌then◌else◌,
}
use mathlib.Core.Path.{subst}
use rpp_cpp.Base.Result.{ok, guard, ok_inj, >>=-eq-ok}
use rpp_cpp.Base.Dict.{Dict, find, insert, find-insert, find-insert_self}
use rpp_cpp.Base.Dict.Replaced.{AllValues, AllValues-insert, AllValues-insert_new}
use rpp_cpp.Python.{member}
use rpp_cpp.Text.Lower.{to_lower_copy}
use rpp_cpp.Data.Plugin.{is_cpp_source_language}
use rpp_cpp.External.{ExternalComponentSpec}
use rpp_cpp.Builder.{Environment, ComponentNode, PreparedAdaptedComponent}
use rpp_cpp.Builder.Construction.{
  push, connection_of, group_nodes, component_specs, hand_out, prepare_groups, collect_roots,
  prepare_component_processes, Adapted,
}

module _ (P : ComponentNode → Type 0) where
  All-snoc : (xs : List ComponentNode) (x : ComponentNode) → All P (xs ++ x ∷ []) → All P xs × P x
  All-snoc [] x (a, b) = (tt, a)
  All-snoc (y ∷ xs) x (a, b) = let (c, d) = All-snoc xs x b in ((a, c), d)

  abbrev pub InGroups : Dict (List ComponentNode) → Type 0
  InGroups groups = AllValues (All P) groups

  InGroups-push :
      (key : String) (x : ComponentNode) (groups : Dict (List ComponentNode))
      → InGroups (push key x groups)
      → InGroups groups × P x
  InGroups-push key x groups a = go (find key groups) refl a
    where
      go :
          (o : Option (List ComponentNode))
          → find key groups ≡ o
          → InGroups (elim o [
            | some xs ↦ insert key (xs ++ x ∷ []) groups
            | none ↦ insert key (x ∷ []) groups
          ])
          → InGroups groups × P x
      go none e a =
          let (b, c) = AllValues-insert (All P) key (x ∷ []) groups a (λ w q. absurd (cc (e, q))) in
          (c, b.0)
      go (some xs) e a =
          let (before, new) =
            All-snoc xs x (AllValues-insert_new (All P) key (xs ++ x ∷ []) groups a) in
          let (b, c) =
            AllValues-insert (All P) key (xs ++ x ∷ []) groups a
              (λ w q. subst (All P) (let p : xs ≡ w = cc (e, q) in p) before) in
          (c, new)

  abbrev pub AdaptedAll : List ComponentNode → Type 0
  AdaptedAll nodes =
      All (λ (n : ComponentNode). is_cpp_source_language n.plugin_info ≡ false → P n) nodes

  InGroups-chosen :
      (b : Bool) (key : String) (n : ComponentNode) (groups : Dict (List ComponentNode))
      → InGroups (if b then groups else push key n groups)
      → InGroups groups × (b ≡ false → P n)
  InGroups-chosen true key n groups a = (a, λ e. absurd (cc (e)))
  InGroups-chosen false key n groups a = let (g, p) = InGroups-push key n groups a in (g, λ e. p)

  InGroups-group_nodes :
      (nodes : List ComponentNode) (groups : Dict (List ComponentNode))
      → InGroups (group_nodes groups nodes)
      → InGroups groups × AdaptedAll nodes
  unfolding group_nodes
  InGroups-group_nodes [] groups a = (a, tt)
  InGroups-group_nodes (n ∷ nodes) groups a =
      let key = to_lower_copy n.plugin_info.source_language in
      let cpp = is_cpp_source_language n.plugin_info in
      let (g, h) = InGroups-group_nodes nodes (if cpp then groups else push key n groups) a in
      let (g', p) = InGroups-chosen cpp key n groups g in (g', (p, h))

component_specs-length :
    (names : List String) (group : List ComponentNode) (specs : List ExternalComponentSpec)
    (used : List String)
    → component_specs names group ≡ ok (specs, used)
    → length specs ≡ length group
unfolding component_specs
component_specs-length names [] specs used e = ground (arith, e)
component_specs-length names (n ∷ group) specs used e =
    let (_, _, e1) = >>=-eq-ok (guard (not (member (connection_of n) names)) _) _ e in
    let ((ss, us), f, e2) = >>=-eq-ok (component_specs (connection_of n ∷ names) group) _ e1 in
    ground (arith, e2, component_specs-length (connection_of n ∷ names) group ss us f)

All-map :
    (P Q : ComponentNode → Type 0) (xs : List ComponentNode)
    → ((x : ComponentNode) → P x → Q x)
    → All P xs
    → All Q xs
All-map P Q [] f a = tt
All-map P Q (x ∷ xs) f (p, a) = (f x p, All-map P Q xs f a)

module _ {Plugin Process : Type 0} (env : Environment Plugin Process) where
  -- The folder has an entry in the table.
  abbrev pub Has : Adapted env → ComponentNode → Type 0
  Has adapted n =
      (p : PreparedAdaptedComponent Plugin Process) × (find n.record_.folder adapted ≡ some p)

  Has-insert :
      (adapted : Adapted env) (k : String) (v : PreparedAdaptedComponent Plugin Process)
      (n : ComponentNode)
      → Has adapted n
      → Has (insert k v adapted) n
  Has-insert adapted k v n (p, e) = elim (Bool-cases (k == n.record_.folder)) [
    | inl q ↦ (v, rw (find-insert n.record_.folder k v adapted, q) refl)
    | inr q ↦ (p, rw (find-insert n.record_.folder k v adapted, q) e)
  ]

  Has-hand_out :
      (process : Process) (group : List ComponentNode) (instances : List Plugin)
      (adapted : Adapted env) (n : ComponentNode)
      → Has adapted n
      → Has (hand_out env process group instances adapted) n
  unfolding hand_out
  Has-hand_out process [] instances adapted n h = h
  Has-hand_out process (m ∷ group) [] adapted n h = h
  Has-hand_out process (m ∷ group) (i ∷ instances) adapted n h =
      Has-hand_out process group instances _ n (Has-insert adapted m.record_.folder _ n h)

  hand_out-Has :
      (process : Process) (group : List ComponentNode) (instances : List Plugin)
      (adapted : Adapted env)
      → length instances ≡ length group
      → All (Has (hand_out env process group instances adapted)) group
  unfolding hand_out
  hand_out-Has process [] instances adapted e = tt
  hand_out-Has process (m ∷ group) [] adapted e = ground (arith, e)
  hand_out-Has process (m ∷ group) (i ∷ instances) adapted e = (
    Has-hand_out process group instances _ m
        (record { instance_ = i; process = process }, find-insert_self m.record_.folder _ adapted),
    hand_out-Has process group instances _ (ground (arith, e)),
  )

  -- create gives an instance for each component that it is given.
  abbrev pub Gives : Type 0
  Gives =
      (language home : String) (specs : List ExternalComponentSpec) (process : Process)
      (instances : List Plugin)
      → env.create_process language home specs ≡ ok (process, instances)
      → length instances ≡ length specs

  prepare_groups-Has :
      (names : List String) (groups : Dict (List ComponentNode)) (adapted result : Adapted env)
      → Gives
      → prepare_groups env names groups adapted ≡ ok result
      → InGroups (Has result) groups × ((n : ComponentNode) → Has adapted n → Has result n)
  unfolding prepare_groups
  prepare_groups-Has names [] adapted result gives e =
      (tt, λ n h. subst (λ a. Has a n) (ok_inj e) h)
  prepare_groups-Has names ((language, group) ∷ groups) adapted result gives e =
      let ((specs, used), f, e1) = >>=-eq-ok (component_specs names group) _ e in
      let ((process, instances), g, e2) =
        >>=-eq-ok (env.create_process language env.home specs) _ e1 in
      let (a, keeps) =
        prepare_groups-Has used groups (hand_out env process group instances adapted) result gives
          e2 in
      let l : length instances ≡ length group =
        gives language env.home specs process instances g
        ∙ component_specs-length names group specs used f in
      (
        (
          All-map (Has (hand_out env process group instances adapted)) (Has result) group keeps
              (hand_out-Has process group instances adapted l),
          a,
        ),
        λ n h. keeps n (Has-hand_out process group instances adapted n h),
      )

  -- After preparation every component that was collected and is not C++ has an entry in the table,
  -- under its folder, if create gives an instance for each component that it is given.
  pub prepared-covers :
      (fuel : ℕ) (roots : List ComponentNode) (adapted : Adapted env)
      → Gives
      → prepare_component_processes env fuel roots ≡ ok adapted
      → (nodes : List ComponentNode) × (collect_roots env fuel roots ≡ ok nodes)
        × AdaptedAll (Has adapted) nodes
  unfolding prepare_component_processes
  prepared-covers fuel roots adapted gives e =
      let (nodes, f, e1) = >>=-eq-ok (collect_roots env fuel roots) _ e in
      let (a, _) = prepare_groups-Has [] (group_nodes [] nodes) [] adapted gives e1 in
      (nodes, f, (InGroups-group_nodes (Has adapted) nodes [] a).1)
