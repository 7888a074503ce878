-- ===== src/Builder/Processes/Live.antt =====
-- The processes and instances that preparation leaves in the table of adapted components.
use mathlib.Core.Option.{bind}
use rpp_cpp.Base.{
  ℕ, ◌≡◌, ◌∙◌, sym, ap, true, String, List, [], ◌∷◌, length, All, Any, All-imp, some,
}
use mathlib.Core.Path.{subst}
use rpp_cpp.Base.Result.{Result, ok, ok_inj, >>=-eq-ok}
use rpp_cpp.Base.Dict.{Dict}
use rpp_cpp.Base.Dict.Replaced.{AllValues, AllValues-insert_both}
use rpp_cpp.Process.{ChildProcess, child_process, start, is_live}
use rpp_cpp.Process.Cleanup.{Ends}
use rpp_cpp.External.{ExternalComponentSpec, ExternalComponentProcessRegistry, create}
use rpp_cpp.External.Runtime.{agrees, Construction, built, refused, unwound, waits}
use rpp_cpp.External.Runtime.Built.{IsSafe, external_component_process-IsSafe}
use rpp_cpp.Builder.{Environment, ComponentNode, PreparedAdaptedComponent}
use rpp_cpp.Builder.Construction.{
  Adapted, component_specs, group_nodes, hand_out, prepare_groups, collect_roots,
  prepare_component_processes,
}
use rpp_cpp.Builder.Prepared.{Gives}
use rpp_cpp.External.Created.{create-constructed}
use rpp_cpp.Builder.Processes.{
  Owner, Site, Started, constructed, machine, create_process, with_processes,
}

module _ {Plugin Process : Type 0} (env : Environment Plugin Process)
    (P : Process → Plugin → Type 0) where
  -- Of each entry of the table: its process and its instance.
  abbrev pub AllPrepared : Adapted env → Type 0
  AllPrepared adapted =
      AllValues (λ (p : PreparedAdaptedComponent Plugin Process). P p.process p.instance_) adapted

  hand_out-All :
      (process : Process) (group : List ComponentNode) (instances : List Plugin)
      (adapted : Adapted env)
      → All (P process) instances
      → AllPrepared adapted
      → AllPrepared (hand_out env process group instances adapted)
  unfolding hand_out
  hand_out-All process [] instances adapted p a = a
  hand_out-All process (n ∷ group) [] adapted p a = a
  hand_out-All process (n ∷ group) (i ∷ instances) adapted (p, ps) a =
      hand_out-All process group instances _ ps (
        AllValues-insert_both _ n.record_.folder (record { instance_ = i; process = process })
          adapted p a)

  -- What holds of the instances that each creation gives.
  abbrev pub Creates : Type 0
  Creates =
      (language home : String) (specs : List ExternalComponentSpec) (process : Process)
      (instances : List Plugin)
      → env.create_process language home specs ≡ ok (process, instances)
      → All (P process) instances

  prepare_groups-All :
      (names : List String) (groups : Dict (List ComponentNode)) (adapted result : Adapted env)
      → Creates
      → AllPrepared adapted
      → prepare_groups env names groups adapted ≡ ok result
      → AllPrepared result
  unfolding prepare_groups
  prepare_groups-All names [] adapted result created a e = subst AllPrepared (ok_inj e) a
  prepare_groups-All names ((language, group) ∷ groups) adapted result created a e =
      let ((specs, used), f, e1) = >>=-eq-ok (component_specs names group) _ e in
      let ((process, instances), g, e2) =
        >>=-eq-ok (env.create_process language env.home specs) _ e1 in
      prepare_groups-All used groups (hand_out env process group instances adapted) result created
        (hand_out-All process group instances adapted
          (created language env.home specs process instances g) a)
        e2

  pub prepared-All :
      (fuel : ℕ) (roots : List ComponentNode) (adapted : Adapted env)
      → Creates
      → prepare_component_processes env fuel roots ≡ ok adapted
      → AllPrepared adapted
  unfolding prepare_component_processes
  prepared-All fuel roots adapted created e =
      let (nodes, f, e1) = >>=-eq-ok (collect_roots env fuel roots) _ e in
      prepare_groups-All [] (group_nodes [] nodes) [] adapted created tt e1

pair_inj :
    {A B : Type 0} {a a' : A} {b b' : B}
    → ◌≡◌ {A = Result (A × B)} (ok (a, b)) (ok (a', b'))
    → (a ≡ a') × (b ≡ b')
pair_inj e = (ap (λ p. p.0) (ok_inj e), ap (λ p. p.1) (ok_inj e))

module _ {Client Plugin : Type 0} (site : Site Client Plugin) where
  -- The child runs, its adapter clients are connected as the world of some command has it, and the
  -- instance is the cast of one of them.
  abbrev pub IsServed : Started site → Plugin → Type 0
  IsServed x i =
      (command : List String) × (is_live x.process ≡ true)
      × (x.executor_started ≡ true)
      × All (λ c. (site.world command).connect_adapter_client c ≡ agrees true) x.adapter_clients
      × Any (λ c. bind c (λ p. site.as_plugin p.object) ≡ some i) x.adapter_clients

  -- The system lets the cleanup of every server end.
  abbrev pub CleansUp : Type 0
  CleansUp =
      (command : List String) (p : ChildProcess)
      → child_process command ≡ ok p
      → Ends (site.world command).unwinding (start (site.world command).fork p).1

  constructed-IsServed :
      (command : List String) (clients : List (Owner Client)) (c : Construction (Owner Client))
      (x : Started site) (i : Plugin)
      → IsSafe (site.world command) clients c
      → Any (λ c. bind c (λ p. site.as_plugin p.object) ≡ some i) clients
      → constructed site c ≡ ok x
      → IsServed x i
  constructed-IsServed command clients (built y) x i (live, executor, client, same, connected) cast
        e =
      subst (λ z. IsServed z i) (ok_inj e)
        (
          command,
          live,
          executor,
          subst (λ cs. All (λ c. (site.world command).connect_adapter_client c ≡ agrees true) cs)
              (sym same) connected,
          subst (Any (λ c. bind c (λ p. site.as_plugin p.object) ≡ some i)) (sym same) cast,
        )
  constructed-IsServed command clients (refused x') x i safe cast e = absurd (cc e)
  constructed-IsServed command clients (unwound x' r) x i safe cast e = absurd (cc e)
  constructed-IsServed command clients (waits p) x i safe cast e = absurd (cc e)

  created-IsServed :
      (registry : ExternalComponentProcessRegistry) (language home : String)
      (specs : List ExternalComponentSpec) (process : Started site) (instances : List Plugin)
      → CleansUp
      → create_process site registry language home specs ≡ ok (process, instances)
      → All (IsServed process) instances × (length instances ≡ length specs)
  unfolding create_process
  created-IsServed registry language home specs process instances cleans e =
      let m = machine site home language in
      let ((pr, is, command), c, e1) =
        >>=-eq-ok (create m language home specs registry "127.0.0.1") _ e in
      let (clients, _, _, l, casts, b) =
        create-constructed m language home "127.0.0.1" specs registry pr is command c in
      let (same, counted) = pair_inj e1 in
      let safe =
        external_component_process-IsSafe (site.world command) command clients (cleans command) in
      (
        subst (λ p. All (IsServed p) instances) same
            (subst (All (IsServed pr)) counted (
              All-imp (λ i cast. constructed-IsServed command clients _ pr i safe cast b) is
                casts)),
        ap (λ (is : List Plugin). length is) (sym counted) ∙ l,
      )

  -- create gives an instance for each component, as the builder's theorems ask.
  pub with_processes-Gives :
      (registry : ExternalComponentProcessRegistry) (env : Environment Plugin (Started site))
      → CleansUp
      → Gives (with_processes site registry env)
  with_processes-Gives registry env cleans language home specs process instances e =
      (created-IsServed registry language home specs process instances cleans e).1

  pub with_processes-Creates :
      (registry : ExternalComponentProcessRegistry) (env : Environment Plugin (Started site))
      → CleansUp
      → Creates (with_processes site registry env) IsServed
  with_processes-Creates registry env cleans language home specs process instances e =
      (created-IsServed registry language home specs process instances cleans e).0
