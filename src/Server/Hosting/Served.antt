-- ===== src/Server/Hosting/Served.antt =====
-- Which capability the host gives for a connection.
use rpp_cpp.Base.{◌≡◌, ◌∙◌, false, String, ◌==◌, List, [], ◌∷◌, All, Option, none, some, arith}
use rpp_cpp.Base.Result.{ok, >>=-eq-ok}
use rpp_cpp.Base.Dict.{find}
use rpp_cpp.Python.{member}
use rpp_cpp.Context.{ComponentContext}
use rpp_cpp.Host.{RppServerHost}
use rpp_cpp.Server.Hosting.{Machine, register, register_all}
use rpp_cpp.Server.Hosting.Registered.{
  KeepsNames, IsRegistered, register-find, register-IsRegistered, IsRegistered-kept,
}

-- No two of the connections have the same name.
abbrev pub Distinct : List String → Type 0
Distinct [] = Unit
Distinct (c ∷ conns) = (member c conns ≡ false) × Distinct conns

module _ {Plugin Process Adapter Capability : Type 0}
    (m : Machine Plugin Process Adapter Capability) (home : String) where
  module _ (keeps : KeepsNames m home) where
    -- A step of register_all that returns.
    register_all-step :
        (host last : RppServerHost Capability) (ctx : ComponentContext Plugin Process)
        (contexts : List (ComponentContext Plugin Process)) (conn name : String)
        (conns names : List String)
        → register_all m home host (ctx ∷ contexts) (conn ∷ conns) (name ∷ names) ≡ ok (some last)
        → (next : RppServerHost Capability) × (register m home host ctx conn name ≡ ok (some next))
          × (register_all m home next contexts conns names ≡ ok (some last))
    unfolding register_all
    register_all-step host last ctx contexts conn name conns names e =
        let (r, f, e1) = >>=-eq-ok (register m home host ctx conn name) _ e in go r f e1
      where
        go :
            (r : Option (RppServerHost Capability))
            → register m home host ctx conn name ≡ ok r
            → (elim r [
              | none ↦ ok none
              | some next ↦ register_all m home next contexts conns names
            ])
              ≡ ok (some last)
            → (next : RppServerHost Capability) × (register m home host ctx conn name
                ≡ ok (some next))
              × (register_all m home next contexts conns names ≡ ok (some last))
        go none f e1 = absurd (cc e1)
        go (some next) f e1 = (next, f, e1)

    register_all-find :
        (host last : RppServerHost Capability) (contexts : List (ComponentContext Plugin Process))
        (conns names : List String) (k : String)
        → All (λ c. (c == "") ≡ false) conns
        → member k conns ≡ false
        → register_all m home host contexts conns names ≡ ok (some last)
        → find k last.adapters ≡ find k host.adapters
    unfolding register_all member
    register_all-find host last [] conns names k named new e = ground (arith, e)
    register_all-find host last (ctx ∷ contexts) [] names k named new e = ground (arith, e)
    register_all-find host last (ctx ∷ contexts) (conn ∷ conns) [] k named new e = ground (arith, e)
    register_all-find host last (ctx ∷ contexts) (conn ∷ conns) (name ∷ names) k (n, named) new e =
        let (next, f, e1) = register_all-step host last ctx contexts conn name conns names e in
        register_all-find next last contexts conns names k named (ground (arith, new)) e1
        ∙ register-find m home keeps host next ctx conn name k n (ground (arith, new)) f

    -- For each context, its connection and its plugin's name.
    abbrev pub AllRegistered :
        RppServerHost Capability
        → List (ComponentContext Plugin Process)
        → List String
        → List String
        → Type 0
    AllRegistered host (ctx ∷ contexts) (conn ∷ conns) (name ∷ names) =
        IsRegistered m home host ctx conn name × AllRegistered host contexts conns names
    AllRegistered host _ _ _ = Unit

    pub register_all-AllRegistered :
        (host last : RppServerHost Capability) (contexts : List (ComponentContext Plugin Process))
        (conns names : List String)
        → All (λ c. (c == "") ≡ false) conns
        → Distinct conns
        → register_all m home host contexts conns names ≡ ok (some last)
        → AllRegistered last contexts conns names
    register_all-AllRegistered host last [] conns names named d e = tt
    register_all-AllRegistered host last (ctx ∷ contexts) [] names named d e = tt
    register_all-AllRegistered host last (ctx ∷ contexts) (conn ∷ conns) [] named d e = tt
    register_all-AllRegistered host last (ctx ∷ contexts) (conn ∷ conns) (name ∷ names) (n, named)
          (new, d) e =
        let (next, f, e1) = register_all-step host last ctx contexts conn name conns names e in
        (
          IsRegistered-kept m home keeps next last ctx conn name
              (register_all-find next last contexts conns names conn named new e1)
              (register-IsRegistered m home keeps host next ctx conn name n f),
          register_all-AllRegistered next last contexts conns names named d e1,
        )
