-- ===== src/Context/Everywhere.antt =====
-- What holds in a whole tree of contexts.
use rpp_cpp.Base.{List, [], ◌∷◌, All}
use rpp_cpp.Base.Dict.{Dict}
use rpp_cpp.Base.Dict.Replaced.{AllValues}
use rpp_cpp.Context.{
  Own, ComponentContext, context, Slots, no_slots, slot, Contexts, no_contexts, one, contexts_of,
  slots_of,
}

module _ {Plugin Process : Type 0} (P : Own Plugin Process → Type 0) where
  unfoldable mutual
    pub Everywhere : ComponentContext Plugin Process → Type 0
    Everywhere (context o s) = P o × InSlots s

    pub InSlots : Slots Plugin Process → Type 0
    InSlots no_slots = Unit
    InSlots (slot name cs rest) = InContexts cs × InSlots rest

    pub InContexts : Contexts Plugin Process → Type 0
    InContexts no_contexts = Unit
    InContexts (one c cs) = Everywhere c × InContexts cs

  InContexts-contexts_of :
      (cs : List (ComponentContext Plugin Process))
      → All Everywhere cs
      → InContexts (contexts_of cs)
  unfolding contexts_of InContexts
  InContexts-contexts_of [] a = tt
  InContexts-contexts_of (c ∷ cs) (p, a) = (p, InContexts-contexts_of cs a)

  pub InSlots-slots_of :
      (m : Dict (List (ComponentContext Plugin Process)))
      → AllValues (All Everywhere) m
      → InSlots (slots_of m)
  unfolding slots_of InSlots
  InSlots-slots_of [] a = tt
  InSlots-slots_of ((name, cs) ∷ m) (p, a) = (InContexts-contexts_of cs p, InSlots-slots_of m a)
