-- ===== src/Context/Initialize.antt =====
-- The order in which initialize calls the plugins of a tree of components.
use rpp_cpp.Base.{◌≡◌, refl, sym, ap, ◌∙◌, List, [], ◌∷◌, ◌++◌, Option, none, some, arith}
use rpp_cpp.Base.Result.{Result, ok, err}
use mathlib.Core.List.{append_assoc}
use rpp_cpp.Context.{
  ComponentContext, context, Slots, no_slots, slot, Contexts, no_contexts, one, Calls, then_calls,
  initialize_instance, initialize, initialize_slots, initialize_all,
}

abbrev own_instance : {Plugin : Type 0} → Option Plugin → List Plugin
own_instance none = []
own_instance (some p) = p ∷ []

module _ {Plugin Process : Type 0} where
  -- The instances of a tree, those of the subcomponents before their parent's.
  abbrev mutual
    pub instances : ComponentContext Plugin Process → List Plugin
    instances (context o s) = slot_instances s ++ own_instance o.instance_

    pub slot_instances : Slots Plugin Process → List Plugin
    slot_instances no_slots = []
    slot_instances (slot name cs rest) = all_instances cs ++ slot_instances rest

    pub all_instances : Contexts Plugin Process → List Plugin
    all_instances no_contexts = []
    all_instances (one c cs) = instances c ++ all_instances cs

module _ {Plugin : Type 0} (initialize_plugin : Plugin → Result (Unit {0})) where
  -- One call after the other, up to the first that throws.
  abbrev pub in_turn : List Plugin → Calls Plugin
  in_turn [] = ([], ok tt)
  in_turn (p ∷ ps) = then_calls (p ∷ [], initialize_plugin p) (in_turn ps)

  then_calls_assoc :
      (a b c : Calls Plugin) → then_calls (then_calls a b) c ≡ then_calls a (then_calls b c)
  then_calls_assoc (xs, err e) b c = refl
  then_calls_assoc (xs, ok u) (ys, err e) c = refl
  then_calls_assoc (xs, ok u) (ys, ok v) (zs, r) = ap (λ ws. (ws, r)) (append_assoc xs ys zs)

  in_turn-append : (xs ys : List Plugin) → in_turn (xs ++ ys) ≡ then_calls (in_turn xs) (in_turn ys)
  in_turn-append [] ys = refl
  in_turn-append (x ∷ xs) ys =
      ap (then_calls (x ∷ [], initialize_plugin x)) (in_turn-append xs ys)
      ∙ sym (then_calls_assoc (x ∷ [], initialize_plugin x) (in_turn xs) (in_turn ys))

  in_turn-own :
      (i : Option Plugin) → initialize_instance initialize_plugin i ≡ in_turn (own_instance i)
  in_turn-own none = refl
  in_turn-own (some p) = ground arith

module _ {Plugin Process : Type 0} (initialize_plugin : Plugin → Result (Unit {0})) where
  mutual
    unfolding initialize initialize_slots initialize_all

    initialize-in_turn :
        (c : ComponentContext Plugin Process)
        → initialize initialize_plugin c ≡ in_turn initialize_plugin (instances c)
    initialize-in_turn (context o s) =
        ap (λ x. then_calls x (initialize_instance initialize_plugin o.instance_))
          (initialize_slots-order s)
        ∙ ap (then_calls (in_turn initialize_plugin (slot_instances s)))
            (in_turn-own initialize_plugin o.instance_)
        ∙ sym (in_turn-append initialize_plugin (slot_instances s) (own_instance o.instance_))

    initialize_slots-order :
        (s : Slots Plugin Process)
        → initialize_slots initialize_plugin s ≡ in_turn initialize_plugin (slot_instances s)
    initialize_slots-order no_slots = refl
    initialize_slots-order (slot name cs rest) =
        rw (initialize_all-order cs, initialize_slots-order rest)
          (sym (in_turn-append initialize_plugin (all_instances cs) (slot_instances rest)))

    initialize_all-order :
        (cs : Contexts Plugin Process)
        → initialize_all initialize_plugin cs ≡ in_turn initialize_plugin (all_instances cs)
    initialize_all-order no_contexts = refl
    initialize_all-order (one c cs) =
        rw (initialize-in_turn c, initialize_all-order cs)
          (sym (in_turn-append initialize_plugin (instances c) (all_instances cs)))

  -- initialize calls each instance of the tree once, every subcomponent before its parent, the slots
  -- in the order of their names and the components of a slot in their order; the first exception
  -- ends it, and no later instance is called.
  pub initialize-order :
      (c : ComponentContext Plugin Process)
      → initialize initialize_plugin c ≡ in_turn initialize_plugin (instances c)
  initialize-order c = initialize-in_turn c
