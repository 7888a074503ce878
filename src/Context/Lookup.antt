-- ===== src/Context/Lookup.antt =====
-- Looking up the subcomponents of a context.
use rpp_cpp.Base.{
  ◌≡◌, refl, String, ◌<>◌, ◌⊎◌, inl, inr, true, false, List, [], ◌∷◌, none, some, Option-cases,
  arith,
}
use rpp_cpp.Base.Result.{Result, ok, err, runtime_error, traverse}
use rpp_cpp.Base.Dict.{Dict, find, contains}
use rpp_cpp.Context.{
  ComponentContext, subcomponents, get_instance, get_component, get_components,
  get_subcomponent_context, get_subcomponent_contexts,
}

contains-find :
    {V : Type 0} (name : String) (m : Dict V) (v : V)
    → find name m ≡ some v
    → contains name m ≡ true
unfolding find contains
contains-find name [] v e = ground (arith, e)
contains-find name ((k, w) ∷ m) v e = ground (arith, e, contains-find name m v)

find-contains :
    {V : Type 0} (name : String) (m : Dict V) → find name m ≡ none → contains name m ≡ false
unfolding find contains
find-contains name [] e = refl
find-contains name ((k, w) ∷ m) e = ground (arith, e, find-contains name m)

module _ {Plugin Process : Type 0} (ctx : ComponentContext Plugin Process) (name : String) where
  abbrev pub no_subcomponent : {A : Type 0} → Result A
  no_subcomponent = err (runtime_error ("Subcomponent '" <> name <> "' not found."))

  abbrev pub empty_slot : {A : Type 0} → Result A
  empty_slot = err (runtime_error ("Subcomponent slot '" <> name <> "' is empty."))

  -- What the four lookups answer for the contexts of a slot.
  abbrev pub Answers : List (ComponentContext Plugin Process) → Type 0
  Answers [] =
      (get_subcomponent_contexts ctx name ≡ ok [])
      × (get_components ctx name ≡ ok [])
      × (get_subcomponent_context ctx name ≡ empty_slot)
      × (get_component ctx name ≡ empty_slot)
  Answers (c ∷ cs) =
      (get_subcomponent_contexts ctx name ≡ ok (c ∷ cs))
      × (get_components ctx name ≡ traverse get_instance (c ∷ cs))
      × (get_subcomponent_context ctx name ≡ ok c)
      × (get_component ctx name ≡ get_instance c)

  -- A slot that the context has is answered alike by the four lookups: all of its contexts, all of
  -- their instances, the first context and the first instance; an empty slot is refused where one
  -- component is asked for. Of a slot that it lacks, all four say that it is not found.
  pub lookups_agree :
      ((cs : List (ComponentContext Plugin Process)) × (find name (subcomponents ctx) ≡ some cs)
        × Answers cs)
      ⊎ ((find name (subcomponents ctx) ≡ none)
          × (get_subcomponent_contexts ctx name ≡ no_subcomponent)
          × (get_components ctx name ≡ no_subcomponent)
          × (get_subcomponent_context ctx name ≡ no_subcomponent)
          × (get_component ctx name ≡ no_subcomponent))
  unfolding get_subcomponent_contexts get_components get_subcomponent_context get_component
  lookups_agree = elim (Option-cases (find name (subcomponents ctx))) [
    | inl e ↦
        let f = find-contains name (subcomponents ctx) e in
        inr (e, rw f refl, rw f refl, rw f refl, rw f refl)
    | inr (cs, e) ↦ inl (cs, e, answers cs e)
  ]
    where
      answers :
          (cs : List (ComponentContext Plugin Process))
          → find name (subcomponents ctx) ≡ some cs
          → Answers cs
      answers [] e = rw (e, contains-find name (subcomponents ctx) [] e) (refl, refl, refl, refl)
      answers (c ∷ cs) e =
          rw (e, contains-find name (subcomponents ctx) (c ∷ cs) e) (refl, refl, refl, refl)
