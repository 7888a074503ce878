-- ===== src/Params/Python/Laws.antt =====
-- Reading parameters from Python ends, and leaves private attributes out.
use rpp_cpp.Base.{
  ℕ, zero, suc, ◌<◌, ◌≡◌, ◌≢◌, refl, ◌∙◌, true, Bool-cases, Option-cases, inl, inr, String, List,
  [], ◌∷◌, none, some, All, arith, All-below, eq_iff,
}
use rpp_cpp.Base.Result.{
  traverse-ends, Result, ok, err, out_of_fuel, or_throw, Result-cases, >>=-eq-ok,
}
use rpp_cpp.Base.Dict.{Dict, find, insert, find-insert}
use text.Mathlib.Text.{starts_with}
use rpp_cpp.Params.Value.{ParameterValue}
use rpp_cpp.Params.Python.{
  Python, get_python_object_as_dict, parse_items, parse_parameter_from_python,
  load_parameters_from_python_module,
}

module _ (py : Python) where
  open py use {Handle}

  parse_items-private :
      (name : String) (parse : Handle → Result ParameterValue) (items : List (Handle × Handle))
      (map result : Dict ParameterValue)
      → starts_with name "__" ≡ true
      → parse_items py parse items map ≡ ok result
      → find name result ≡ find name map
  unfolding parse_items
  parse_items-private name parse [] map result h e = cc
  parse_items-private name parse ((k, v) ∷ items) map result h e =
      let (key, p, e') = >>=-eq-ok (or_throw (py.cast_string k) _) _ e in
      elim (Bool-cases (starts_with key "__")) [
        | inl s ↦ parse_items-private name parse items map result h (rw s at e')
        | inr s ↦
            let (x, q, e'') = >>=-eq-ok (parse v) _ (rw s at e') in
            parse_items-private name parse items (insert key x map) result h e''
            ∙ ground (arith, find-insert name key x map, eq_iff key name)
      ]

  -- No object contains itself: a number falls from a list to its elements and from an object to the
  -- values of the dict that it is read through.
  pub record IsAcyclic (depth : Handle → ℕ) : Type 0 where
    pub element : (v : Handle) → All (λ x. depth x < depth v) (py.elements v)
    pub attribute :
        (v d : Handle)
        → get_python_object_as_dict py v ≡ ok d
        → All (λ e. depth e.1 < depth v) (py.dict_items d)

  module _ (parse : Handle → Result ParameterValue) where
    parse_items-ends :
        (items : List (Handle × Handle)) (map : Dict ParameterValue)
        → All (λ e. parse e.1 ≢ err out_of_fuel) items
        → parse_items py parse items map ≢ err out_of_fuel
    unfolding parse_items
    parse_items-ends [] map h e = cc
    parse_items-ends ((k, v) ∷ items) map (h, hs) e =
        grind (arith, λ (m : Dict ParameterValue). parse_items-ends items m hs)

  as_dict-ends : (v : Handle) → get_python_object_as_dict py v ≢ err out_of_fuel
  unfolding get_python_object_as_dict
  as_dict-ends v = ground arith

  module _ (depth : Handle → ℕ) (acyclic : IsAcyclic depth) where
    -- Reading an object whose depth is below the fuel never runs out of it.
    pub parse-ends :
        (n : ℕ) (v : Handle) → depth v < n → parse_parameter_from_python py n v ≢ err out_of_fuel
    unfolding parse_parameter_from_python
    parse-ends zero v h = elim h [ ]
    parse-ends (suc n) v h =
        let vec-ends = traverse-ends (parse_parameter_from_python py n) (py.elements v) (
          All-below depth _ n (depth v) (parse-ends n) (omega arith) (py.elements v)
            (acyclic.element v)) in
        let map-ends = λ (d : Handle) (e : get_python_object_as_dict py v ≡ ok d).
          parse_items-ends (parse_parameter_from_python py n) (py.dict_items d) [] (
            All-below (λ e. depth e.1) _ n (depth v) (λ e. parse-ends n e.1) (omega arith)
              (py.dict_items d) (acyclic.attribute v d e)) in
        elim (Result-cases (get_python_object_as_dict py v)) [
          | inl (d, e) ↦ ground (arith, vec-ends, map-ends d e)
          | inr (x, e) ↦ ground (arith, vec-ends, as_dict-ends v)
        ]

    -- Loading the parameters of a component ends, given fuel above the depth of the class's objects.
    pub load-ends :
        (n : ℕ) (module_ : Handle)
        → ((c d : Handle)
            → py.attribute module_ "ComponentParameters" ≡ some c
            → get_python_object_as_dict py c ≡ ok d
            → All (λ e. depth e.1 < n) (py.dict_items d))
        → load_parameters_from_python_module py n module_ ≢ err out_of_fuel
    unfolding load_parameters_from_python_module
    load-ends n module_ h = elim (Option-cases (py.attribute module_ "ComponentParameters")) [
      | inl e ↦ ground arith
      | inr (c, e) ↦ elim (Result-cases (get_python_object_as_dict py c)) [
        | inl (d, e') ↦ ground (
          arith,
          parse_items-ends (parse_parameter_from_python py n) (py.dict_items d) [] (
              All-below (λ e. depth e.1) _ n n (λ e. parse-ends n e.1) (omega arith)
                (py.dict_items d) (h c d e e')),
        )
        | inr (x, e') ↦ ground (arith, as_dict-ends c)
      ]
    ]

  -- No loaded parameter has a name that begins with two underscores.
  pub load-private :
      (n : ℕ) (module_ : Handle) (name : String) (result : Dict ParameterValue)
      → starts_with name "__" ≡ true
      → load_parameters_from_python_module py n module_ ≡ ok result
      → find name result ≡ none
  unfolding load_parameters_from_python_module
  load-private n module_ name result private h =
      let (c, p, h') = >>=-eq-ok (or_throw (py.attribute module_ "ComponentParameters") _) _ h in
      let (d, q, h'') = >>=-eq-ok (get_python_object_as_dict py c) _ h' in
      parse_items-private name (parse_parameter_from_python py n) (py.dict_items d) [] result
        private h''
      ∙ unfold find in refl
