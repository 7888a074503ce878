-- ===== src/Data/Plugin/Metadata.antt =====
-- The default values in a plugin's metadata.
use rpp_cpp.Base.{
  ℕ, zero, suc, Bool-cases, if◌then◌else◌, ◌&&◌, ◌≤◌, ◌<◌, ◌≡◌, ◌≢◌, true, String, [], Option, none,
  some, ◌==◌, eq_iff, All, All-below, inl, inr, arith,
}
use rpp_cpp.Base.Result.{
  if-ends, bind-ends, ok-ends, Result, ok, err, out_of_fuel, traverse-ends, Result-cases, ◌>>=◌,
  >>=-eq-ok,
}
use rpp_cpp.Base.Int.{wrap}
use rpp_cpp.Json.{Json, IsLawful, thrown}
use rpp_cpp.Json.Laws.{insert_each-ends}
use rpp_cpp.Params.Value.{ParameterValue, null, boolean, int, double, str, array, object}
use rpp_cpp.Data.Plugin.{parse_default, parse_parameter_value}

-- What the metadata calls the kind of a value.
abbrev pub kind_name : ParameterValue → String
kind_name null = "null"
kind_name (boolean b) = "bool"
kind_name (int i) = "int"
kind_name (double d) = "float"
kind_name (str s) = "string"
kind_name (array a) = "array"
kind_name (object o) = "object"

module _ (js : Json) where
  open js use {Value}

  parse_default-kind :
      (parse : Value → Result ParameterValue) (v : Value) (type : String) (p : ParameterValue)
      → parse_default js parse v type ≡ ok p
      → kind_name p ≡ type
  unfolding parse_default
  parse_default-kind parse v type p h = ground (
    arith,
    eq_iff type "int",
    eq_iff type "float",
    eq_iff type "bool",
    eq_iff type "string",
    eq_iff type "array",
    eq_iff type "object",
  )

  -- A default that is read is of the kind that the document's "type" names.
  pub parse_parameter_value-kind :
      (n : ℕ) (v : Value) (p : ParameterValue)
      → parse_parameter_value js n v ≡ ok p
      → js.value_string v "type" "" ≡ some (kind_name p)
  unfolding parse_parameter_value
  parse_parameter_value-kind zero v p h = cc
  parse_parameter_value-kind (suc n) v p h =
      let (type, e, h') = >>=-eq-ok (thrown (js.value_string v "type" "")) _ h in
      let k = parse_default-kind (parse_parameter_value js n) v type p h' in ground arith

  module _ (depth : Value → ℕ) (lawful : IsLawful js depth) where
    scalar-ends :
        {A : Type 0} (o : Option A) (f : A → ParameterValue)
        → (thrown o >>= λ a. ok (f a)) ≢ err out_of_fuel
    scalar-ends none f e = cc
    scalar-ends (some a) f e = cc

    module _ (n : ℕ) (parse : Value → Result ParameterValue)
        (ih : (x : Value) → depth x < n → parse x ≢ err out_of_fuel) (v : Value)
        (h : depth v < suc n) where
      inside : (key : String) → js.contains v key ≡ true → depth (js.at v key) ≤ n
      inside key c = omega (arith, lawful.depth-at v key c)

      elements-end :
          All
            (λ x. parse x ≢ err out_of_fuel)
            (if js.contains v "elements" && js.is_array (js.at v "elements")
              then js.elements (js.at v "elements")
              else [])
      elements-end =
          elim (Bool-cases (js.contains v "elements" && js.is_array (js.at v "elements"))) [
            | inl e ↦ rw e (
                All-below depth _ n (depth (js.at v "elements")) ih
                  (inside "elements" (ground arith)) (js.elements (js.at v "elements"))
                  (lawful.depth-elements (js.at v "elements")))
            | inr e ↦ rw e tt
          ]

      fields-end :
          All
            (λ x. parse x.1 ≢ err out_of_fuel)
            (if js.contains v "fields" && js.is_object (js.at v "fields")
              then js.items (js.at v "fields")
              else [])
      fields-end = elim (Bool-cases (js.contains v "fields" && js.is_object (js.at v "fields"))) [
        | inl e ↦ rw e (
            All-below (λ x. depth x.1) _ n (depth (js.at v "fields")) (λ x. ih x.1)
              (inside "fields" (ground arith)) (js.items (js.at v "fields"))
              (lawful.depth-items (js.at v "fields")))
        | inr e ↦ rw e tt
      ]

      parse_default-ends : (type : String) → parse_default js parse v type ≢ err out_of_fuel
      unfolding parse_default
      parse_default-ends type =
          if-ends (type == "int") _ _ (scalar-ends _ (λ i. int (wrap 2147483648 i))) (
            if-ends (type == "float") _ _ (scalar-ends _ double) (
              if-ends (type == "bool") _ _ (scalar-ends _ boolean) (
                if-ends (type == "string") _ _ (scalar-ends _ str) (
                  if-ends (type == "array") _ _
                    (bind-ends _ _ (traverse-ends parse _ elements-end) (λ a. ok-ends _))
                    (if-ends (type == "object") _ _
                      (bind-ends _ _ (insert_each-ends parse _ [] fields-end) (λ a. ok-ends _))
                      (λ e. cc))))))

    -- Reading a default whose document is less deep than the fuel never runs out of it.
    pub parse_parameter_value-ends :
        (n : ℕ) (v : Value) → depth v < n → parse_parameter_value js n v ≢ err out_of_fuel
    unfolding parse_parameter_value
    parse_parameter_value-ends zero v h = elim h [ ]
    parse_parameter_value-ends (suc n) v h =
        let inner =
          parse_default-ends n (parse_parameter_value js n) (parse_parameter_value-ends n) v h in
        elim (Result-cases (thrown (js.value_string v "type" ""))) [
          | inl (type, e) ↦ rw e (inner type)
          | inr (x, e) ↦ ground arith
        ]
