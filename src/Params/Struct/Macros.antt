-- ===== src/Params/Struct/Macros.antt =====
-- RPP_DETAIL_FOR_EACH_ of include/rpp_cpp/rpp_param_struct_headers.hpp. A macro call is a value:
-- which macro, and the arguments that it is given.
use rpp_cpp.Base.{
  ℕ, inl, inr, ◌⊎◌, nat_eq, if◌then◌else◌, ◌≤◌, ◌<◌, ◌≡◌, refl, List, [], ◌∷◌, ◌++◌, map, Option,
  none, some, length, get_elem?, arith,
}

-- The token that RPP_DETAIL_GET_FE_ yields: one of its own RPP_DETAIL_FE_n_, or an argument of the
-- caller that has moved into the ninth place.
pub data Token (A : Type 0) : Type 0 where
  fe : ℕ → Token A
  argument : A → Token A

-- What the call expands to: the bodies one after the other, a call of a field as if it named a
-- macro, or an error of the preprocessor.
pub data Expansion (A B : Type 0) : Type 0 where
  bodies : List B → Expansion A B
  call_of : A → Expansion A B
  wrong_arguments : Expansion A B

abbrev fe_names : {A : Type 0} → List (Token A)
fe_names = fe 8 ∷ fe 7 ∷ fe 6 ∷ fe 5 ∷ fe 4 ∷ fe 3 ∷ fe 2 ∷ fe 1 ∷ []

-- RPP_DETAIL_GET_FE_(_1, ..., _8, NAME, ...): the ninth of its arguments.
get_fe : {A : Type 0} → List A → Option (Token A)
get_fe fields = get_elem? (map argument fields ++ fe_names) 8

module _ {A B : Type 0} where
  -- RPP_DETAIL_FE_n_(M, ...) takes n arguments and applies M to each.
  expand : (A → B) → List A → Option (Token A) → Expansion A B
  expand m fields none = wrong_arguments
  expand m fields (some (argument a)) = call_of a
  expand m fields (some (fe n)) =
      if nat_eq (length fields) n then bodies (map m fields) else wrong_arguments

  -- At least one field is given.
  pub for_each : (A → B) → A → List A → Expansion A B
  unfolding get_fe expand
  for_each m first rest = expand m (first ∷ rest) (get_fe (first ∷ rest))

  -- Up to eight members the macro expands to its body for each of them, in order. From nine members
  -- on it calls the ninth as if that were a macro, whatever the others are.
  pub for_each_exact :
      (m : A → B) (first : A) (rest : List A)
      → ((length rest < 8) × (for_each m first rest ≡ bodies (map m (first ∷ rest))))
        ⊎ ((8 ≤ length rest)
            × (a : A) × (get_elem? rest 7 ≡ some a)
            × (for_each m first rest ≡ call_of a))
  unfolding for_each
  for_each_exact m a [] = inl (omega arith, refl)
  for_each_exact m a (b ∷ []) = inl (omega arith, refl)
  for_each_exact m a (b ∷ c ∷ []) = inl (omega arith, refl)
  for_each_exact m a (b ∷ c ∷ d ∷ []) = inl (omega arith, refl)
  for_each_exact m a (b ∷ c ∷ d ∷ e ∷ []) = inl (omega arith, refl)
  for_each_exact m a (b ∷ c ∷ d ∷ e ∷ f ∷ []) = inl (omega arith, refl)
  for_each_exact m a (b ∷ c ∷ d ∷ e ∷ f ∷ g ∷ []) = inl (omega arith, refl)
  for_each_exact m a (b ∷ c ∷ d ∷ e ∷ f ∷ g ∷ h ∷ []) = inl (omega arith, refl)
  for_each_exact m a (b ∷ c ∷ d ∷ e ∷ f ∷ g ∷ h ∷ i ∷ rest) = inr (omega arith, i, refl, refl)
