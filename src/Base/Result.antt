-- ===== src/Base/Result.antt =====
-- C++ exceptions as values: a call returns, or throws one of these.
use Prim.Native.String.{String}
use mathlib.Core.Path.{◌≡◌, refl, subst}
use mathlib.Core.Logic.{◌⊎◌, inl, inr, ◌≢◌}
use native.Mathlib.Omega.{arith}
use rpp_cpp.Base.Lists.{All, length}
use rpp_cpp.Base.Tests.{if◌then◌else◌}
use mathlib.Core.Bool.{Bool, true, false}
use mathlib.Core.Option.{Option, none, some}
use mathlib.Core.List.{List, [], ◌∷◌}

-- The classes that the code throws or lets through: `bad_variant_access` comes from std::get,
-- `bad_function_call` from an empty std::function, `type_error` from the JSON library and
-- `python_error` from the Python binding. `out_of_fuel` is the model's own, for a recursion that
-- did not end.
pub data Error : Type 0 where
  runtime_error invalid_argument logic_error type_error python_error : String → Error
  bad_variant_access bad_function_call out_of_range out_of_fuel : Error

pub data Result {ℓ} (A : Type ℓ) : Type ℓ where
  err : Error → Result A
  ok : A → Result A

-- `if (!test) throw e;`
abbrev pub guard : Bool → Error → Result (Unit {0})
guard test e = if test then ok tt else err e

module _ {ℓ κ} {A : Type ℓ} {B : Type κ} where
  infixl 5 ◌>>=◌
  abbrev pub ◌>>=◌ : Result A → (A → Result B) → Result B
  err e >>= next = err e
  ok a >>= next = next a

module _ {ℓ} {B : Type ℓ} where
  infixl 5 ◌>>◌
  abbrev pub ◌>>◌ : Result (Unit {0}) → Result B → Result B
  first >> rest = first >>= λ _. rest

module _ {ℓ} {A : Type ℓ} where
  abbrev pub or_throw : Option A → Error → Result A
  or_throw none e = err e
  or_throw (some a) e = ok a

  pub Result-cases : (r : Result A) → ((a : A) × (r ≡ ok a)) ⊎ ((e : Error) × (r ≡ err e))
  Result-cases (ok a) = inl (a, refl)
  Result-cases (err e) = inr (e, refl)

module _ {ℓ κ} {A : Type ℓ} {B : Type κ} where
  -- `for (x : xs) result.push_back(f(x));`, ended by the first throw.
  abbrev pub traverse : (A → Result B) → List A → Result (List B)
  traverse f [] = ok []
  traverse f (x ∷ xs) = do y ← f x; ys ← traverse f xs; ok (y ∷ ys)

  -- A bind returns only where both of its steps do.
  pub >>=-eq-ok :
      (first : Result A) (next : A → Result B) {result : B}
      → (first >>= next) ≡ ok result
      → (value : A) × (first ≡ ok value) × (next value ≡ ok result)
  >>=-eq-ok (err e) next returns = cc
  >>=-eq-ok (ok value) next returns = (value, refl, returns)

  pub traverse-ends :
      (f : A → Result B) (xs : List A)
      → All (λ x. f x ≢ err out_of_fuel) xs
      → traverse f xs ≢ err out_of_fuel
  traverse-ends f [] h e = cc
  traverse-ends f (x ∷ xs) (h, hs) e = ground (arith, traverse-ends f xs hs)

  pub bind-ends :
      (m : Result A) (f : A → Result B)
      → m ≢ err out_of_fuel
      → ((a : A) → f a ≢ err out_of_fuel)
      → (m >>= f) ≢ err out_of_fuel
  bind-ends (ok a) f h k p = k a p
  bind-ends (err e) f h k p = h (cc)

module _ {ℓ} {A : Type ℓ} where
  pub if-ends :
      (b : Bool) (x y : Result A)
      → x ≢ err out_of_fuel
      → y ≢ err out_of_fuel
      → (if b then x else y) ≢ err out_of_fuel
  if-ends true x y h k = h
  if-ends false x y h k = k

  pub or_throw-ends : (o : Option A) (e : Error) → e ≢ out_of_fuel → or_throw o e ≢ err out_of_fuel
  or_throw-ends none e h p = h (cc)
  or_throw-ends (some a) e h p = cc

  pub or_throw-some : (o : Option A) (e : Error) (a : A) → or_throw o e ≡ ok a → o ≡ some a
  or_throw-some none e a p = cc
  or_throw-some (some b) e a p = cc

  pub ok_inj : {a b : A} → ok a ≡ ok b → a ≡ b
  ok_inj h = cc

  pub ok-ends : (a : A) → ok a ≢ err out_of_fuel
  ok-ends a p = cc

module _ {ℓ κ} {A : Type ℓ} {B : Type κ} where
  pub length-traverse :
      (f : A → Result B) (xs : List A) (ys : List B) → traverse f xs ≡ ok ys → length ys ≡ length xs
  length-traverse f [] ys e = ground (arith, e)
  length-traverse f (x ∷ xs) ys e =
      let (z, p, e1) = >>=-eq-ok (f x) _ e in
      let (zs, q, e2) = >>=-eq-ok (traverse f xs) _ e1 in
      ground (arith, e2, length-traverse f xs zs q)

  pub All-traverse {μ} :
      {P : B → Type μ}
      → (f : A → Result B) → ((x : A) (y : B) → f x ≡ ok y → P y)
      → (xs : List A) (ys : List B) → traverse f xs ≡ ok ys
      → All P ys
  All-traverse {P} f h [] ys e = subst (All P) (ok_inj e) tt
  All-traverse {P} f h (x ∷ xs) ys e =
      let (z, p, e1) = >>=-eq-ok (f x) _ e in
      let (zs, q, e2) = >>=-eq-ok (traverse f xs) _ e1 in
      subst (All P) (ok_inj e2) (h x z p, All-traverse f h xs zs q)
