-- ===== src/Params/Convert.antt =====
-- `ParameterConverter<T>` of include/rpp_cpp/parameter_description.hpp: one value of the record for
-- each specialization. An integer of a width is a ℤ, and the conversions between floating-point
-- types, which the machine gives, are a record of operations on bit patterns.
pub mod Numbers
pub mod Containers
use rpp_cpp.Base.{ℕ, ◌≡◌, Bool, String, List, [], ◌∷◌, map}
use rpp_cpp.Base.Result.{Result, ok, err, Error, runtime_error, bad_variant_access, traverse, ◌>>=◌}
use rpp_cpp.Base.Dict.{Dict, insert}
use rpp_cpp.Base.Int.{ℤ, wrap}
use rpp_cpp.Params.Value.{
  ParameterValue, null, boolean, int, double, str, array, object, items, array_of, entries,
  object_of,
}

pub record ParameterConverter (T : Type 0) : Type 0 where
  pub to : T → ParameterValue
  pub from : ParameterValue → Result T

-- `static_cast` between int64_t, float and double.
pub record FloatCasts : Type 0 where
  pub double_of_int : ℤ → ℕ
  pub float_of_int : ℤ → ℕ
  pub widen : ℕ → ℕ
  pub narrow : ℕ → ℕ

int_from : ℕ → ParameterValue → Result ℤ
int_from half (int i) = ok (wrap half i)
int_from half _ = err (runtime_error "Parameter value is not an int.")

unfoldable pub int8 : ParameterConverter ℤ
unfolding int_from
int8 = record { to = λ i. int i; from = int_from 128 }

unfoldable pub int16 : ParameterConverter ℤ
unfolding int_from
int16 = record { to = λ i. int i; from = int_from 32768 }

unfoldable pub int32 : ParameterConverter ℤ
unfolding int_from
int32 = record { to = λ i. int i; from = int_from 2147483648 }

int64_from : ParameterValue → Result ℤ
int64_from (int i) = ok i
int64_from _ = err (runtime_error "Parameter value is not an int.")

unfoldable pub int64 : ParameterConverter ℤ
unfolding int64_from
int64 = record { to = λ i. int i; from = int64_from }

module _ (casts : FloatCasts) where
  float_from : ParameterValue → Result ℕ
  float_from (int i) = ok (casts.float_of_int i)
  float_from (double d) = ok (casts.narrow d)
  float_from _ = err (runtime_error "Parameter value is not a float.")

  unfoldable pub float32 : ParameterConverter ℕ
  unfolding float_from
  float32 = record { to = λ x. double (casts.widen x); from = float_from }

  double_from : ParameterValue → Result ℕ
  double_from (int i) = ok (casts.double_of_int i)
  double_from (double d) = ok d
  double_from _ = err (runtime_error "Parameter value is not a double.")

  unfoldable pub float64 : ParameterConverter ℕ
  unfolding double_from
  float64 = record { to = λ d. double d; from = double_from }

bool_from : ParameterValue → Result Bool
bool_from (boolean b) = ok b
bool_from _ = err (runtime_error "Parameter value is not a boolean.")

unfoldable pub bool : ParameterConverter Bool
unfolding bool_from
bool = record { to = λ b. boolean b; from = bool_from }

-- std::get throws its own exception here.
string_from : ParameterValue → Result String
string_from (str s) = ok s
string_from _ = err bad_variant_access

unfoldable pub string : ParameterConverter String
unfolding string_from
string = record { to = λ s. str s; from = string_from }

unfoldable pub value : ParameterConverter ParameterValue
value = record { to = λ v. v; from = λ v. ok v }

module _ {T : Type 0} (element : ParameterConverter T) where
  vector_from : ParameterValue → Result (List T)
  vector_from (array a) = traverse element.from (items a)
  vector_from _ = err bad_variant_access

  unfoldable pub vector : ParameterConverter (List T)
  unfolding vector_from
  vector = record { to = λ xs. array (array_of (map element.to xs)); from = vector_from }

  map_to : Dict ParameterValue → Dict T → Dict ParameterValue
  map_to result [] = result
  map_to result ((k, x) ∷ m) = map_to (insert k (element.to x) result) m

  map_from : Dict T → Dict ParameterValue → Result (Dict T)
  map_from result [] = ok result
  map_from result ((k, v) ∷ m) = do x ← element.from v; map_from (insert k x result) m

  dictionary_from : ParameterValue → Result (Dict T)
  unfolding map_from
  dictionary_from (object o) = map_from [] (entries o)
  dictionary_from _ = err bad_variant_access

  unfoldable pub dictionary : ParameterConverter (Dict T)
  unfolding map_to dictionary_from
  dictionary = record { to = λ m. object (object_of (map_to [] m)); from = dictionary_from }

-- What is converted to a value comes back from it.
abbrev pub RoundTrips : {T : Type 0} → ParameterConverter T → T → Type 0
RoundTrips c x = c.from (c.to x) ≡ ok x
