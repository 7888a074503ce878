-- ===== src/Tests/Python.antt =====
-- Python parameters. A handle is a value; an object with the key "__dict__" stands for a class.
use rpp_cpp.Base.{
  ℕ, ◌<◌, ◌≡◌, ◌≢◌, Bool, true, false, String, List, [], ◌∷◌, Option, none, some, All, arith,
}
use rpp_cpp.Base.Result.{ok, err, out_of_fuel}
use rpp_cpp.Base.Dict.{Dict, find}
use mathlib.Core.Path.{subst}
use rpp_cpp.Base.Int.{ℤ, pos}
use rpp_cpp.Params.Value.{
  ParameterValue, null, boolean, int, double, str, array, object, end, field, entries,
}
use rpp_cpp.Params.Python.{Python, get_python_object_as_dict, load_parameters_from_python_module}
use rpp_cpp.Params.Python.Laws.{IsAcyclic, load-ends}
use rpp_cpp.Python.{Interpreter, Importer}
use rpp_cpp.Files.{Filesystem}
use rpp_cpp.Tests.Fixtures.{
  size, fields, listed, string_of, double_of, bool_of, is_object_value, is_array_value,
  listed-below, fields-below, disk,
}

abbrev is_bool_value : ParameterValue → Bool
is_bool_value (boolean b) = true
is_bool_value v = false

abbrev is_int_value : ParameterValue → Bool
is_int_value (int i) = true
is_int_value v = false

abbrev is_float_value : ParameterValue → Bool
is_float_value (double d) = true
is_float_value v = false

abbrev is_str_value : ParameterValue → Bool
is_str_value (str s) = true
is_str_value v = false

abbrev cast_int : ParameterValue → Option ℤ
cast_int (int i) = some i
cast_int v = none

abbrev named : Dict ParameterValue → List (ParameterValue × ParameterValue)
named [] = []
named ((k, v) ∷ m) = (str k, v) ∷ named m

-- No value but a dict has attributes here; a module's are its fields.
abbrev values : Python
values = record {
  Handle = ParameterValue;
  is_dict = is_object_value;
  is_bool = is_bool_value;
  is_int = is_int_value;
  is_float = is_float_value;
  is_str = is_str_value;
  is_list = is_array_value;
  cast_bool = bool_of;
  cast_int64 = cast_int;
  cast_double = double_of;
  cast_string = string_of;
  elements = listed;
  dict_items = λ v. named (fields v);
  attribute = λ v k. find k (fields v);
  asdict = λ v. none;
}

abbrev parameters_module : ParameterValue
parameters_module = object (
    field "ComponentParameters"
      (object (field "__module__" (str "params") (field "rate" (int (pos 5)) end))) end)

named-below :
    (m : Dict ParameterValue) (n : ℕ)
    → All (λ (e : String × ParameterValue). size e.1 < n) m
    → All (λ (e : ParameterValue × ParameterValue). size e.1 < n) (named m)
named-below [] n h = tt
named-below ((k, v) ∷ m) n (h, hs) = (h, named-below m n hs)

as_dict-below :
    (v d : ParameterValue)
    → get_python_object_as_dict values v ≡ ok d
    → All (λ (e : ParameterValue × ParameterValue). size e.1 < size v) (named (fields d))
unfolding get_python_object_as_dict find
as_dict-below (object o) d h =
    let p : object o ≡ d = cc in
    subst
      (λ d.
        All (λ (e : ParameterValue × ParameterValue). size e.1 < size (object o))
          (named (fields d)))
      p (named-below (entries o) (size (object o)) (fields-below (object o)))
as_dict-below null d h = cc
as_dict-below (boolean b) d h = cc
as_dict-below (int i) d h = cc
as_dict-below (double x) d h = cc
as_dict-below (str s) d h = cc
as_dict-below (array a) d h = cc

values-IsAcyclic : IsAcyclic values size
values-IsAcyclic = record { element = listed-below; attribute = as_dict-below }

parameters_below :
    (c d : ParameterValue)
    → values.attribute parameters_module "ComponentParameters" ≡ some c
    → get_python_object_as_dict values c ≡ ok d
    → All (λ (e : ParameterValue × ParameterValue). size e.1 < 5) (values.dict_items d)
unfolding find entries
parameters_below c d h e =
    let p : object (field "__module__" (str "params") (field "rate" (int (pos 5)) end)) ≡ c = cc in
    All-weaken (fields d) c (subst (λ x. size x < 5) p (omega arith)) (as_dict-below c d e)
  where
    All-weaken :
        (m : Dict ParameterValue) (c : ParameterValue)
        → size c < 5
        → All (λ (e : ParameterValue × ParameterValue). size e.1 < size c) (named m)
        → All (λ (e : ParameterValue × ParameterValue). size e.1 < 5) (named m)
    All-weaken [] c h a = tt
    All-weaken ((k, v) ∷ m) c h (a, rest) = (omega (arith, h, a), All-weaken m c h rest)

load-ends_example : load_parameters_from_python_module values 5 parameters_module ≢ err out_of_fuel
load-ends_example = load-ends values size values-IsAcyclic 5 parameters_module parameters_below

abbrev python_disk : Filesystem
python_disk =
    disk (("/c/params.py", "") ∷ []) [] [] (("/c/params.py", "/c") ∷ [])
      (("/c/params.py", "params") ∷ [])

abbrev importer : Importer (Unit {0})
importer = record { import_module = λ name py. (ok tt, record py { modules = name ∷ py.modules }) }

abbrev interpreter : Interpreter
interpreter = record { path = "/c" ∷ "/lib" ∷ []; modules = []; dont_write_bytecode = false }
