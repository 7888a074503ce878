-- ===== src/Params/Struct.antt =====
-- The conversion of reflectable structs, of include/rpp_cpp/parameter_description.hpp, and the
-- macros of include/rpp_cpp/rpp_param_struct_headers.hpp that declare such structs.
pub mod Laws
pub mod Macros
use rpp_cpp.Base.{String, ◌<>◌, List, [], ◌∷◌, none, some}
use rpp_cpp.Base.Result.{Result, ok, err, runtime_error, bad_variant_access, or_throw, ◌>>=◌}
use rpp_cpp.Base.Dict.{Dict, find, insert}
use rpp_cpp.Params.Value.{ParameterValue, object, entries, object_of}
use rpp_cpp.Params.Convert.{ParameterConverter}

-- One RPP_MEMBER: what the visitor of `reflect` gets, with the converter of the member's type.
pub record Member (T : Type 0) : Type 1 where
  pub name : String
  pub Field : Type 0
  pub converter : ParameterConverter Field
  pub get : T → Field
  pub put : Field → T → T

-- A struct that RPP_PARAM_STRUCT declares: its name, its default value and its members.
pub record Reflected (T : Type 0) : Type 1 where
  pub struct_name : String
  pub default_value : T
  pub members : List (Member T)

abbrev pub not_found : String → String → String
not_found name struct_name =
    "Field '" <> name <> "' not found in parameter object for struct '" <> struct_name <> "'."

module _ {T : Type 0} where
  struct_to : T → List (Member T) → Dict ParameterValue → Dict ParameterValue
  struct_to copy [] stored = stored
  struct_to copy (m ∷ ms) stored =
      struct_to copy ms (insert m.name (m.converter.to (m.get copy)) stored)

  unfoldable pub struct_from : String → Dict ParameterValue → List (Member T) → T → Result T
  struct_from struct_name stored [] result = ok result
  struct_from struct_name stored (m ∷ ms) result = do
    v ← or_throw (find m.name stored) (runtime_error (not_found m.name struct_name))
    x ← m.converter.from v
    struct_from struct_name stored ms (m.put x result)

  struct_value : Reflected T → ParameterValue → Result T
  unfolding struct_from
  struct_value r (object o) = struct_from r.struct_name (entries o) r.members r.default_value
  struct_value r _ = err bad_variant_access

  unfoldable pub struct : Reflected T → ParameterConverter T
  unfolding struct_to struct_value
  struct r = record {
    to = λ x. object (object_of (struct_to x r.members []));
    from = struct_value r;
  }
