-- ===== src/Params/Value.antt =====
-- `ParameterValue` of include/rpp_cpp/parameter_description.hpp. A std::variant is a data type, an
-- int64_t an integer, and a double its 64-bit pattern. The nested vector and map are types of the
-- block, which `items` and `entries` read as lists.
use rpp_cpp.Base.{ℕ, ◌≡◌, refl, ap, Bool, String, List, [], ◌∷◌}
use rpp_cpp.Base.Dict.{Dict}
use rpp_cpp.Base.Int.{ℤ}

mutual
  pub data ParameterValue : Type 0 where
    null : ParameterValue
    boolean : Bool → ParameterValue
    int : ℤ → ParameterValue
    double : ℕ → ParameterValue
    str : String → ParameterValue
    array : Array → ParameterValue
    object : Object → ParameterValue

  pub data Array : Type 0 where
    nil : Array
    cons : ParameterValue → Array → Array

  pub data Object : Type 0 where
    end : Object
    field : String → ParameterValue → Object → Object

unfoldable pub items : Array → List ParameterValue
items nil = []
items (cons v a) = v ∷ items a

unfoldable pub array_of : List ParameterValue → Array
array_of [] = nil
array_of (v ∷ vs) = cons v (array_of vs)

unfoldable pub entries : Object → Dict ParameterValue
entries end = []
entries (field k v o) = (k, v) ∷ entries o

unfoldable pub object_of : Dict ParameterValue → Object
object_of [] = end
object_of ((k, v) ∷ m) = field k v (object_of m)

pub items-array_of : (vs : List ParameterValue) → items (array_of vs) ≡ vs
unfolding items array_of
items-array_of [] = refl
items-array_of (v ∷ vs) = ap (◌∷◌ v) (items-array_of vs)

pub entries-object_of : (m : Dict ParameterValue) → entries (object_of m) ≡ m
unfolding entries object_of
entries-object_of [] = refl
entries-object_of ((k, v) ∷ m) = ap (◌∷◌ (k, v)) (entries-object_of m)
