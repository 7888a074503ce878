-- ===== src/Json.antt =====
-- nlohmann::json, as far as the code uses it. The library is a parameter: a document is an abstract
-- value, and `none` stands for its type_error exception.
pub mod Laws
use rpp_cpp.Base.{
  ℕ, ◌<◌, ◌≡◌, Bool, true, false, String, List, [], ◌∷◌, Option, none, some, All, if◌then◌else◌,
  not, ◌&&◌,
}
use rpp_cpp.Base.Result.{Result, ok, err, type_error, or_throw, ◌>>=◌}
use rpp_cpp.Base.Dict.{Dict, insert}
use rpp_cpp.Base.Int.{ℤ}

pub record Json : Type 1 where
  pub Value : Type 0
  -- json::parse(file, nullptr, false): a text that is no document gives a discarded value.
  pub parse : String → Value
  pub contains : Value → String → Bool
  -- j[key] on a constant document that contains the key
  pub at : Value → String → Value
  pub is_null : Value → Bool
  pub is_object : Value → Bool
  pub is_array : Value → Bool
  pub items : Value → List (String × Value)
  pub elements : Value → List Value
  pub get_string : Value → Option String
  -- value(key, default), at the type of the default; for an integer the number as it stands there, a
  -- fraction dropped, before it is converted to the default's type
  pub value_string : Value → String → String → Option String
  pub value_int : Value → String → ℤ → Option ℤ
  pub value_double : Value → String → ℕ → Option ℕ
  pub value_bool : Value → String → Bool → Option Bool

-- What the library documents, where a theorem needs it: a document is a finite tree.
pub record IsLawful (js : Json) (depth : js.Value → ℕ) : Type 0 where
  pub depth-at :
      (v : js.Value) (key : String) → js.contains v key ≡ true → depth (js.at v key) < depth v
  pub depth-elements : (v : js.Value) → All (λ x. depth x < depth v) (js.elements v)
  pub depth-items : (v : js.Value) → All (λ e. depth e.1 < depth v) (js.items v)

abbrev pub thrown {ℓ} : {A : Type ℓ} → Option A → Result A
thrown o = or_throw o (type_error "json")

module _ (js : Json) where
  open js use {Value}

  -- `if (j.contains(key) && j[key].is_object())`, with the object
  abbrev pub object_at : Value → String → Option Value
  object_at j key =
      if js.contains j key && js.is_object (js.at j key) then some (js.at j key) else none

  -- get_safe_string_from_json of src/data_model.cpp
  unfoldable pub get_safe_string_from_json : Value → String → String → Result String
  get_safe_string_from_json j key default_val =
      if js.contains j key && not (js.is_null (js.at j key))
      then thrown (js.get_string (js.at j key))
      else ok default_val

module _ {V W : Type 0} where
  -- `for (auto& [key, value] : items) map[key] = f(value);`
  abbrev pub insert_each : (V → Result W) → List (String × V) → Dict W → Result (Dict W)
  insert_each f [] map = ok map
  insert_each f ((k, v) ∷ items) map = do w ← f v; insert_each f items (insert k w map)

  -- The same over an object that may be missing.
  abbrev pub insert_each_of : (V → Result W) → Option (List (String × V)) → Result (Dict W)
  insert_each_of f none = ok []
  insert_each_of f (some items) = insert_each f items []
