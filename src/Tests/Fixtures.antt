-- ===== src/Tests/Fixtures.antt =====
-- A JSON library over the parameter values, and a small disk.
use rpp_cpp.Base.{
  ℕ, suc, ◌+◌, ◌≤◌, ◌<◌, ◌≡◌, Bool, true, false, String, ◌<>◌, ◌||◌, List, [], ◌∷◌, Option, none,
  some, All, arith,
}
use rpp_cpp.Base.Dict.{Dict, find, contains}
use rpp_cpp.Base.Int.{ℤ}
use rpp_cpp.Params.Value.{
  ParameterValue, null, boolean, int, double, str, array, object, Array, nil, cons, Object, end,
  field, items, entries,
}
use rpp_cpp.Params.Store.{no_parameters}
use rpp_cpp.Logger.{logger, default_options}
use rpp_cpp.Clock.{real_time}
use rpp_cpp.Context.{Own}
use rpp_cpp.Json.{Json, IsLawful}
use rpp_cpp.Files.{Filesystem, Entry}
use rpp_cpp.Python.{member}

-- A context's own part with nothing set but its process and its instance.
abbrev pub bare : {Plugin Process : Type 0} → Option Process → Option Plugin → Own Plugin Process
bare process i = record {
  parameters = no_parameters;
  external_component_process = process;
  instance_ = i;
  logger = logger default_options;
  clock = real_time;
}

abbrev mutual
  pub size : ParameterValue → ℕ
  size (array a) = suc (array_size a)
  size (object o) = suc (object_size o)
  size null = 0
  size (boolean b) = 0
  size (int i) = 0
  size (double d) = 0
  size (str s) = 0

  pub array_size : Array → ℕ
  array_size nil = 0
  array_size (cons v a) = suc (size v + array_size a)

  pub object_size : Object → ℕ
  object_size end = 0
  object_size (field k v o) = suc (size v + object_size o)

abbrev pub fields : ParameterValue → Dict ParameterValue
fields (object o) = entries o
fields v = []

abbrev pub listed : ParameterValue → List ParameterValue
listed (array a) = items a
listed v = []

abbrev pub value_or_null : Option ParameterValue → ParameterValue
value_or_null none = null
value_or_null (some v) = v

abbrev pub string_of : ParameterValue → Option String
string_of (str s) = some s
string_of v = none

abbrev pub int_of : ParameterValue → Option ℤ
int_of (int i) = some i
int_of v = none

abbrev pub double_of : ParameterValue → Option ℕ
double_of (double d) = some d
double_of v = none

abbrev pub bool_of : ParameterValue → Option Bool
bool_of (boolean b) = some b
bool_of v = none

abbrev pub is_object_value : ParameterValue → Bool
is_object_value (object o) = true
is_object_value v = false

abbrev pub is_array_value : ParameterValue → Bool
is_array_value (array a) = true
is_array_value v = false

abbrev pub is_null_value : ParameterValue → Bool
is_null_value null = true
is_null_value v = false

abbrev pub read_or :
    {A : Type 0} → Option ParameterValue → (ParameterValue → Option A) → A → Option A
read_or none f d = some d
read_or (some v) f d = f v

-- The library over the documents; `parse` knows the texts of a table.
abbrev pub documents : Dict ParameterValue → Json
documents texts = record {
  Value = ParameterValue;
  parse = λ s. value_or_null (find s texts);
  contains = λ v k. contains k (fields v);
  at = λ v k. value_or_null (find k (fields v));
  is_null = is_null_value;
  is_object = is_object_value;
  is_array = is_array_value;
  items = fields;
  elements = listed;
  get_string = string_of;
  value_string = λ v k d. read_or (find k (fields v)) string_of d;
  value_int = λ v k d. read_or (find k (fields v)) int_of d;
  value_double = λ v k d. read_or (find k (fields v)) double_of d;
  value_bool = λ v k d. read_or (find k (fields v)) bool_of d;
}

items-below : (a : Array) (n : ℕ) → array_size a ≤ n → All (λ x. size x < suc n) (items a)
unfolding items
items-below nil n h = tt
items-below (cons v a) n h = (omega (arith, h), items-below a n (omega (arith, h)))

entries-below : (o : Object) (n : ℕ) → object_size o ≤ n → All (λ e. size e.1 < suc n) (entries o)
unfolding entries
entries-below end n h = tt
entries-below (field k v o) n h = (omega (arith, h), entries-below o n (omega (arith, h)))

pub listed-below : (v : ParameterValue) → All (λ x. size x < size v) (listed v)
listed-below (array a) = items-below a (array_size a) (omega arith)
listed-below null = tt
listed-below (boolean b) = tt
listed-below (int i) = tt
listed-below (double d) = tt
listed-below (str s) = tt
listed-below (object o) = tt

pub fields-below : (v : ParameterValue) → All (λ e. size e.1 < size v) (fields v)
fields-below (object o) = entries-below o (object_size o) (omega arith)
fields-below null = tt
fields-below (boolean b) = tt
fields-below (int i) = tt
fields-below (double d) = tt
fields-below (str s) = tt
fields-below (array a) = tt

found-below :
    (k : String) (m : Dict ParameterValue) (n : ℕ)
    → All (λ e. size e.1 < n) m
    → contains k m ≡ true
    → size (value_or_null (find k m)) < n
unfolding find contains
found-below k [] n h c = ground (arith, c)
found-below k ((j, v) ∷ m) n (h, hs) c = ground (arith, h, c, found-below k m n hs)

pub documents-IsLawful : (texts : Dict ParameterValue) → IsLawful (documents texts) size
documents-IsLawful texts = record {
  depth-at = λ v key c. found-below key (fields v) (size v) (fields-below v) c;
  depth-elements = listed-below;
  depth-items = fields-below;
}

abbrev pub text_or : String → Option String → String
text_or d none = d
text_or d (some s) = s

abbrev pub entries_or_none : Option (List Entry) → List Entry
entries_or_none none = []
entries_or_none (some es) = es

-- A disk with files, directories and the entries of directories; the parents and the stems of paths
-- are tables.
abbrev pub disk :
    Dict String → List String → Dict (List Entry) → Dict String → Dict String → Filesystem
disk files directories listings parents stems = record {
  exists = λ p. contains p files || member p directories;
  is_directory = λ p. member p directories;
  entries = λ p. entries_or_none (find p listings);
  read = λ p. find p files;
  parent_path = λ p. text_or "" (find p parents);
  filename = λ p. p;
  stem = λ p. text_or p (find p stems);
  extension = λ p. ".json";
  absolute = λ p. p;
  join = λ a b. a <> "/" <> b;
}
