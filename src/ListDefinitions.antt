-- ===== src/ListDefinitions.antt =====
-- include/rpp_cpp/list_definitions.hpp: the lists and byte arrays that components exchange, which are
-- builders into messages of the RPC library. The messages are a parameter: a memory, and builders
-- that point into it, so that two holders of one builder see each other's writes. The three classes
-- keep the same state; each has its own init, and texts are read as C
-- strings. Wrappers for elements that are structs are not modelled.
pub mod Allocated
pub mod Simulated
pub mod Texts
pub mod Refined
pub mod Sequence
use Prim.Native.Char.{code}
use Prim.Native.String
use rpp_cpp.Base.{
  String, if◌then◌else◌, ℕ, zero, suc, Bool, true, false, List, [], ◌∷◌, Option, none, some, nat_eq,
}
use rpp_cpp.Base.Result.{Result, ok, err, bad_function_call, out_of_range, ◌>>=◌}

-- What the library does with messages whose elements are of type T.
pub record Messages (T : Type 0) : Type 1 where
  pub Memory : Type 0
  pub Message : Type 0
  pub Builder : Type 0
  pub size : Memory → Builder → ℕ
  pub get : Memory → Builder → ℕ → T
  pub set : Memory → Builder → ℕ → T → Memory
  -- message.initRoot<…>(n)
  pub init_root : Message → Memory → ℕ → Builder × Memory

-- std::string(p): what stands before the first null character.
unfoldable pub from_c_str : String → String
from_c_str String.[] = String.[]
from_c_str (String.◌∷◌ c s) =
    let rest = from_c_str s in if nat_eq (code c) 0 then String.[] else String.◌∷◌ c rest

module _ {T : Type 0} (lib : Messages T) where
  -- What allocates for a list: a message of its own, which is `none` once the list was moved from, or
  -- the parent's callback, which is `none` for an empty std::function.
  pub data Allocator : Type 0 where
    own_message : Option lib.Message → Allocator
    callback : Option (lib.Memory → ℕ → lib.Builder × lib.Memory) → Allocator

  -- A builder of `none` is a default-constructed one.
  pub record Buffer : Type 0 where
    pub builder : Option lib.Builder
    pub allocator : Allocator

  -- List<T>(), with the message that it makes; List<T>(builder, cb)
  unfoldable pub list_new : lib.Message → Buffer
  list_new message = record { builder = none; allocator = own_message (some message) }

  unfoldable pub list_nested :
      lib.Builder → Option (lib.Memory → ℕ → lib.Builder × lib.Memory) → Buffer
  list_nested builder cb = record { builder = some builder; allocator = callback cb }

  -- List<std::string>(), whose callback is empty
  unfoldable pub text_list_new : Buffer
  text_list_new = record { builder = none; allocator = callback none }

  -- List<std::string>(builder, message)
  unfoldable pub text_list_in : lib.Builder → lib.Message → Buffer
  text_list_in builder message = record {
    builder = some builder;
    allocator = own_message (some message);
  }

  -- Data()
  unfoldable pub data_new : lib.Message → Buffer
  data_new message = record { builder = none; allocator = own_message (some message) }

  -- Data(builder, cb), where cb is empty if it is not given
  unfoldable pub data_nested :
      lib.Builder → Option (lib.Memory → ℕ → lib.Builder × lib.Memory) → Buffer
  data_nested builder cb = record { builder = some builder; allocator = callback cb }

  -- The list that a move leaves behind, and the one that it makes.
  unfoldable pub moved_from : Allocator → Allocator
  moved_from (own_message m) = own_message none
  moved_from (callback cb) = callback none

  unfoldable pub move : Buffer → Buffer × Buffer
  unfolding moved_from
  move l = (l, record l { allocator = moved_from l.allocator })

  unfoldable pub size : lib.Memory → Buffer → ℕ
  size memory l = elim l.builder [ none ↦ 0 | some b ↦ lib.size memory b ]

  unfoldable pub empty : lib.Memory → Buffer → Bool
  unfolding size
  empty memory l = nat_eq (size memory l) 0

  -- An allocation for a list of n elements.
  abbrev pub allocated : Buffer → lib.Builder × lib.Memory → Buffer × lib.Memory
  allocated l (b, memory) = (record l { builder = some b }, memory)

  -- List<T>::init
  unfoldable pub list_init : ℕ → Buffer → lib.Memory → Result (Buffer × lib.Memory)
  list_init n l memory = elim l.allocator [
    | own_message (some m) ↦ ok (allocated l (lib.init_root m memory n))
    | own_message none ↦ ok (l, memory)
    | callback (some cb) ↦ ok (allocated l (cb memory n))
    | callback none ↦ ok (l, memory)
  ]

  -- List<std::string>::init and Data::init, which call the callback without a test.
  unfoldable pub text_list_init : ℕ → Buffer → lib.Memory → Result (Buffer × lib.Memory)
  text_list_init n l memory = elim l.allocator [
    | callback (some cb) ↦ ok (allocated l (cb memory n))
    | callback none ↦ err bad_function_call
    | own_message (some m) ↦ ok (allocated l (lib.init_root m memory n))
    | own_message none ↦ ok (l, memory)
  ]

  unfoldable pub data_init : ℕ → Buffer → lib.Memory → Result (Buffer × lib.Memory)
  data_init n l memory = elim l.allocator [
    | callback (some cb) ↦ ok (allocated l (cb memory n))
    | callback none ↦ err bad_function_call
    | own_message (some m) ↦ ok (allocated l (lib.init_root m memory n))
    | own_message none ↦ ok (l, memory)
  ]

  -- `list[i] = value` and `list[i]`. A default-constructed builder has no elements.
  unfoldable pub set_element : ℕ → T → Buffer → lib.Memory → Result lib.Memory
  set_element i value l memory = elim l.builder [
    | none ↦ err out_of_range
    | some b ↦ ok (lib.set memory b i value)
  ]

  unfoldable pub get_element : ℕ → Buffer → lib.Memory → Result T
  get_element i l memory = elim l.builder [
    | none ↦ err out_of_range
    | some b ↦ ok (lib.get memory b i)
  ]

  -- ListConst<T> and DataConst: the reader, and the message that it keeps alive.
  pub record ListConst : Type 0 where
    pub reader : Option lib.Builder
    pub message_lifetime : Option lib.Message

  -- List<T>::operator ListConst<T>
  unfoldable pub list_const : Buffer → ListConst
  list_const l = elim l.allocator [
    | own_message m ↦ record { reader = l.builder; message_lifetime = m }
    | callback cb ↦ record { reader = l.builder; message_lifetime = none }
  ]

  -- List<std::string>::operator ListConst<std::string>, Data::operator DataConst
  unfoldable pub text_list_const : Buffer → ListConst
  text_list_const l = record { reader = l.builder; message_lifetime = none }

  unfoldable pub data_const : Buffer → ListConst
  data_const l = record { reader = l.builder; message_lifetime = none }

  unfoldable pub const_size : lib.Memory → ListConst → ℕ
  const_size memory c = elim c.reader [ none ↦ 0 | some b ↦ lib.size memory b ]

  unfoldable pub const_get : ℕ → ListConst → lib.Memory → Result T
  const_get i c memory = elim c.reader [
    | none ↦ err out_of_range
    | some b ↦ ok (lib.get memory b i)
  ]

-- `list[i]` of a List<std::string>, and of a ListConst<std::string>: the element as a C string.
module _ (texts : Messages String) where
  unfoldable pub text_get_element : ℕ → Buffer texts → texts.Memory → Result String
  unfolding from_c_str
  text_get_element i l memory = elim l.builder [
    | none ↦ err out_of_range
    | some b ↦ ok (from_c_str (texts.get memory b i))
  ]

  unfoldable pub text_const_get : ℕ → ListConst texts → texts.Memory → Result String
  unfolding from_c_str
  text_const_get i c memory = elim c.reader [
    | none ↦ err out_of_range
    | some b ↦ ok (from_c_str (texts.get memory b i))
  ]
