-- ===== src/ListDefinitions/Allocated.antt =====
-- Lists that can allocate, and what the three init functions do for them.
use rpp_cpp.Base.{
  ℕ, ◌<◌, ◌≡◌, refl, ap, ◌∙◌, sym, List, [], length, get_elem?, Option, none, some, arith, nat_eq,
  if◌then◌else◌,
}
use rpp_cpp.Base.Result.{Result, ok}
use rpp_cpp.ListDefinitions.Sequence.{replicate, length-replicate, get_elem?-replicate}
use rpp_cpp.ListDefinitions.{
  Messages, Allocator, own_message, callback, Buffer, list_init, text_list_init, data_init,
}

module _ {T : Type 0} (lib : Messages T) (default_value : T) where
  -- An allocation makes a list of n default values.
  abbrev pub Allocates : (lib.Memory → ℕ → lib.Builder × lib.Memory) → Type 0
  Allocates alloc =
      (memory : lib.Memory) (n : ℕ)
      → (lib.size (alloc memory n).1 (alloc memory n).0 ≡ n)
        × ((i : ℕ) → i < n → lib.get (alloc memory n).1 (alloc memory n).0 i ≡ default_value)

  -- What the library documents of its messages.
  pub record Laws : Type 0 where
    pub init_root-Allocates : (m : lib.Message) → Allocates (λ memory n. lib.init_root m memory n)
    pub size-set :
        (memory : lib.Memory) (b : lib.Builder) (i : ℕ) (x : T)
        → lib.size (lib.set memory b i x) b ≡ lib.size memory b
    pub get-set :
        (memory : lib.Memory) (b : lib.Builder) (i j : ℕ) (x : T)
        → i < lib.size memory b
        → lib.get (lib.set memory b i x) b j ≡ (if nat_eq i j then x else lib.get memory b j)

  -- The list can allocate: it has a message of its own, or a callback that keeps its promise.
  abbrev pub CanAllocate : Allocator lib → Type 0
  CanAllocate (own_message none) = ⊥
  CanAllocate (own_message (some m)) = Unit
  CanAllocate (callback none) = ⊥
  CanAllocate (callback (some cb)) = Allocates cb

  -- The builder shows the sequence.
  abbrev pub ShowsAt : lib.Memory → Option lib.Builder → List T → Type 0
  ShowsAt memory none xs = xs ≡ []
  ShowsAt memory (some b) xs =
      (lib.size memory b ≡ length xs)
      × ((i : ℕ) → i < length xs → get_elem? xs i ≡ some (lib.get memory b i))

  abbrev pub Shows : Buffer lib × lib.Memory → List T → Type 0
  Shows (l, memory) xs = ShowsAt memory l.builder xs

  -- What every init does for a list that can allocate.
  abbrev pub IsInit : (ℕ → Buffer lib → lib.Memory → Result (Buffer lib × lib.Memory)) → Type 0
  IsInit init =
      (n : ℕ) (l : Buffer lib) (memory : lib.Memory)
      → CanAllocate l.allocator
      → (next : Buffer lib) × (changed : lib.Memory) × (init n l memory ≡ ok (next, changed))
        × CanAllocate next.allocator
        × Shows (next, changed) (replicate n default_value)

  module _ (laws : Laws) where
    allocated-Shows :
        (alloc : lib.Memory → ℕ → lib.Builder × lib.Memory)
        → Allocates alloc
        → (memory : lib.Memory) (n : ℕ)
        → ShowsAt (alloc memory n).1 (some (alloc memory n).0) (replicate n default_value)
    allocated-Shows alloc a memory n = (
      (a memory n).0 ∙ sym (length-replicate n default_value),
      λ i h.
          let below : i < n = omega (arith, h, length-replicate n default_value) in
          get_elem?-replicate n i default_value below
          ∙ ap (λ (x : T). some x) (sym ((a memory n).1 i below)),
    )

    pub list_init-IsInit : IsInit (list_init lib)
    unfolding list_init
    list_init-IsInit n l memory can = go l.allocator refl can
      where
        go :
            (a : Allocator lib)
            → l.allocator ≡ a
            → CanAllocate a
            → (next : Buffer lib) × (changed : lib.Memory) × (list_init lib n l memory
                ≡ ok (next, changed))
              × CanAllocate next.allocator
              × Shows (next, changed) (replicate n default_value)
        go (own_message none) e can = absurd can
        go (callback none) e can = absurd can
        go (own_message (some m)) e can = (
          record { builder = some (lib.init_root m memory n).0; allocator = own_message (some m) },
          (lib.init_root m memory n).1,
          ground (arith, e),
          tt,
          allocated-Shows (λ memory n. lib.init_root m memory n) (laws.init_root-Allocates m) memory
              n,
        )
        go (callback (some cb)) e can = (
          record { builder = some (cb memory n).0; allocator = callback (some cb) },
          (cb memory n).1,
          ground (arith, e),
          can,
          allocated-Shows cb can memory n,
        )

    -- The three functions differ only where nothing can be allocated.
    pub init-eq :
        (n : ℕ) (l : Buffer lib) (memory : lib.Memory)
        → CanAllocate l.allocator
        → (text_list_init lib n l memory ≡ list_init lib n l memory)
          × (data_init lib n l memory ≡ list_init lib n l memory)
    unfolding list_init text_list_init data_init
    init-eq n l memory can = go l.allocator refl can
      where
        go :
            (a : Allocator lib)
            → l.allocator ≡ a
            → CanAllocate a
            → (text_list_init lib n l memory ≡ list_init lib n l memory)
              × (data_init lib n l memory ≡ list_init lib n l memory)
        go (own_message none) e can = absurd can
        go (callback none) e can = absurd can
        go (own_message (some m)) e can = (ground (arith, e), ground (arith, e))
        go (callback (some cb)) e can = (ground (arith, e), ground (arith, e))

    pub IsInit-of-eq :
        (init : ℕ → Buffer lib → lib.Memory → Result (Buffer lib × lib.Memory))
        → ((n : ℕ) (l : Buffer lib) (memory : lib.Memory)
            → CanAllocate l.allocator
            → init n l memory ≡ list_init lib n l memory)
        → IsInit init
    IsInit-of-eq init same n l memory can =
        let (next, changed, e, c, s) = list_init-IsInit n l memory can in
        (next, changed, same n l memory can ∙ e, c, s)
