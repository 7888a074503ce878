-- ===== src/ListDefinitions/Simulated.antt =====
-- The lists do what plain sequences do, where they can allocate.
use rpp_cpp.Base.{
  ℕ, ◌<◌, ◌≡◌, refl, ap, ◌∙◌, sym, List, [], ◌∷◌, length, get_elem?, Option, none, some, arith,
}
use rpp_cpp.Base.Result.{Result, ok, ◌>>=◌}
use rpp_cpp.ListDefinitions.Sequence.{
  set, Op, resize, assign, read, measure, Reply, done, value, count, after, reply_of, replies,
  OpInRange, InRange, length-set, get_elem?-set,
}
use rpp_cpp.ListDefinitions.{
  Messages, Buffer, size, list_init, text_list_init, data_init, set_element, get_element,
}
use rpp_cpp.ListDefinitions.Allocated.{
  Laws, CanAllocate, ShowsAt, Shows, IsInit, list_init-IsInit, init-eq, IsInit-of-eq,
}

module _ {T : Type 0} (lib : Messages T) (default_value : T) where
  -- The call on the list, with init for a resize.
  unfoldable pub step :
      (ℕ → Buffer lib → lib.Memory → Result (Buffer lib × lib.Memory))
      → Op T
      → Buffer lib × lib.Memory
      → Result (Reply T × (Buffer lib × lib.Memory))
  step init (resize n) (l, memory) = do s ← init n l memory; ok (done, s)
  step init (assign i x) (l, memory) = do
    written ← set_element lib i x l memory
    ok (done, (l, written))
  step init (read i) (l, memory) = do x ← get_element lib i l memory; ok (value x, (l, memory))
  step init measure (l, memory) = ok (count (size lib memory l), (l, memory))

  unfoldable pub run :
      (ℕ → Buffer lib → lib.Memory → Result (Buffer lib × lib.Memory))
      → List (Op T)
      → Buffer lib × lib.Memory
      → Result (List (Reply T))
  unfolding step
  run init [] s = ok []
  run init (op ∷ ops) s = do
    (reply, next) ← step init op s
    rest ← run init ops next
    ok (reply ∷ rest)

  module _ (laws : Laws lib default_value) where
    -- A call in range does what the abstract list does.
    abbrev Simulates :
        (ℕ → Buffer lib → lib.Memory → Result (Buffer lib × lib.Memory))
        → Op T
        → List T
        → Buffer lib × lib.Memory
        → Type 0
    Simulates init op xs s =
        (next : Buffer lib × lib.Memory) × (step init op s
          ≡ ok (reply_of default_value op xs, next))
        × CanAllocate lib default_value next.0.allocator
        × Shows lib default_value next (after default_value op xs)

    assign-Shows :
        (memory : lib.Memory) (o : Option lib.Builder) (xs : List T) (i : ℕ) (x : T)
        → i < length xs
        → ShowsAt lib default_value memory o xs
        → (b : lib.Builder) × (o ≡ some b)
          × ShowsAt lib default_value (lib.set memory b i x) (some b) (set xs i x)
    assign-Shows memory none xs i x h s = absurd (ground (arith, s))
    assign-Shows memory (some b) xs i x h (counted, at_each) = (
      b,
      refl,
      (
        laws.size-set memory b i x ∙ counted ∙ sym (length-set xs i x),
        λ j k. ground (
          arith,
          get_elem?-set xs i j x h,
          laws.get-set memory b i j x (omega (arith, counted)),
          at_each j (omega (arith, k, length-set xs i x)),
        ),
      ),
    )

    read-Shows :
        (memory : lib.Memory) (o : Option lib.Builder) (xs : List T) (i : ℕ)
        → i < length xs
        → ShowsAt lib default_value memory o xs
        → (b : lib.Builder) × (o ≡ some b) × (get_elem? xs i ≡ some (lib.get memory b i))
    read-Shows memory none xs i h s = absurd (ground (arith, s))
    read-Shows memory (some b) xs i h (counted, at_each) = (b, refl, at_each i h)

    size-Shows :
        (memory : lib.Memory) (l : Buffer lib) (xs : List T)
        → ShowsAt lib default_value memory l.builder xs
        → size lib memory l ≡ length xs
    unfolding size
    size-Shows memory l xs s = go l.builder s
      where
        go :
            (o : Option lib.Builder)
            → ShowsAt lib default_value memory o xs
            → (elim o [ none ↦ 0 | some b ↦ lib.size memory b ]) ≡ length xs
        go none s = ap length (sym s)
        go (some b) s = s.0

    step-Simulates :
        (init : ℕ → Buffer lib → lib.Memory → Result (Buffer lib × lib.Memory))
        → IsInit lib default_value init
        → (op : Op T) (xs : List T) (l : Buffer lib) (memory : lib.Memory)
        → CanAllocate lib default_value l.allocator
        → Shows lib default_value (l, memory) xs
        → OpInRange op xs
        → Simulates init op xs (l, memory)
    unfolding step set_element get_element
    step-Simulates init is_init (resize n) xs l memory can s h =
        let (next, changed, e, c, s') = is_init n l memory can in
        ((next, changed), rw e refl, c, s')
    step-Simulates init is_init (assign i x) xs l memory can s h =
        let (b, e, s') = assign-Shows memory l.builder xs i x h s in
        ((l, lib.set memory b i x), ground (arith, e), can, rw e s')
    step-Simulates init is_init (read i) xs l memory can s h =
        let (b, e, g) = read-Shows memory l.builder xs i h s in
        ((l, memory), ground (arith, e, g), can, s)
    step-Simulates init is_init measure xs l memory can s h =
        ((l, memory), ap (λ (n : ℕ). ok (count n, (l, memory))) (size-Shows memory l xs s), can, s)

    run-Refines :
        (init : ℕ → Buffer lib → lib.Memory → Result (Buffer lib × lib.Memory))
        → IsInit lib default_value init
        → (ops : List (Op T)) (xs : List T) (l : Buffer lib) (memory : lib.Memory)
        → CanAllocate lib default_value l.allocator
        → Shows lib default_value (l, memory) xs
        → InRange default_value ops xs
        → run init ops (l, memory) ≡ ok (replies default_value ops xs)
    unfolding run
    run-Refines init is_init [] xs l memory can s h = refl
    run-Refines init is_init (op ∷ ops) xs l memory can s (h, hs) =
        let ((next, changed), e, c, s') = step-Simulates init is_init op xs l memory can s h in
        rw e
          (rw (run-Refines init is_init ops (after default_value op xs) next changed c s' hs) refl)

    -- With any of the three init functions, a list that can allocate answers any calls in range as a
    -- plain sequence does, where an element is read as it stands in the message.
    pub lists_simulated :
        (ops : List (Op T)) (xs : List T) (l : Buffer lib) (memory : lib.Memory)
        → CanAllocate lib default_value l.allocator
        → Shows lib default_value (l, memory) xs
        → InRange default_value ops xs
        → (run (list_init lib) ops (l, memory) ≡ ok (replies default_value ops xs))
          × (run (text_list_init lib) ops (l, memory) ≡ ok (replies default_value ops xs))
          × (run (data_init lib) ops (l, memory) ≡ ok (replies default_value ops xs))
    lists_simulated ops xs l memory can s h = (
      run-Refines (list_init lib) (list_init-IsInit lib default_value laws) ops xs l memory can s h,
      run-Refines (text_list_init lib)
          (IsInit-of-eq lib default_value laws (text_list_init lib)
            λ n l memory c. (init-eq lib default_value laws n l memory c).0)
          ops xs l memory can s h,
      run-Refines (data_init lib)
          (IsInit-of-eq lib default_value laws (data_init lib)
            λ n l memory c. (init-eq lib default_value laws n l memory c).1)
          ops xs l memory can s h,
    )
