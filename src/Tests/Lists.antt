-- ===== src/Tests/Lists.antt =====
-- Lists in messages that hold one list each: of numbers, and of texts.
use rpp_cpp.Base.{
  ℕ, zero, suc, ◌<◌, ◌≡◌, refl, String, List, [], ◌∷◌, length, get_elem?, Option, none, some, arith,
  nat_eq, if◌then◌else◌,
}
use rpp_cpp.Base.Result.{ok}
use rpp_cpp.ListDefinitions.{Messages, own_message, Buffer, from_c_str, list_init, data_init}
use rpp_cpp.ListDefinitions.Sequence.{
  replicate, set, Op, resize, assign, read, measure, Reply, done, value, count,
}
use rpp_cpp.ListDefinitions.Allocated.{Laws}
use rpp_cpp.ListDefinitions.Simulated.{run}
use rpp_cpp.ListDefinitions.Texts.{run_texts, Answers}
use rpp_cpp.ListDefinitions.Refined.{lists_refine}

module _ {T : Type 0} (default_value : T) where
  abbrev element : Option T → T
  element none = default_value
  element (some x) = x

  -- The memory is the list that the message holds.
  abbrev cells : Messages T
  cells = record {
    Memory = List T;
    Message = Unit {0};
    Builder = Unit {0};
    size = λ memory b. length memory;
    get = λ memory b i. element (get_elem? memory i);
    set = λ memory b i x. set memory i x;
    init_root = λ m memory n. (tt, replicate n default_value);
  }

  length_blank : (n : ℕ) → length (replicate n default_value) ≡ n
  length_blank zero = refl
  length_blank (suc n) = omega (arith, length_blank n)

  element_blank :
      (n i : ℕ) → i < n → element (get_elem? (replicate n default_value) i) ≡ default_value
  element_blank zero i h = absurd (omega arith)
  element_blank (suc n) zero h = refl
  element_blank (suc n) (suc i) h = element_blank n i (omega arith)

  element_set :
      (memory : List T) (i j : ℕ) (x : T)
      → i < length memory
      → element (get_elem? (set memory i x) j)
        ≡ (if nat_eq i j then x else element (get_elem? memory j))
  element_set [] i j x h = absurd (omega arith)
  element_set (y ∷ ys) zero zero x h = refl
  element_set (y ∷ ys) zero (suc j) x h = ground arith
  element_set (y ∷ ys) (suc i) zero x h = ground arith
  element_set (y ∷ ys) (suc i) (suc j) x h = ground (arith, element_set ys i j x (omega arith))

  length_set : (memory : List T) (i : ℕ) (x : T) → length (set memory i x) ≡ length memory
  length_set [] i x = refl
  length_set (y ∷ ys) zero x = refl
  length_set (y ∷ ys) (suc i) x = omega (arith, length_set ys i x)

  cells-Laws : Laws cells default_value
  cells-Laws = record {
    init_root-Allocates = λ m memory n. (length_blank n, λ i h. element_blank n i h);
    size-set = λ memory b i x. length_set memory i x;
    get-set = λ memory b i j x h. element_set memory i j x h;
  }

  abbrev fresh : Buffer cells
  fresh = record { builder = none; allocator = own_message (some tt) }

abbrev calls : List (Op ℕ)
calls = resize 2 ∷ assign 1 5 ∷ read 1 ∷ resize 3 ∷ read 1 ∷ measure ∷ []

-- The text that is written holds a null character.
abbrev text_calls : List (Op String)
text_calls = resize 1 ∷ assign 0 "arm\0base" ∷ read 0 ∷ []

lists_refine_example :
    (run (cells zero) 0 (list_init (cells zero)) calls (fresh zero, [])
      ≡ ok (done ∷ done ∷ value 5 ∷ done ∷ value 0 ∷ count 3 ∷ []))
    × (run (cells zero) 0 (data_init (cells zero)) calls (fresh zero, [])
        ≡ ok (done ∷ done ∷ value 5 ∷ done ∷ value 0 ∷ count 3 ∷ []))
    × ((rs : List (Reply String)) × (run_texts (cells "") text_calls (fresh "", []) ≡ ok rs)
        × Answers text_calls [] rs)
lists_refine_example =
    lists_refine (cells zero) 0 (cells "") (cells-Laws zero) (cells-Laws "") calls [] (fresh zero)
      [] tt refl (tt, (omega arith, (omega arith, (tt, (omega arith, (tt, tt)))))) text_calls []
      (fresh "") [] tt refl (tt, (omega arith, (omega arith, tt)))

cut : from_c_str "arm\0base" ≡ "arm"
cut = unfold from_c_str in refl
