-- ===== src/ListDefinitions/Sequence.antt =====
-- The plain sequences that the lists of include/rpp_cpp/list_definitions.hpp stand for, and the calls
-- on them.
use rpp_cpp.Base.{
  ℕ, zero, suc, ◌<◌, ◌≡◌, refl, List, [], ◌∷◌, length, get_elem?, none, some, arith, nat_eq,
  if◌then◌else◌,
}

-- A plain sequence: n copies of a value, and a write, which out of bounds changes nothing.
abbrev pub replicate : {T : Type 0} → ℕ → T → List T
replicate zero x = []
replicate (suc n) x = x ∷ replicate n x

abbrev pub set : {T : Type 0} → List T → ℕ → T → List T
set [] i x = []
set (y ∷ ys) zero x = x ∷ ys
set (y ∷ ys) (suc i) x = y ∷ set ys i x

-- What a component does with a list.
pub data Op (T : Type 0) : Type 0 where
  resize : ℕ → Op T
  assign : ℕ → T → Op T
  read : ℕ → Op T
  measure : Op T

pub data Reply (T : Type 0) : Type 0 where
  done : Reply T
  value : T → Reply T
  count : ℕ → Reply T

-- The abstract list: a resize drops what was there, and every element is the default again.
abbrev pub after : {T : Type 0} → T → Op T → List T → List T
after default_value (resize n) xs = replicate n default_value
after default_value (assign i x) xs = set xs i x
after default_value (read i) xs = xs
after default_value measure xs = xs

abbrev pub reply_of : {T : Type 0} → T → Op T → List T → Reply T
reply_of default_value (resize n) xs = done
reply_of default_value (assign i x) xs = done
reply_of default_value (read i) xs = elim (get_elem? xs i) [
  | some x ↦ value x
  | none ↦ value default_value
]
reply_of default_value measure xs = count (length xs)

abbrev pub replies : {T : Type 0} → T → List (Op T) → List T → List (Reply T)
replies default_value [] xs = []
replies default_value (op ∷ ops) xs =
    reply_of default_value op xs ∷ replies default_value ops (after default_value op xs)

-- Each element that is written or read is there by then.
abbrev pub OpInRange : {T : Type 0} → Op T → List T → Type 0
OpInRange (resize n) xs = Unit
OpInRange (assign i x) xs = i < length xs
OpInRange (read i) xs = i < length xs
OpInRange measure xs = Unit

abbrev pub InRange : {T : Type 0} → T → List (Op T) → List T → Type 0
InRange default_value [] xs = Unit
InRange default_value (op ∷ ops) xs =
    OpInRange op xs × InRange default_value ops (after default_value op xs)

pub length-replicate : {T : Type 0} (n : ℕ) (x : T) → length (replicate n x) ≡ n
length-replicate zero x = refl
length-replicate (suc n) x = omega (arith, length-replicate n x)

pub get_elem?-replicate :
    {T : Type 0} (n i : ℕ) (x : T) → i < n → get_elem? (replicate n x) i ≡ some x
get_elem?-replicate zero i x h = absurd (omega arith)
get_elem?-replicate (suc n) zero x h = refl
get_elem?-replicate (suc n) (suc i) x h = get_elem?-replicate n i x (omega arith)

pub length-set : {T : Type 0} (xs : List T) (i : ℕ) (x : T) → length (set xs i x) ≡ length xs
length-set [] i x = refl
length-set (y ∷ ys) zero x = refl
length-set (y ∷ ys) (suc i) x = omega (arith, length-set ys i x)

pub get_elem?-set :
    {T : Type 0} (xs : List T) (i j : ℕ) (x : T)
    → i < length xs
    → get_elem? (set xs i x) j ≡ (if nat_eq i j then some x else get_elem? xs j)
get_elem?-set [] i j x h = absurd (omega arith)
get_elem?-set (y ∷ ys) zero zero x h = refl
get_elem?-set (y ∷ ys) zero (suc j) x h = ground arith
get_elem?-set (y ∷ ys) (suc i) zero x h = ground arith
get_elem?-set (y ∷ ys) (suc i) (suc j) x h = ground (arith, get_elem?-set ys i j x (omega arith))
