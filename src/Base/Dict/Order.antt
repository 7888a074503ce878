-- ===== src/Base/Dict/Order.antt =====
-- The order of `std::map`'s keys: the byte order of texts, and the maps whose entries follow it.
use Prim.Native.Nat.{Ordering}
use Prim.Native.String.{String, compare}
use Prim.Native.String.compare as by
use mathlib.Core.Path.{◌≡◌, refl, sym, ◌∙◌}
use mathlib.Core.List.{[], ◌∷◌, ◌++◌, append-nil, append_assoc}
use text.Mathlib.TextEquality.{path_by_compare}
use native.Mathlib.Omega.{arith}
use rpp_cpp.Base.Dict.{Dict, insert, insert_all, map_values}

pub compare_flip : (s t : String) → compare s t ≡ Ordering.lt → compare t s ≡ Ordering.gt
compare_flip String.[] String.[] h = cc (by.nil-nil)
compare_flip String.[] (String.◌∷◌ d t) h = by.cons-nil d t
compare_flip (String.◌∷◌ c s) String.[] h = cc (by.cons-nil c s)
compare_flip (String.◌∷◌ c s) (String.◌∷◌ d t) h =
    ground (arith, by.cons-cons c d s t, by.cons-cons d c t s, compare_flip s t)

pub compare_flip_gt : (s t : String) → compare s t ≡ Ordering.gt → compare t s ≡ Ordering.lt
compare_flip_gt String.[] String.[] h = cc (by.nil-nil)
compare_flip_gt String.[] (String.◌∷◌ d t) h = cc (by.nil-cons d t)
compare_flip_gt (String.◌∷◌ c s) String.[] h = by.nil-cons c s
compare_flip_gt (String.◌∷◌ c s) (String.◌∷◌ d t) h =
    ground (arith, by.cons-cons c d s t, by.cons-cons d c t s, compare_flip_gt s t)

pub compare_trans :
    (s t u : String)
    → compare s t ≡ Ordering.lt
    → compare t u ≡ Ordering.lt
    → compare s u ≡ Ordering.lt
compare_trans String.[] String.[] u h k = cc
compare_trans String.[] (String.◌∷◌ d t) String.[] h k = cc (by.cons-nil d t)
compare_trans String.[] (String.◌∷◌ d t) (String.◌∷◌ e u) h k = by.nil-cons e u
compare_trans (String.◌∷◌ c s) String.[] u h k = cc (by.cons-nil c s)
compare_trans (String.◌∷◌ c s) (String.◌∷◌ d t) String.[] h k = cc (by.cons-nil d t)
compare_trans (String.◌∷◌ c s) (String.◌∷◌ d t) (String.◌∷◌ e u) h k =
    ground
      (arith, by.cons-cons c d s t, by.cons-cons d e t u, by.cons-cons c e s u, compare_trans s t u)

-- Every key is above `k`.
abbrev pub Above {ℓ} : {V : Type ℓ} → String → Dict V → Type ℓ
Above k [] = Unit
Above k ((j, v) ∷ m) = (compare k j ≡ Ordering.lt) × Above k m

-- Keys rise strictly along the entries: what a std::map holds to.
abbrev pub IsSorted {ℓ} : {V : Type ℓ} → Dict V → Type ℓ
IsSorted [] = Unit
IsSorted ((k, v) ∷ m) = Above k m × IsSorted m

module _ {ℓ} {V : Type ℓ} where
  Above-mono : (k j : String) (m : Dict V) → compare k j ≡ Ordering.lt → Above j m → Above k m
  Above-mono k j [] h a = tt
  Above-mono k j ((i, v) ∷ m) h (b, a) = (compare_trans k j i h b, Above-mono k j m h a)

  Above-insert :
      (k j : String) (v : V) (m : Dict V)
      → compare k j ≡ Ordering.lt
      → Above k m
      → Above k (insert j v m)
  unfolding insert
  Above-insert k j v [] h a = (h, tt)
  Above-insert k j v ((i, w) ∷ m) h (b, a) = ground (arith, Above-insert k j v m h a)

  -- `m[k] = v` keeps the entries in order.
  pub insert-IsSorted : (k : String) (v : V) (m : Dict V) → IsSorted m → IsSorted (insert k v m)
  unfolding insert
  insert-IsSorted k v [] s = (tt, tt)
  insert-IsSorted k v ((j, w) ∷ m) (a, s) = ground (
    arith,
    Above-mono k j m,
    path_by_compare k j,
    compare_flip_gt k j,
    Above-insert j k v m,
    insert-IsSorted k v m s,
  )

  -- A key above all others is placed last.
  insert_last :
      (k : String) (v : V) (m n : Dict V)
      → IsSorted (m ++ (k, v) ∷ n)
      → insert k v m ≡ m ++ (k, v) ∷ []
  unfolding insert
  insert_last k v [] n s = refl
  insert_last k v ((j, w) ∷ m) n (a, s) =
      ground (arith, compare_flip j k (Above-at j k v m n a), insert_last k v m n s)
    where
      Above-at :
          (j k : String) (v : V) (m n : Dict V)
          → Above j (m ++ (k, v) ∷ n)
          → compare j k ≡ Ordering.lt
      Above-at j k v [] n (h, _) = h
      Above-at j k v (_ ∷ m) n (_, a) = Above-at j k v m n a

  insert_all-append : (to from : Dict V) → IsSorted (to ++ from) → insert_all to from ≡ to ++ from
  insert_all-append to [] s = sym (append-nil to)
  insert_all-append to ((k, v) ∷ from) s = rw (insert_last k v to from s) (
      insert_all-append (to ++ (k, v) ∷ []) from (rw append_assoc s)
      ∙ append_assoc to ((k, v) ∷ []) from)

  -- Copying a map entry by entry gives it back.
  pub insert_all-nil : (m : Dict V) → IsSorted m → insert_all [] m ≡ m
  insert_all-nil m s = insert_all-append [] m s

module _ {ℓ κ} {V : Type ℓ} {W : Type κ} (f : V → W) where
  map_values-Above : (k : String) (m : Dict V) → Above k m → Above k (map_values f m)
  map_values-Above k [] a = tt
  map_values-Above k ((j, v) ∷ m) (h, a) = (h, map_values-Above k m a)

  pub map_values-IsSorted : (m : Dict V) → IsSorted m → IsSorted (map_values f m)
  map_values-IsSorted [] s = tt
  map_values-IsSorted ((k, v) ∷ m) (a, s) = (map_values-Above k m a, map_values-IsSorted m s)
