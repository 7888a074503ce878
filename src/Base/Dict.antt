-- ===== src/Base/Dict.antt =====
-- `std::map<std::string, V>`: the entries in the order of their keys, as iteration yields them.
-- A key holds once; `insert` is `m[k] = v`, which replaces the value of a key that is there.
pub mod Order
pub mod Replaced
use Prim.Native.Nat.{Ordering}
use Prim.Native.String.{compare}
use Prim.Native.String.{String}
use mathlib.Core.Path.{◌≡◌, refl}
use mathlib.Core.Logic.{◌↔◌}
use mathlib.Core.Bool.{Bool, true, false}
use mathlib.Core.Option
use mathlib.Core.Option.{Option, none, some}
use mathlib.Core.List.{List, [], ◌∷◌, map}
use native.Mathlib.Omega.{arith}
use text.Mathlib.Text.{◌==◌}
use text.Mathlib.TextEquality.{eq_iff, path_by_compare}
use text.Mathlib.TextPositions.{compare_refl}
use rpp_cpp.Base.Tests.{if◌then◌else◌}

abbrev pub Dict {ℓ} : Type ℓ → Type ℓ
Dict V = List (String × V)

compare_iff : (k j : String) → (compare k j ≡ Ordering.eq) ↔ (k ≡ j)
compare_iff k j = (path_by_compare k j, λ p. rw p (compare_refl j))

module _ {ℓ} {V : Type ℓ} where
  unfoldable pub find : String → Dict V → Option V
  find k [] = none
  find k ((j, v) ∷ m) = if j == k then some v else find k m

  unfoldable pub contains : String → Dict V → Bool
  contains k [] = false
  contains k ((j, v) ∷ m) = if j == k then true else contains k m

  abbrev place : Ordering → String × V → String × V → Dict V → Dict V → Dict V
  place Ordering.lt new old rest placed = new ∷ old ∷ rest
  place Ordering.eq new old rest placed = new ∷ rest
  place Ordering.gt new old rest placed = old ∷ placed

  unfoldable pub insert : String → V → Dict V → Dict V
  insert k v [] = (k, v) ∷ []
  insert k v ((j, w) ∷ m) = place (compare k j) (k, v) (j, w) m (insert k v m)

  abbrev pub keys : Dict V → List String
  keys = map (λ e. e.0)

  find-place :
      (o : Ordering) (i k j : String) (v w : V) (m placed : Dict V)
      → (o ≡ Ordering.eq) ↔ (k ≡ j)
      → find i placed ≡ (if k == i then some v else find i m)
      → find i (place o (k, v) (j, w) m placed) ≡ (if k == i then some v else find i ((j, w) ∷ m))
  unfolding find
  find-place Ordering.lt i k j v w m placed same h = refl
  find-place Ordering.eq i k j v w m placed same h =
      ground (arith, same.0 refl, eq_iff k i, eq_iff j i)
  find-place Ordering.gt i k j v w m placed same h =
      ground (arith, h, λ (p : k ≡ j). same.1 p, eq_iff k i, eq_iff j i)

  pub find-insert :
      (i k : String) (v : V) (m : Dict V)
      → find i (insert k v m) ≡ (if k == i then some v else find i m)
  unfolding insert
  find-insert i k v [] = unfold find in refl
  find-insert i k v ((j, w) ∷ m) =
      find-place (compare k j) i k j v w m _ (compare_iff k j) (find-insert i k v m)

  pub find-insert_self : (k : String) (v : V) (m : Dict V) → find k (insert k v m) ≡ some v
  find-insert_self k v m = ground (arith, find-insert k k v m, eq_iff k k)

  -- `for (kv : from) to[kv.first] = kv.second;`
  abbrev pub insert_all : Dict V → Dict V → Dict V
  insert_all to [] = to
  insert_all to ((k, v) ∷ from) = insert_all (insert k v to) from

module _ {ℓ κ} {V : Type ℓ} {W : Type κ} where
  abbrev pub map_values : (V → W) → Dict V → Dict W
  map_values f [] = []
  map_values f ((k, v) ∷ m) = (k, f v) ∷ map_values f m

  pub find-map_values :
      (f : V → W) (k : String) (m : Dict V) → find k (map_values f m) ≡ Option.map f (find k m)
  unfolding find
  find-map_values f k [] = refl
  find-map_values f k ((j, v) ∷ m) = ground (arith, find-map_values f k m)
