-- ===== src/Base/Dict/Replaced.antt =====
-- What holds of all values of a map after an insertion.
use Prim.Native.Nat.{Ordering}
use Prim.Native.String.{String, compare}
use mathlib.Core.Path.{◌≡◌, refl, subst}
use mathlib.Core.Bool.{Bool, true, false}
use text.Mathlib.Text.{◌==◌}
use rpp_cpp.Base.Tests.{if◌then◌else◌}
use mathlib.Core.Option.{Option, some}
use mathlib.Core.List.{[], ◌∷◌}
use native.Mathlib.Omega.{arith}
use text.Mathlib.TextEquality.{eq_iff}
use rpp_cpp.Base.Dict.{Dict, find, insert, place, compare_iff}

found_here :
    {V : Type 0} (k j : String) (w : V) (m : Dict V)
    → compare k j ≡ Ordering.eq
    → find k ((j, w) ∷ m) ≡ some w
unfolding find
found_here k j w m e = ground (arith, (compare_iff k j).0 e, eq_iff j k)

found_later :
    {V : Type 0} (k j : String) (w x : V) (m : Dict V)
    → compare k j ≡ Ordering.gt
    → find k m ≡ some x
    → find k ((j, w) ∷ m) ≡ some x
unfolding find
found_later k j w x m e q = ground (arith, e, q, compare_iff k j, eq_iff j k)

module _ {V : Type 0} (P : V → Type 0) where
  abbrev pub AllValues : Dict V → Type 0
  AllValues [] = Unit
  AllValues ((k, v) ∷ m) = P v × AllValues m

  AllValues-place :
      (o : Ordering) (k j : String) (v w : V) (m placed : Dict V)
      → AllValues (place o (k, v) (j, w) m placed)
      → (o ≡ Ordering.eq → P w)
      → (o ≡ Ordering.gt → AllValues placed → P v × AllValues m)
      → P v × (P w × AllValues m)
  AllValues-place Ordering.lt k j v w m placed a h i = a
  AllValues-place Ordering.eq k j v w m placed (b, c) h i = (b, (h refl, c))
  AllValues-place Ordering.gt k j v w m placed (b, c) h i = let (x, y) = i refl c in (x, (b, y))

  -- The value that is replaced is the only one that an insertion takes away.
  pub AllValues-insert :
      (k : String) (v : V) (m : Dict V)
      → AllValues (insert k v m)
      → ((w : V) → find k m ≡ some w → P w)
      → P v × AllValues m
  unfolding insert find
  AllValues-insert k v [] a h = a
  AllValues-insert k v ((j, w) ∷ m) a h =
      AllValues-place (compare k j) k j v w m (insert k v m) a (λ e. h w (found_here k j w m e))
        (λ e b. AllValues-insert k v m b (λ x q. h x (found_later k j w x m e q)))

  new-place :
      (o : Ordering) (k j : String) (v w : V) (m placed : Dict V)
      → AllValues (place o (k, v) (j, w) m placed)
      → (AllValues placed → P v)
      → P v
  new-place Ordering.lt k j v w m placed a h = a.0
  new-place Ordering.eq k j v w m placed a h = a.0
  new-place Ordering.gt k j v w m placed a h = h a.1

  pub AllValues-insert_new : (k : String) (v : V) (m : Dict V) → AllValues (insert k v m) → P v
  unfolding insert
  AllValues-insert_new k v [] a = a.0
  AllValues-insert_new k v ((j, w) ∷ m) a =
      new-place (compare k j) k j v w m (insert k v m) a (AllValues-insert_new k v m)

  place-both :
      (o : Ordering) (k j : String) (v w : V) (m placed : Dict V)
      → P v
      → P w
      → AllValues m
      → AllValues placed
      → AllValues (place o (k, v) (j, w) m placed)
  place-both Ordering.lt k j v w m placed p q a b = (p, (q, a))
  place-both Ordering.eq k j v w m placed p q a b = (p, a)
  place-both Ordering.gt k j v w m placed p q a b = (q, b)

  pub AllValues-insert_both :
      (k : String) (v : V) (m : Dict V) → P v → AllValues m → AllValues (insert k v m)
  unfolding insert
  AllValues-insert_both k v [] p a = (p, tt)
  AllValues-insert_both k v ((j, w) ∷ m) p (q, a) =
      place-both (compare k j) k j v w m (insert k v m) p q a (AllValues-insert_both k v m p a)

  found_value :
      (b : Bool) (v w : V) (rest : Option V)
      → P w
      → (rest ≡ some v → P v)
      → (if b then some w else rest) ≡ some v
      → P v
  found_value true v w rest p h e = subst P (let q : w ≡ v = cc e in q) p
  found_value false v w rest p h e = h e

  pub AllValues-find : (k : String) (v : V) (m : Dict V) → AllValues m → find k m ≡ some v → P v
  unfolding find
  AllValues-find k v [] a e = absurd (cc e)
  AllValues-find k v ((j, w) ∷ m) (p, a) e =
      found_value (j == k) v w (find k m) p (AllValues-find k v m a) e
