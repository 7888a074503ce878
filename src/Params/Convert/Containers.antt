-- ===== src/Params/Convert/Containers.antt =====
-- The conversions of vectors and maps: they round-trip where their elements do.
use rpp_cpp.Base.{◌≡◌, refl, List, [], ◌∷◌, map, All}
use rpp_cpp.Base.Result.{ok, traverse}
use rpp_cpp.Base.Dict.{Dict, insert, insert_all, map_values}
use rpp_cpp.Base.Dict.Order.{IsSorted, insert_all-nil, map_values-IsSorted}
use rpp_cpp.Params.Value.{items-array_of, entries-object_of, ParameterValue}
use rpp_cpp.Params.Convert.{ParameterConverter, vector, map_to, map_from, dictionary, RoundTrips}

module _ {T : Type 0} (c : ParameterConverter T) where
  traverse-map : (xs : List T) → All (RoundTrips c) xs → traverse c.from (map c.to xs) ≡ ok xs
  traverse-map [] h = refl
  traverse-map (x ∷ xs) (h, hs) = rw (h, traverse-map xs hs)

  -- A vector is read back unchanged if each element is.
  pub vector-RoundTrips : (xs : List T) → All (RoundTrips c) xs → RoundTrips (vector c) xs
  unfolding vector
  vector-RoundTrips xs h = rw items-array_of (traverse-map xs h)

  map_to-eq :
      (r : Dict ParameterValue) (m : Dict T) → map_to c r m ≡ insert_all r (map_values c.to m)
  unfolding map_to
  map_to-eq r [] = refl
  map_to-eq r ((k, x) ∷ m) = map_to-eq (insert k (c.to x) r) m

  abbrev pub AllValues : Dict T → Type 0
  AllValues [] = Unit
  AllValues ((k, x) ∷ m) = RoundTrips c x × AllValues m

  map_from-eq :
      (r m : Dict T) → AllValues m → map_from c r (map_values c.to m) ≡ ok (insert_all r m)
  unfolding map_from
  map_from-eq r [] h = refl
  map_from-eq r ((k, x) ∷ m) (h, hs) = rw h (map_from-eq (insert k x r) m hs)

  -- A map is read back unchanged if each value is: std::map keeps its entries in key order.
  pub dictionary-RoundTrips : (m : Dict T) → IsSorted m → AllValues m → RoundTrips (dictionary c) m
  unfolding dictionary
  dictionary-RoundTrips m s h = rw (
    entries-object_of,
    map_to-eq [] m,
    insert_all-nil (map_values c.to m) (map_values-IsSorted c.to m s),
    map_from-eq [] m h,
    insert_all-nil m s,
  )
