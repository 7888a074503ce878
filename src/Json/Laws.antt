-- ===== src/Json/Laws.antt =====
-- The loop that reads an object into a map, and the ends of the loops that read documents.
use rpp_cpp.Base.{
  ◌≡◌, ◌≢◌, refl, inl, inr, String, List, [], ◌∷◌, Option, none, some, ◌==◌, All, if◌then◌else◌,
  Bool-cases, arith,
}
use mathlib.Core.Path.{subst}
use rpp_cpp.Base.Result.{Result, ok, err, out_of_fuel, >>=-eq-ok}
use rpp_cpp.Base.Dict.{Dict, find, insert, find-insert}
use rpp_cpp.Json.{insert_each}

-- The last value that the items give the key.
abbrev pub last_of : {V : Type 0} → String → List (String × V) → Option V → Option V
last_of k [] found = found
last_of k ((j, v) ∷ items) found = last_of k items (if j == k then some v else found)

module _ {V W : Type 0} where
  -- What the map holds at a key is what `f` makes of the value that the document has there.
  abbrev pub Reads : (V → Result W) → Option V → Option W → Type 0
  Reads f none r = r ≡ none
  Reads f (some v) r = (w : W) × (f v ≡ ok w) × (r ≡ some w)

  insert_each-Reads_from :
      (f : V → Result W) (k : String) (items : List (String × V)) (map r : Dict W)
      (found : Option V)
      → Reads f found (find k map)
      → insert_each f items map ≡ ok r
      → Reads f (last_of k items found) (find k r)
  insert_each-Reads_from f k [] map r found h e =
      let q : map ≡ r = cc in subst (λ m. Reads f found (find k m)) q h
  insert_each-Reads_from f k ((j, v) ∷ items) map r found h e =
      let (w, p, e') = >>=-eq-ok (f v) _ e in
      insert_each-Reads_from f k items (insert j w map) r (if j == k then some v else found)
        (rw find-insert (elim (Bool-cases (j == k)) [ inl q ↦ rw q (w, p, refl) | inr q ↦ rw q h ]))
        e'

  pub insert_each-Reads :
      (f : V → Result W) (k : String) (items : List (String × V)) (r : Dict W)
      → insert_each f items [] ≡ ok r
      → Reads f (last_of k items none) (find k r)
  unfolding find
  insert_each-Reads f k items r e = insert_each-Reads_from f k items [] r none refl e

  pub insert_each-ends :
      (f : V → Result W) (items : List (String × V)) (map : Dict W)
      → All (λ e. f e.1 ≢ err out_of_fuel) items
      → insert_each f items map ≢ err out_of_fuel
  insert_each-ends f [] map h e = cc
  insert_each-ends f ((k, v) ∷ items) map (h, hs) e =
      grind (arith, λ (m : Dict W). insert_each-ends f items m hs)
