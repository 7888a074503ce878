-- ===== src/Params/Struct/Laws.antt =====
-- What the conversion of a reflectable struct guarantees.
use rpp_cpp.Base.{◌≡◌, refl, false, String, ◌==◌, List, [], ◌∷◌, ◌++◌, some, none}
use rpp_cpp.Base.Result.{or_throw, >>=-eq-ok, ok, err, runtime_error}
use rpp_cpp.Base.Dict.{Dict, find, insert, find-insert, find-insert_self}
use rpp_cpp.Params.Value.{ParameterValue, entries-object_of}
use rpp_cpp.Params.Convert.{RoundTrips}
use rpp_cpp.Params.Struct.{Member, Reflected, struct_to, struct_from, struct, not_found}

module _ {T : Type 0} where
  -- No member of the list has that name.
  abbrev pub Fresh : String → List (Member T) → Type 0
  Fresh name [] = Unit
  Fresh name (m ∷ ms) = ((m.name == name) ≡ false) × Fresh name ms

  abbrev pub Distinct : List (Member T) → Type 0
  Distinct [] = Unit
  Distinct (m ∷ ms) = Fresh m.name ms × Distinct ms

  -- Each member's value round-trips through its own converter.
  abbrev pub MembersRoundTrip : T → List (Member T) → Type 0
  MembersRoundTrip x [] = Unit
  MembersRoundTrip x (m ∷ ms) = RoundTrips m.converter (m.get x) × MembersRoundTrip x ms

  -- The members of `x` written one after the other into `result`.
  abbrev pub assign : T → List (Member T) → T → T
  assign x [] result = result
  assign x (m ∷ ms) result = assign x ms (m.put (m.get x) result)

  find-struct_to-Fresh :
      (x : T) (name : String) (ms : List (Member T)) (o : Dict ParameterValue)
      → Fresh name ms
      → find name (struct_to x ms o) ≡ find name o
  unfolding struct_to
  find-struct_to-Fresh x name [] o h = refl
  find-struct_to-Fresh x name (m ∷ ms) o (h, hs) = rw (
    find-struct_to-Fresh x name ms (insert m.name (m.converter.to (m.get x)) o) hs,
    find-insert,
    h,
  )

  abbrev Holds : T → Dict ParameterValue → List (Member T) → Type 0
  Holds x o [] = Unit
  Holds x o (m ∷ ms) = (find m.name o ≡ some (m.converter.to (m.get x))) × Holds x o ms

  struct_to-Holds :
      (x : T) (ms : List (Member T)) (o : Dict ParameterValue)
      → Distinct ms
      → Holds x (struct_to x ms o) ms
  unfolding struct_to
  struct_to-Holds x [] o d = tt
  struct_to-Holds x (m ∷ ms) o (f, d) = (
    rw (find-struct_to-Fresh x m.name ms (insert m.name (m.converter.to (m.get x)) o) f)
        (find-insert_self m.name (m.converter.to (m.get x)) o),
    struct_to-Holds x ms (insert m.name (m.converter.to (m.get x)) o) d,
  )

  struct_from-assign :
      (struct_name : String) (x : T) (o : Dict ParameterValue) (ms : List (Member T)) (result : T)
      → Holds x o ms
      → MembersRoundTrip x ms
      → struct_from struct_name o ms result ≡ ok (assign x ms result)
  unfolding struct_from
  struct_from-assign struct_name x o [] result h r = refl
  struct_from-assign struct_name x o (m ∷ ms) result (h, hs) (r, rs) =
      rw (h, r) (struct_from-assign struct_name x o ms (m.put (m.get x) result) hs rs)

  -- A struct is read back unchanged if its members have distinct names, each member round-trips,
  -- and the members make up the whole struct.
  pub struct-RoundTrips :
      (r : Reflected T) (x : T)
      → Distinct r.members
      → MembersRoundTrip x r.members
      → assign x r.members r.default_value ≡ x
      → RoundTrips (struct r) x
  unfolding struct
  struct-RoundTrips r x d h whole = rw entries-object_of (
      rw
        (struct_from-assign r.struct_name x _ r.members r.default_value
          (struct_to-Holds x r.members [] d) h)
        (rw whole refl))

  -- A member that the object lacks makes the conversion throw, naming the member and the struct,
  -- once the members before it have converted.
  pub struct_from-missing :
      (struct_name : String) (before after : List (Member T)) (m : Member T)
      (o : Dict ParameterValue) (start reached : T)
      → struct_from struct_name o before start ≡ ok reached
      → find m.name o ≡ none
      → struct_from struct_name o (before ++ m ∷ after) start
        ≡ err (runtime_error (not_found m.name struct_name))
  unfolding struct_from
  struct_from-missing n [] after m o start reached h e = rw e
  struct_from-missing n (b ∷ before) after m o start reached h e =
      let (v, p, h') = >>=-eq-ok (or_throw (find b.name o) _) _ h in
      let (x, q, h'') = >>=-eq-ok (b.converter.from v) _ h' in
      rw (p, q) (struct_from-missing n before after m o (b.put x start) reached h'' e)
