-- ===== src/Logger/Once.antt =====
-- What a place that logs once writes over all of its calls.
use rpp_cpp.Base.{◌≡◌, refl, ap, Bool, true, false, List, [], ◌∷◌, none, some}
use rpp_cpp.Base.Result.{Result, ok, err}
use rpp_cpp.Logger.{Line, log_once}

-- The lines that the calls write, one after the other.
unfoldable pub written : Bool → List (Result Line) → List Line
unfolding log_once
written flag [] = []
written flag (call ∷ calls) =
    let (next, r) = log_once flag call in
    let rest = written next calls in
    elim r [ ok (some line) ↦ line ∷ rest | ok none ↦ rest | err e ↦ rest ]

-- The first call whose message can be formatted.
abbrev pub first_line : List (Result Line) → List Line
first_line [] = []
first_line (ok line ∷ calls) = line ∷ []
first_line (err e ∷ calls) = first_line calls

written-set : (calls : List (Result Line)) → written true calls ≡ []
unfolding written log_once
written-set [] = refl
written-set (call ∷ calls) = written-set calls

-- A place that logs once writes the first message that can be formatted and no other, however often
-- it is reached; calls whose message cannot be formatted do not use it up.
pub written-first : (calls : List (Result Line)) → written false calls ≡ first_line calls
unfolding written log_once
written-first [] = refl
written-first (ok line ∷ calls) = ap (◌∷◌ line) (written-set calls)
written-first (err e ∷ calls) = written-first calls
