-- ===== src/Text/Lower.antt =====
-- std::isupper, std::tolower, and to_lower_copy of include/rpp_cpp/data_model.hpp.
use Prim.Native.Char.{Char, code}
use rpp_cpp.Base.{
  ◌≤◌, ◌≡◌, refl, ◌⊎◌, inr, Bool, true, false, String, ◌||◌, nat_eq, if◌then◌else◌, arith,
}

abbrev pub upper_case : String
upper_case = "ABCDEFGHIJKLMNOPQRSTUVWXYZ"

abbrev pub lower_case : String
lower_case = "abcdefghijklmnopqrstuvwxyz"

unfoldable pub has_char : Char → String → Bool
has_char c String.[] = false
has_char c (String.◌∷◌ d s) = nat_eq (code d) (code c) || has_char c s

-- std::isupper
unfoldable pub is_upper : Char → Bool
unfolding has_char
is_upper c = has_char c upper_case

-- The character of the second text at the place where the first has `c`, or `c` itself.
pick : Char → String → String → Char
pick c String.[] to = c
pick c (String.◌∷◌ d from) String.[] = c
pick c (String.◌∷◌ d from) (String.◌∷◌ e to) =
    if nat_eq (code d) (code c) then e else pick c from to

-- std::tolower
unfoldable pub to_lower : Char → Char
unfolding pick
to_lower c = pick c upper_case lower_case

unfoldable pub to_lower_copy : String → String
to_lower_copy String.[] = String.[]
to_lower_copy (String.◌∷◌ c s) = String.◌∷◌ (to_lower c) (to_lower_copy s)

-- No character of the second text is in the first.
abbrev Apart : String → String → Type 0
Apart from String.[] = Unit
Apart from (String.◌∷◌ e to) = (has_char e from ≡ false) × Apart from to

-- Two texts of one length.
abbrev Paired : String → String → Type 0
Paired String.[] String.[] = Unit
Paired String.[] (String.◌∷◌ e to) = ⊥
Paired (String.◌∷◌ d from) String.[] = ⊥
Paired (String.◌∷◌ d from) (String.◌∷◌ e to) = Paired from to

pick-cases :
    (c : Char) (all from to : String)
    → Paired from to
    → Apart all to
    → (has_char (pick c from to) all ≡ false) ⊎ ((pick c from to ≡ c) × (has_char c from ≡ false))
unfolding pick has_char
pick-cases c all String.[] to p a = inr (refl, refl)
pick-cases c all (String.◌∷◌ d from) String.[] p a = elim p [ ]
pick-cases c all (String.◌∷◌ d from) (String.◌∷◌ e to) p (h, a) =
    ground (arith, pick-cases c all from to p a)

pick-absent : (c : Char) (from to : String) → has_char c from ≡ false → pick c from to ≡ c
unfolding pick has_char
pick-absent c String.[] to h = refl
pick-absent c (String.◌∷◌ d from) String.[] h = refl
pick-absent c (String.◌∷◌ d from) (String.◌∷◌ e to) h = ground (arith, pick-absent c from to)

pick-member :
    (c : Char) (from to : String)
    → Paired from to
    → has_char c from ≡ true
    → has_char (pick c from to) to ≡ true
unfolding pick has_char
pick-member c String.[] to p h = cc
pick-member c (String.◌∷◌ d from) String.[] p h = elim p [ ]
pick-member c (String.◌∷◌ d from) (String.◌∷◌ e to) p h = ground (arith, pick-member c from to p)

lower_case-code : (c : Char) → has_char c lower_case ≡ true → 97 ≤ code c
unfolding has_char
lower_case-code c h = ground arith

alphabets-Apart : Apart upper_case lower_case
unfolding has_char
alphabets-Apart = assumption refl

pub is_upper-to_lower : (c : Char) → is_upper (to_lower c) ≡ false
unfolding is_upper to_lower
is_upper-to_lower c =
    ground (arith, pick-cases c upper_case upper_case lower_case tt alphabets-Apart)

pub to_lower-of-not-upper : (c : Char) → is_upper c ≡ false → to_lower c ≡ c
unfolding is_upper to_lower
to_lower-of-not-upper c h = pick-absent c upper_case lower_case h

pub code-to_lower : (c : Char) → is_upper c ≡ true → 97 ≤ code (to_lower c)
unfolding is_upper to_lower
code-to_lower c h =
    lower_case-code (pick c upper_case lower_case) (pick-member c upper_case lower_case tt h)

-- Lowering a text twice is lowering it once.
pub to_lower_copy_idem : (s : String) → to_lower_copy (to_lower_copy s) ≡ to_lower_copy s
unfolding to_lower_copy
to_lower_copy_idem String.[] = refl
to_lower_copy_idem (String.◌∷◌ c s) =
    rw (to_lower-of-not-upper (to_lower c) (is_upper-to_lower c), to_lower_copy_idem s)
