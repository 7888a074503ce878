-- ===== src/Text/Snake.antt =====
-- RppDataManager::to_snake_case of include/rpp_cpp/data_manager.hpp.
use Prim.Native.Char.{Char, code}
use rpp_cpp.Base.{
  ◌≡◌, refl, Bool, true, false, not, String, ◌&&◌, ◌||◌, nat_eq, if◌then◌else◌, arith, Option, none,
  some,
}
use text.Mathlib.TextEquality.{Char-path}
use rpp_cpp.Text.Lower.{is_upper, to_lower, is_upper-to_lower, code-to_lower}

-- The lambda is_special_char.
is_special_char : Char → Bool
is_special_char c = nat_eq (code c) b'-' || nat_eq (code c) b':' || nat_eq (code c) b'_'

-- `i > 0 && !is_special_char(name[i - 1])`, given the character before, if there is one.
after_plain_char : Option Char → Bool
after_plain_char none = false
after_plain_char (some c) = not (is_special_char c)

-- One round of the loop: the characters that it appends, before those of the later rounds.
append_char : Option Char → Char → String → String
unfolding is_special_char after_plain_char
append_char before c rest =
    if is_special_char c
    then String.◌∷◌ "_" rest
    else if is_upper c
    then (if after_plain_char before
        then String.◌∷◌ "_" (String.◌∷◌ (to_lower c) rest)
        else String.◌∷◌ (to_lower c) rest)
    else String.◌∷◌ c rest

to_snake_case_after : Option Char → String → String
unfolding append_char
to_snake_case_after before String.[] = String.[]
to_snake_case_after before (String.◌∷◌ c name) =
    append_char before c (to_snake_case_after (some c) name)

unfoldable pub to_snake_case : String → String
unfolding to_snake_case_after
to_snake_case name = to_snake_case_after none name

-- A character that stands in snake case: no upper case, no dash and no colon.
abbrev pub is_snake_char : Char → Bool
is_snake_char c = not (is_upper c) && not (nat_eq (code c) b'-' || nat_eq (code c) b':')

abbrev pub IsSnake : String → Type 0
IsSnake String.[] = Unit
IsSnake (String.◌∷◌ c s) = (is_snake_char c ≡ true) × IsSnake s

underscore_snake : is_snake_char "_" ≡ true
unfolding is_upper
underscore_snake = refl

to_lower_snake :
    (c : Char) → is_special_char c ≡ false → is_upper c ≡ true → is_snake_char (to_lower c) ≡ true
to_lower_snake c h u = ground (arith, code-to_lower c u, is_upper-to_lower c)

append_char-IsSnake :
    (before : Option Char) (c : Char) (rest : String)
    → IsSnake rest
    → IsSnake (append_char before c rest)
unfolding append_char
append_char-IsSnake before c rest h = ground (arith, underscore_snake, to_lower_snake c)

to_snake_case_after-IsSnake :
    (before : Option Char) (s : String) → IsSnake (to_snake_case_after before s)
unfolding to_snake_case_after
to_snake_case_after-IsSnake before String.[] = tt
to_snake_case_after-IsSnake before (String.◌∷◌ c s) =
    append_char-IsSnake before c (to_snake_case_after (some c) s)
      (to_snake_case_after-IsSnake (some c) s)

append_char_id :
    (before : Option Char) (c : Char) (rest : String)
    → is_snake_char c ≡ true
    → append_char before c rest ≡ String.◌∷◌ c rest
unfolding append_char
append_char_id before c rest h = ground (arith, Char-path c "_")

to_snake_case_after_id :
    (before : Option Char) (s : String) → IsSnake s → to_snake_case_after before s ≡ s
unfolding to_snake_case_after
to_snake_case_after_id before String.[] h = refl
to_snake_case_after_id before (String.◌∷◌ c s) (h, hs) =
    rw (to_snake_case_after_id (some c) s hs) (append_char_id before c s h)

-- The plugin id of a name has no upper case, dash or colon, and a name that has none of these is its
-- own id.
pub to_snake_case_lem :
    (name : String) → IsSnake (to_snake_case name) × (IsSnake name → to_snake_case name ≡ name)
unfolding to_snake_case
to_snake_case_lem name = (to_snake_case_after-IsSnake none name, to_snake_case_after_id none name)
