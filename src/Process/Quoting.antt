-- ===== src/Process/Quoting.antt =====
-- quote_windows_argument of src/child_process.cpp, and the command line that start builds of the
-- arguments on Windows. Text is a list of wide characters; the arguments are already converted.
pub mod Rules
pub mod Parsed
use rpp_cpp.Base.{
  ℕ, zero, suc, ◌+◌, ◌*◌, Bool, true, false, List, [], ◌∷◌, ◌++◌, is_empty, nat_eq, if◌then◌else◌,
}

-- std::wstring::append(count, character)
abbrev pub replicate : ℕ → ℕ → List ℕ
replicate zero c = []
replicate (suc n) c = c ∷ replicate n c

-- What one round of the loop appends, and the count of backslashes after it.
abbrev pub appended : ℕ → ℕ → List ℕ
appended backslashes c =
    if nat_eq c 92
    then []
    else if nat_eq c 34
    then replicate (backslashes * 2 + 1) 92 ++ 34 ∷ []
    else replicate backslashes 92 ++ c ∷ []

abbrev pub counted : ℕ → ℕ → ℕ
counted backslashes c = if nat_eq c 92 then suc backslashes else 0

-- The loop, and what follows it.
unfoldable pub quote_from : ℕ → List ℕ → List ℕ
quote_from backslashes [] = replicate (backslashes * 2) 92 ++ 34 ∷ []
quote_from backslashes (c ∷ argument) =
    appended backslashes c ++ quote_from (counted backslashes c) argument

unfoldable pub quote_windows_argument : List ℕ → List ℕ
unfolding quote_from
quote_windows_argument argument = 34 ∷ quote_from 0 argument

unfoldable pub add_arguments : List ℕ → List (List ℕ) → List ℕ
unfolding quote_windows_argument
add_arguments line [] = line
add_arguments line (argument ∷ args) =
    add_arguments
      ((if is_empty line then line else line ++ 32 ∷ []) ++ quote_windows_argument argument) args

unfoldable pub command_line : List (List ℕ) → List ℕ
unfolding add_arguments
command_line args = add_arguments [] args
