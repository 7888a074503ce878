-- ===== src/Process/Quoting/Rules.antt =====
-- The documented rules by which CommandLineToArgvW splits a command line.
use rpp_cpp.Base.{ℕ, zero, suc, Bool, true, false, not, List, [], ◌∷◌, ◌++◌, nat_eq, if◌then◌else◌}
use rpp_cpp.Process.Quoting.{replicate}

-- Between two arguments; or inside one, with quotes open or not, after so many backslashes.
pub data Mode : Type 0 where
  between : Mode
  word : Bool → ℕ → Mode

abbrev pub half : ℕ → ℕ
half zero = 0
half (suc zero) = 0
half (suc (suc n)) = suc (half n)

abbrev pub is_odd : ℕ → Bool
is_odd zero = false
is_odd (suc n) = not (is_odd n)

-- The rules: a space outside quotes ends an argument. A quote after 2n backslashes opens or closes
-- quotes, after 2n + 1 it is itself a character, and n backslashes remain. Other backslashes stand
-- for themselves.
abbrev pub next : Mode → ℕ → Mode
next between c =
    if nat_eq c 92
    then word false 1
    else if nat_eq c 34
    then word true 0
    else if nat_eq c 32
    then between
    else word false 0
next (word quoted n) c =
    if nat_eq c 92
    then word quoted (suc n)
    else if nat_eq c 34
    then word (if is_odd n then quoted else not quoted) 0
    else if nat_eq c 32
    then (if quoted then word true 0 else between)
    else word quoted 0

abbrev pub joined : Mode → ℕ → List ℕ × List (List ℕ) → List ℕ × List (List ℕ)
joined between c (rest, args) =
    if nat_eq c 92
    then ([], rest ∷ args)
    else if nat_eq c 34
    then ([], rest ∷ args)
    else if nat_eq c 32
    then ([], args)
    else ([], (c ∷ rest) ∷ args)
joined (word quoted n) c (rest, args) =
    if nat_eq c 92
    then (rest, args)
    else if nat_eq c 34
    then (replicate (half n) 92 ++ (if is_odd n then 34 ∷ rest else rest), args)
    else if nat_eq c 32
    then (if quoted then (replicate n 92 ++ 32 ∷ rest, args) else (replicate n 92, args))
    else (replicate n 92 ++ c ∷ rest, args)

-- The rest of the argument that is being read, and the arguments after it.
unfoldable pub scan : Mode → List ℕ → List ℕ × List (List ℕ)
scan between [] = ([], [])
scan (word quoted n) [] = (replicate n 92, [])
scan m (c ∷ line) = joined m c (scan (next m c) line)

abbrev pub arguments_of : List ℕ → List (List ℕ)
arguments_of line = (scan between line).1
