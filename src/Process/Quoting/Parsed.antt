-- ===== src/Process/Quoting/Parsed.antt =====
-- A Windows command line, split by the documented rules of CommandLineToArgvW, gives back the
-- arguments that it was built of.
use rpp_cpp.Base.{
  ℕ, zero, suc, ◌+◌, ◌*◌, ◌≡◌, refl, sym, ap, ◌∙◌, ◌⊎◌, inl, inr, Bool, true, false, not, List, [],
  ◌∷◌, ◌++◌, nat_eq, arith,
}
use rpp_cpp.Process.Quoting.{
  replicate, appended, counted, quote_from, quote_windows_argument, add_arguments, command_line,
}
use rpp_cpp.Process.Quoting.Rules.{word, half, is_odd, next, joined, scan, arguments_of}
use mathlib.Core.List.{append_assoc, append-nil}

twice : (n : ℕ) → suc n * 2 ≡ suc (suc (n * 2))
twice n = omega arith

twice_suc : (n : ℕ) → suc n * 2 + 1 ≡ suc (suc (n * 2 + 1))
twice_suc n = omega arith

half-double : (n : ℕ) → half (n * 2) ≡ n
half-double zero = refl
half-double (suc n) = rw (twice n) (ap (λ (k : ℕ). suc k) (half-double n))

half-double_suc : (n : ℕ) → half (n * 2 + 1) ≡ n
half-double_suc zero = refl
half-double_suc (suc n) = rw (twice_suc n) (ap (λ (k : ℕ). suc k) (half-double_suc n))

not-not : (b : Bool) → not (not b) ≡ b
not-not true = refl
not-not false = refl

is_odd-double : (n : ℕ) → is_odd (n * 2) ≡ false
is_odd-double zero = refl
is_odd-double (suc n) = rw (twice n, is_odd-double n) refl

is_odd-double_suc : (n : ℕ) → is_odd (n * 2 + 1) ≡ true
is_odd-double_suc zero = refl
is_odd-double_suc (suc n) = rw (twice_suc n, is_odd-double_suc n) refl

-- Backslashes are counted, and add nothing yet.
scan-backslashes :
    (quoted : Bool) (k m : ℕ) (line : List ℕ)
    → scan (word quoted k) (replicate m 92 ++ line) ≡ scan (word quoted (k + m)) line
unfolding scan
scan-backslashes quoted k zero line = ground arith
scan-backslashes quoted k (suc m) line = rw (k_suc k m) (scan-backslashes quoted (suc k) m line)
  where
    k_suc : (k m : ℕ) → k + suc m ≡ suc k + m
    k_suc k m = omega arith

-- n backslashes, in an argument in quotes, and what follows them.
scan-pending :
    (n c : ℕ) (line : List ℕ)
    → scan (word true 0) (replicate n 92 ++ c ∷ line)
      ≡ joined (word true n) c (scan (next (word true n) c) line)
unfolding scan
scan-pending n c line =
    scan-backslashes true 0 n (c ∷ line)
    ∙ ap (λ (k : ℕ). scan (word true k) (c ∷ line)) (omega arith)

replicate-shift :
    (n : ℕ) (c : ℕ) (xs : List ℕ) → replicate n c ++ c ∷ xs ≡ c ∷ (replicate n c ++ xs)
replicate-shift zero c xs = refl
replicate-shift (suc n) c xs = ap (λ ys. c ∷ ys) (replicate-shift n c xs)

abbrev prefixed : List ℕ → List ℕ × List (List ℕ) → List ℕ × List (List ℕ)
prefixed before (rest, args) = (before ++ rest, args)

kind_of : (c : ℕ) → (c ≡ 92) ⊎ ((c ≡ 34) ⊎ ((nat_eq c 92 ≡ false) × (nat_eq c 34 ≡ false)))
kind_of c = ground arith

space_or : (c : ℕ) → (c ≡ 32) ⊎ (nat_eq c 32 ≡ false)
space_or c = ground arith

-- A character that is no backslash and no quote stands for itself in quotes, a space too.
joined-other :
    (n c : ℕ) (line : List ℕ)
    → nat_eq c 92 ≡ false
    → nat_eq c 34 ≡ false
    → joined (word true n) c (scan (next (word true n) c) line)
      ≡ prefixed (replicate n 92 ++ c ∷ []) (scan (word true 0) line)
joined-other n c line e f = elim (space_or c) [
  | inl g ↦ rw (g, append_assoc (replicate n 92) (32 ∷ []) (scan (word true 0) line).0) refl
  | inr g ↦ rw (e, f, g, append_assoc (replicate n 92) (c ∷ []) (scan (word true 0) line).0) refl
]

module _ (n : ℕ) (argument line : List ℕ) where
  abbrev Quoted : ℕ → Type 0
  Quoted c =
      scan (word true 0) (appended n c ++ (quote_from (counted n c) argument ++ line))
      ≡ prefixed (replicate n 92 ++ c ∷ argument) (scan (word false 0) line)

  abbrev After : ℕ → Type 0
  After k =
      scan (word true 0) (quote_from k argument ++ line)
      ≡ prefixed (replicate k 92 ++ argument) (scan (word false 0) line)

  Quoted-backslash : After (suc n) → Quoted 92
  Quoted-backslash ih = rw (replicate-shift n 92 argument) ih

  Quoted-quote : After 0 → Quoted 34
  Quoted-quote ih =
      rw
        (
          append_assoc (replicate (n * 2 + 1) 92) (34 ∷ []) (quote_from 0 argument ++ line),
          scan-pending (n * 2 + 1) 34 (quote_from 0 argument ++ line),
          is_odd-double_suc n,
          half-double_suc n,
          ih,
          append_assoc (replicate n 92) (34 ∷ argument) (scan (word false 0) line).0,
        )
        refl

  Quoted-other : (c : ℕ) → nat_eq c 92 ≡ false → nat_eq c 34 ≡ false → After 0 → Quoted c
  Quoted-other c e f ih =
      rw
        (
          e,
          f,
          append_assoc (replicate n 92) (c ∷ []) (quote_from 0 argument ++ line),
          scan-pending n c (quote_from 0 argument ++ line),
          joined-other n c (quote_from 0 argument ++ line) e f,
          ih,
        )
        (ap (λ xs. (xs, (scan (word false 0) line).1))
          (append_assoc (replicate n 92) (c ∷ []) (argument ++ (scan (word false 0) line).0)
            ∙ sym (append_assoc (replicate n 92) (c ∷ argument) (scan (word false 0) line).0)))

-- An argument after its opening quote, with n backslashes still to be written, reads as those
-- backslashes and the argument; then the quotes are closed.
scan-quote_from :
    (n : ℕ) (argument line : List ℕ)
    → scan (word true 0) (quote_from n argument ++ line)
      ≡ prefixed (replicate n 92 ++ argument) (scan (word false 0) line)
unfolding quote_from
scan-quote_from n [] line =
    rw
      (
        append_assoc (replicate (n * 2) 92) (34 ∷ []) line,
        scan-pending (n * 2) 34 line,
        is_odd-double n,
        half-double n,
      )
      (rw (append_assoc (replicate n 92) [] (scan (word false 0) line).0) refl)
scan-quote_from n (c ∷ argument) line =
    rw (append_assoc (appended n c) (quote_from (counted n c) argument) line) (elim (kind_of c) [
      | inl e ↦ rw e (Quoted-backslash n argument line (scan-quote_from (suc n) argument line))
      | inr (inl e) ↦ rw e (Quoted-quote n argument line (scan-quote_from 0 argument line))
      | inr (inr (e, f)) ↦ Quoted-other n argument line c e f (scan-quote_from 0 argument line)
    ])

abbrev spaced : List (List ℕ) → List ℕ
spaced [] = []
spaced (argument ∷ args) = 32 ∷ (quote_windows_argument argument ++ spaced args)

add_arguments-spaced :
    (c : ℕ) (line : List ℕ) (args : List (List ℕ))
    → add_arguments (c ∷ line) args ≡ c ∷ (line ++ spaced args)
unfolding add_arguments
add_arguments-spaced c line [] = rw (append-nil line) refl
add_arguments-spaced c line (argument ∷ args) =
    add_arguments-spaced c ((line ++ 32 ∷ []) ++ quote_windows_argument argument) args
    ∙ ap (λ xs. c ∷ xs)
        (append_assoc (line ++ 32 ∷ []) (quote_windows_argument argument) (spaced args)
          ∙ append_assoc line (32 ∷ []) (quote_windows_argument argument ++ spaced args))

scan-spaced : (args : List (List ℕ)) → scan (word false 0) (spaced args) ≡ ([], args)
unfolding scan quote_windows_argument
scan-spaced [] = refl
scan-spaced (argument ∷ args) =
    rw (scan-quote_from 0 argument (spaced args), scan-spaced args, append-nil argument) refl

-- The command line that start builds reads back, by the rules, as exactly the arguments, whatever
-- backslashes, quotes and spaces they hold, empty arguments included.
pub arguments_of-command_line : (args : List (List ℕ)) → arguments_of (command_line args) ≡ args
unfolding command_line add_arguments scan quote_windows_argument
arguments_of-command_line [] = refl
arguments_of-command_line (argument ∷ args) =
    rw
      (
        add_arguments-spaced 34 (quote_from 0 argument) args,
        scan-quote_from 0 argument (spaced args),
        scan-spaced args,
        append-nil argument,
      )
      refl
