-- ===== src/ListDefinitions/Texts.antt =====
-- Lists of strings: the elements are read as C strings.
use Prim.Native.Char.{Char, code}
use text.Mathlib.TextLemmas.{nil-append, cons-append}
use rpp_cpp.Base.{
  Bool, sym, ℕ, ◌<◌, ◌≡◌, ◌≢◌, ◌⊎◌, inl, inr, refl, ap, ◌∙◌, true, false, String, ◌<>◌, List, [],
  ◌∷◌, map, length, get_elem?, some, arith, nat_eq, if◌then◌else◌,
}
use rpp_cpp.Base.Result.{Result, ok, ◌>>=◌, >>=-eq-ok, ok_inj}
use mathlib.Core.Path.{subst}
use rpp_cpp.ListDefinitions.{
  Messages, Buffer, size, text_list_init, set_element, get_element, text_get_element, from_c_str,
}
use rpp_cpp.ListDefinitions.Sequence.{
  Op, resize, assign, read, measure, Reply, done, value, count, after, reply_of, replies, InRange,
}
use rpp_cpp.ListDefinitions.Simulated.{step, run}

abbrev pub NoNull : String → Type 0
NoNull String.[] = Unit
NoNull (String.◌∷◌ c s) = (code c ≢ 0) × NoNull s

-- The text is all that stands before the first null character.
abbrev pub IsBeforeNull : String → String → Type 0
IsBeforeNull x t =
    ((t ≡ x) × NoNull t)
    ⊎ ((c : Char) × (rest : String) × (code c ≡ 0) × (x ≡ t <> String.◌∷◌ c rest) × NoNull t)

from_c_str-IsBeforeNull : (x : String) → IsBeforeNull x (from_c_str x)
unfolding from_c_str
from_c_str-IsBeforeNull String.[] = inl (refl, tt)
from_c_str-IsBeforeNull (String.◌∷◌ c s) =
    read_one (nat_eq (code c) 0) refl (from_c_str-IsBeforeNull s)
  where
    read_one :
        (b : Bool)
        → nat_eq (code c) 0 ≡ b
        → IsBeforeNull s (from_c_str s)
        → IsBeforeNull (String.◌∷◌ c s) (if b then String.[] else String.◌∷◌ c (from_c_str s))
    read_one true e h = inr (c, s, ground (arith, e), sym (nil-append (String.◌∷◌ c s)), tt)
    read_one false e (inl (p, n)) = inl (ap (String.◌∷◌ c) p, (ground (arith, e), n))
    read_one false e (inr (d, rest, z, p, n)) = inr (
      d,
      rest,
      z,
      ap (String.◌∷◌ c) p ∙ sym (cons-append c (from_c_str s) (String.◌∷◌ d rest)),
      (ground (arith, e), n),
    )

-- The reply of a read, of what the message holds.
abbrev pub as_text : Reply String → Reply String
as_text done = done
as_text (value x) = value (from_c_str x)
as_text (count n) = count n

module _ (texts : Messages String) where
  -- The call on a list of strings.
  text_step :
      Op String
      → Buffer texts × texts.Memory
      → Result (Reply String × (Buffer texts × texts.Memory))
  text_step (resize n) (l, memory) = do s ← text_list_init texts n l memory; ok (done, s)
  text_step (assign i x) (l, memory) = do
    written ← set_element texts i x l memory
    ok (done, (l, written))
  text_step (read i) (l, memory) = do
    x ← text_get_element texts i l memory
    ok (value x, (l, memory))
  text_step measure (l, memory) = ok (count (size texts memory l), (l, memory))

  unfoldable pub run_texts :
      List (Op String) → Buffer texts × texts.Memory → Result (List (Reply String))
  unfolding text_step
  run_texts [] s = ok []
  run_texts (op ∷ ops) s = do
    (reply, next) ← text_step op s
    rest ← run_texts ops next
    ok (reply ∷ rest)

  abbrev replied :
      Reply String
      → Buffer texts × texts.Memory
      → Result (Reply String × (Buffer texts × texts.Memory))
  replied r s = ok (r, s)

  step-text_step :
      (op : Op String) (s next : Buffer texts × texts.Memory) (r : Reply String)
      → step texts "" (text_list_init texts) op s ≡ ok (r, next)
      → text_step op s ≡ ok (as_text r, next)
  unfolding step text_step text_get_element get_element
  step-text_step (resize n) (l, memory) next r e =
      let (s, f, e1) = >>=-eq-ok (text_list_init texts n l memory) _ e in
      let q : done ≡ r = cc e1 in
      let p : s ≡ next = cc e1 in
      rw f (subst (λ r. replied done s ≡ replied (as_text r) next) q (ap (replied done) p))
  step-text_step (assign i x) (l, memory) next r e =
      let (w, f, e1) = >>=-eq-ok (set_element texts i x l memory) _ e in
      let q : done ≡ r = cc e1 in
      let p : ◌≡◌ {A = Buffer texts × texts.Memory} (l, w) next = cc e1 in
      rw f (subst (λ r. replied done (l, w) ≡ replied (as_text r) next) q (ap (replied done) p))
  step-text_step (read i) (l, memory) next r e = ground (arith, e)
  step-text_step measure (l, memory) next r e = ground (arith, e)

  pub run-run_texts :
      (ops : List (Op String)) (s : Buffer texts × texts.Memory) (rs : List (Reply String))
      → run texts "" (text_list_init texts) ops s ≡ ok rs
      → run_texts ops s ≡ ok (map as_text rs)
  unfolding run run_texts
  run-run_texts [] s rs e = ap (λ rs. ok (map as_text rs)) (ok_inj e)
  run-run_texts (op ∷ ops) s rs e =
      let ((r, next), f, e1) = >>=-eq-ok (step texts "" (text_list_init texts) op s) _ e in
      let (rest, g, e2) = >>=-eq-ok (run texts "" (text_list_init texts) ops next) _ e1 in
      rw (step-text_step op s next r f)
        (rw (run-run_texts ops next rest g) (ap (λ rs. ok (map as_text rs)) (ok_inj e2)))

-- What a list of strings replies, given the sequence of texts that it stands for: a read gives what
-- stands before the first null character of the text, the other calls are those of the sequence.
abbrev pub AnswersOne : Op String → List String → Reply String → Type 0
AnswersOne (read i) xs r =
    (x : String) × (t : String) × (get_elem? xs i ≡ some x) × (r ≡ value t) × IsBeforeNull x t
AnswersOne (resize n) xs r = r ≡ done
AnswersOne (assign i x) xs r = r ≡ done
AnswersOne measure xs r = r ≡ count (length xs)

abbrev pub Answers : List (Op String) → List String → List (Reply String) → Type 0
Answers [] xs [] = Unit
Answers (op ∷ ops) xs (r ∷ rs) = AnswersOne op xs r × Answers ops (after "" op xs) rs
Answers _ xs _ = ⊥

get_elem?-below :
    (xs : List String) (i : ℕ) → i < length xs → (x : String) × (get_elem? xs i ≡ some x)
get_elem?-below [] i h = absurd (omega arith)
get_elem?-below (x ∷ xs) ℕ.zero h = (x, refl)
get_elem?-below (x ∷ xs) (ℕ.suc i) h = get_elem?-below xs i (omega arith)

pub replies-Answers :
    (ops : List (Op String)) (xs : List String)
    → InRange "" ops xs
    → Answers ops xs (map as_text (replies "" ops xs))
replies-Answers [] xs h = tt
replies-Answers (resize n ∷ ops) xs (h, hs) = (refl, replies-Answers ops _ hs)
replies-Answers (assign i x ∷ ops) xs (h, hs) = (refl, replies-Answers ops _ hs)
replies-Answers (measure ∷ ops) xs (h, hs) = (refl, replies-Answers ops _ hs)
replies-Answers (read i ∷ ops) xs (h, hs) =
    let (x, e) = get_elem?-below xs i h in
    (
      (x, from_c_str x, e, rw (e, as_text, reply_of) refl, from_c_str-IsBeforeNull x),
      replies-Answers ops _ hs,
    )
