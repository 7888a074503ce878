-- ===== src/Text/Separator.antt =====
-- std::string::find("::") with the two std::string::substr calls that follow it, in
-- src/rpp_paths.cpp and include/rpp_cpp/data_manager.hpp.
use Prim.Native.Char.{Char, code}
use rpp_cpp.Base.{
  Bool-cases, Option-cases, inl, inr, ◌≡◌, refl, ap, ◌∙◌, true, false, String, ◌<>◌, ◌&&◌, nat_eq,
  if◌then◌else◌, arith, Option, none, some,
}
use text.Mathlib.TextLemmas.{nil-append, cons-append, cons-eq-cons}
use text.Mathlib.TextEquality.{Char-path}

abbrev prepend : Char → Option (String × String) → Option (String × String)
prepend c none = none
prepend c (some (before, after)) = some (String.◌∷◌ c before, after)

-- The texts before and after the first "::", or `none` for npos.
unfoldable pub split_at_separator : String → Option (String × String)
split_at_separator String.[] = none
split_at_separator (String.◌∷◌ c String.[]) = none
split_at_separator (String.◌∷◌ c (String.◌∷◌ d s)) =
    let rest = split_at_separator (String.◌∷◌ d s) in
    if nat_eq (code c) b':' && nat_eq (code d) b':' then some ("", s) else prepend c rest

separator_append : (after : String) → "::" <> after ≡ String.◌∷◌ ":" (String.◌∷◌ ":" after)
separator_append after =
    cons-append ":" ":" after
    ∙ ap (String.◌∷◌ ":") (cons-append ":" "" after ∙ ap (String.◌∷◌ ":") (nil-append after))

at_separator :
    (c d : Char) (s : String)
    → (nat_eq (code c) b':' && nat_eq (code d) b':') ≡ true
    → String.◌∷◌ c (String.◌∷◌ d s) ≡ "::" <> s
at_separator c d s e = rw separator_append (
    cc (
      Char-path c ":" (let p : code c ≡ b':' = ground arith in p),
      Char-path d ":" (let p : code d ≡ b':' = ground arith in p),
    ))

not_yet :
    (c d : Char) (s before after : String)
    → (nat_eq (code c) b':' && nat_eq (code d) b':') ≡ false
    → String.◌∷◌ d s ≡ before <> "::" <> after
    → split_at_separator (before <> ":") ≡ none
    → split_at_separator (String.◌∷◌ c before <> ":") ≡ none
unfolding split_at_separator
not_yet c d s String.[] after e p h =
    let q = (cons-eq-cons.0 (rw (nil-append, separator_append) at p)).0 in
    rw cons-append (ground (arith, ap code q))
not_yet c d s (String.◌∷◌ x before) after e p h =
    let q = (cons-eq-cons.0 (rw cons-append at p)).0 in
    let h' = rw (cons-append x) at h in
    rw (cons-append c, cons-append x) (ground (arith, ap code q))

-- What is found is a decomposition of the name, at the first separator: none lies before it, also
-- none that the separator's own first colon would complete.
pub split_at_separator_sound :
    (name before after : String)
    → split_at_separator name ≡ some (before, after)
    → (name ≡ before <> "::" <> after) × (split_at_separator (before <> ":") ≡ none)
unfolding split_at_separator
split_at_separator_sound String.[] before after h = cc
split_at_separator_sound (String.◌∷◌ c String.[]) before after h = cc
split_at_separator_sound (String.◌∷◌ c (String.◌∷◌ d s)) before after h =
    elim (Bool-cases (nat_eq (code c) b':' && nat_eq (code d) b':')) [
      | inl e ↦
          let p : before ≡ "" = ground arith in
          let q : after ≡ s = ground arith in rw (p, q, nil-append) (at_separator c d s e, refl)
      | inr e ↦ elim (Option-cases (split_at_separator (String.◌∷◌ d s))) [
        | inl n ↦ absurd (ground arith)
        | inr ((before', after'), n) ↦
            let ih = split_at_separator_sound (String.◌∷◌ d s) before' after' n in
            let p : before ≡ String.◌∷◌ c before' = ground arith in
            let q : after ≡ after' = ground arith in
            rw (p, q)
              (rw cons-append (ap (String.◌∷◌ c) ih.0), not_yet c d s before' after' e ih.0 ih.1)
      ]
    ]

-- A name that is put together from two parts is taken apart into them, if the first separator is the
-- one between them.
pub split_at_separator_complete :
    (before after : String)
    → split_at_separator (before <> ":") ≡ none
    → split_at_separator (before <> "::" <> after) ≡ some (before, after)
unfolding split_at_separator
split_at_separator_complete String.[] after h = rw (separator_append after, nil-append)
split_at_separator_complete (String.◌∷◌ c String.[]) after h =
    rw (separator_append after, cons-append, nil-append)
      (let h' = rw cons-append at h in ground arith)
split_at_separator_complete (String.◌∷◌ c (String.◌∷◌ d s)) after h =
    let h' = rw (cons-append c, cons-append d) at h in
    let ih = split_at_separator_complete (String.◌∷◌ d s) after in
    rw (cons-append c, cons-append d)
      (ground (arith, ih, cons-append d s ":", cons-append d s ("::" <> after)))
