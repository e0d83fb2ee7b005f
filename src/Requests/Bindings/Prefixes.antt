-- ===== src/Requests/Bindings/Prefixes.antt =====
-- Where a canonical prefix leads.
use cuna_lib_ts.Base.{
  ◌≡◌, refl, ap, sym, ◌∙◌, ℕ, ◌==◌, true, false, if◌then◌else◌, Bool-cases, inl, inr, Option, none,
  some, List, [], ◌∷◌, ◌++◌, Text, same, any, arith,
}
use cuna_lib_ts.Domain.Read.{◌>>=◌}
use cuna_lib_ts.Requests.Bindings.{split_slash, is_dotted, is_canonical, before_first}

-- The directory that a path leads to, from one that is given by the names on the way to it, the last
-- name first; `none` if it leads out of the root.
step : Text → List Text → Option (List Text)
step part directory =
    if same part (0x2e ∷ 0x2e ∷ [])
    then (elim directory [ [] ↦ none | name ∷ above ↦ some above ])
    else if is_dotted part
    then some directory
    else some (part ∷ directory)

unfoldable pub walk : List Text → List Text → Option (List Text)
unfolding step ◌>>=◌
walk [] directory = some directory
walk (part ∷ parts) directory = step part directory >>= walk parts

-- The parts of a path with slashes between them.
unfoldable pub join_slash : List Text → Text
join_slash [] = []
join_slash (part ∷ []) = part
join_slash (part ∷ next ∷ parts) = part ++ (0x2f ∷ join_slash (next ∷ parts))

unfoldable pub under : List Text → List Text → List Text
under [] directory = directory
under (part ∷ parts) directory = under parts (part ∷ directory)

not_up : (part : Text) → is_dotted part ≡ false → same part (0x2e ∷ 0x2e ∷ []) ≡ false
unfolding is_dotted
not_up [] h = cc
not_up (c ∷ s) h = ground arith

step-name :
    (part : Text) (directory : List Text)
    → is_dotted part ≡ false
    → step part directory ≡ some (part ∷ directory)
unfolding step
step-name part directory h = rw (not_up part h, h) refl

walk-under :
    (parts directory : List Text)
    → any is_dotted parts ≡ false
    → walk parts directory ≡ some (under parts directory)
unfolding walk under ◌>>=◌
walk-under [] directory h = refl
walk-under (part ∷ parts) directory h =
    let e : is_dotted part ≡ false = ground arith in
    let f : any is_dotted parts ≡ false = ground arith in
    ap (λ o. o >>= walk parts) (step-name part directory e) ∙ walk-under parts (part ∷ directory) f

split_slash-cons : (s : Text) → (part : Text) × (parts : List Text) × (split_slash s ≡ part ∷ parts)
unfolding split_slash
split_slash-cons [] = ([], [], refl)
split_slash-cons (c ∷ s) =
    let (part, parts, e) = split_slash-cons s in
    elim (Bool-cases (c == 0x2f)) [
      | inl t ↦ ([], split_slash s, rw t refl)
      | inr t ↦ (c ∷ part, parts, rw (t, e) refl)
    ]

join_slash-before_first :
    (c : ℕ) (part : Text) (parts : List Text)
    → join_slash (before_first c (part ∷ parts)) ≡ c ∷ join_slash (part ∷ parts)
unfolding join_slash before_first
join_slash-before_first c part [] = refl
join_slash-before_first c part (next ∷ parts) = refl

join_slash-break :
    (parts : List Text) (s : Text)
    → (p : Text) → (ps : List Text) → parts ≡ p ∷ ps
    → join_slash parts ≡ s
    → join_slash ([] ∷ parts) ≡ 0x2f ∷ s
unfolding join_slash
join_slash-break [] s p ps e h = cc
join_slash-break (part ∷ parts) s p ps e h = ap (◌∷◌ 0x2f) h

at_slash : (c : ℕ) (s : Text) → (c == 0x2f) ≡ true → split_slash (c ∷ s) ≡ [] ∷ split_slash s
unfolding split_slash
at_slash c s t = rw t refl

elsewhere :
    (c : ℕ) (s : Text) → (c == 0x2f) ≡ false → split_slash (c ∷ s) ≡ before_first c (split_slash s)
unfolding split_slash
elsewhere c s t = rw t refl

join_slash-split_slash : (s : Text) → join_slash (split_slash s) ≡ s
unfolding split_slash join_slash
join_slash-split_slash [] = refl
join_slash-split_slash (c ∷ s) =
    let (part, parts, e) = split_slash-cons s in
    let h : join_slash (split_slash s) ≡ s = join_slash-split_slash s in
    let g : join_slash (part ∷ parts) ≡ s = ap join_slash (sym e) ∙ h in
    elim (Bool-cases (c == 0x2f)) [
      | inl t ↦
          let q : c ≡ 0x2f = ground arith in
          ap join_slash (at_slash c s t)
          ∙ (join_slash-break (split_slash s) s part parts e h ∙ ap (λ x. x ∷ s) (sym q))
      | inr t ↦
          ap join_slash (elsewhere c s t ∙ ap (before_first c) e)
          ∙ (join_slash-before_first c part parts ∙ ap (◌∷◌ c) g)
    ]

-- A canonical prefix is the text of its parts with slashes between them, and leads from any directory to
-- the one that these parts name below it.
pub is_canonical-walk :
    (s : Text) (directory : List Text)
    → is_canonical s ≡ true
    → (walk (split_slash s) directory ≡ some (under (split_slash s) directory))
      × (join_slash (split_slash s) ≡ s)
unfolding is_canonical
is_canonical-walk s directory h =
    (walk-under (split_slash s) directory (ground arith), join_slash-split_slash s)
