-- ===== src/Boundary/Escapes.antt =====
-- `decodeEscapes` and `containsProhibitedMarker` of src/internal/boundary-policy.ts.
use cuna_lib_ts.Base.{
  ℕ, zero, suc, ◌+◌, ◌-◌, ◌*◌, leb, ◌==◌, if◌then◌else◌, Bool, ◌&&◌, ◌||◌, Option, none, some, [],
  ◌∷◌, Text,
}
use cuna_lib_ts.Boundary.{targets, scan_all}

-- What the module takes from the platform: `decodeURIComponent`, which throws where this is `none`,
-- and `toLowerCase`, whose tables are those of Unicode.
pub record Platform : Type 0 where
  pub decode_uri_component : Text → Option Text
  pub to_lower_case : Text → Text

-- The value of a hexadecimal digit in either case.
unfoldable pub hex_digit : ℕ → Option ℕ
hex_digit c =
    if leb 0x30 c && leb c 0x39
    then some (c - 0x30)
    else if leb 0x41 c && leb c 0x46
    then some (c - 0x37)
    else if leb 0x61 c && leb c 0x66
    then some (c - 0x57)
    else none

infixl 5 ◌>>=◌
abbrev ◌>>=◌ : {A B : Type 0} → Option A → (A → Option B) → Option B
none >>= k = none
some a >>= k = k a

-- Four hexadecimal digits at the start of a text, as a number.
hex4 : Text → Option ℕ
unfolding hex_digit
hex4 (a ∷ b ∷ c ∷ d ∷ _) = do
  w ← hex_digit a
  x ← hex_digit b
  y ← hex_digit c
  z ← hex_digit d
  some (((w * 16 + x) * 16 + y) * 16 + z)
hex4 _ = none

-- The code unit that a `\uXXXX` at the start of a text stands for.
unicode_escape : Text → Option ℕ
unfolding hex4
unicode_escape (a ∷ u ∷ s) = if a == 0x5c && (u == 0x75 || u == 0x55) then hex4 s else none
unicode_escape _ = none

-- The first `replace`; the number is how many code units of the last match are still to be passed.
unescape_unicode : ℕ → Text → Text
unfolding unicode_escape
unescape_unicode skip [] = []
unescape_unicode (suc skip) (c ∷ s) = unescape_unicode skip s
unescape_unicode zero (c ∷ s) = elim (unicode_escape (c ∷ s)) [
  | none ↦ c ∷ unescape_unicode zero s
  | some u ↦ u ∷ unescape_unicode 5 s
]

-- The `switch` of the second `replace`, over the characters that its pattern admits.
simple_escape : ℕ → Option ℕ
simple_escape c =
    if c == 0x62
    then some 0x08
    else if c == 0x66
    then some 0x0c
    else if c == 0x6e
    then some 0x0a
    else if c == 0x72
    then some 0x0d
    else if c == 0x74
    then some 0x09
    else if c == 0x22 || c == 0x5c || c == 0x2f
    then some c
    else none

-- The second `replace`.
unescape_simple : Text → Text
unfolding simple_escape
unescape_simple [] = []
unescape_simple (a ∷ []) = a ∷ []
unescape_simple (a ∷ c ∷ s) = elim (if a == 0x5c then simple_escape c else none) [
  | none ↦ a ∷ unescape_simple (c ∷ s)
  | some u ↦ u ∷ unescape_simple s
]

module _ (platform : Platform) where
  open platform use {decode_uri_component, to_lower_case}

  unfoldable pub decode_escapes : Text → Text
  unfolding unescape_unicode unescape_simple
  decode_escapes value =
      let result : Text = elim (decode_uri_component value) [ none ↦ value | some text ↦ text ] in
      unescape_simple (unescape_unicode 0 result)

  unfoldable pub contains_prohibited_marker : Text → Bool
  contains_prohibited_marker value =
      let decoded = decode_escapes value in scan_all decoded (to_lower_case decoded) targets
