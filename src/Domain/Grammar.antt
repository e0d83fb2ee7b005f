-- ===== src/Domain/Grammar.antt =====
-- The regular expressions of src/domain.ts as functions on code units, and the length of a string in
-- code points.
pub mod Sizes
pub mod Prefixes
use cuna_lib_ts.Base.{
  ℕ, zero, suc, leb, ◌==◌, if◌then◌else◌, Bool, true, false, ◌&&◌, ◌||◌, not, List, [], ◌∷◌, all,
  length, Text, lit, same, String, Option, some, none,
}

abbrev pub between : ℕ → ℕ → ℕ → Bool
between lo hi c = leb lo c && leb c hi

-- `[0-9a-f]`
unfoldable pub is_hex : ℕ → Bool
is_hex c = between 0x30 0x39 c || between 0x61 0x66 c

-- `[a-z0-9_]`
unfoldable pub is_word : ℕ → Bool
is_word c = between 0x61 0x7a c || between 0x30 0x39 c || c == 0x5f

-- Whether a text is a run of hexadecimal digits for each length, with a hyphen between two runs.
unfoldable pub hex_groups : List ℕ → Text → Bool
unfolding is_hex
hex_groups [] s = false
hex_groups (zero ∷ []) [] = true
hex_groups (zero ∷ []) (c ∷ s) = false
hex_groups (zero ∷ n ∷ groups) [] = false
hex_groups (zero ∷ n ∷ groups) (c ∷ s) = c == 0x2d && hex_groups (n ∷ groups) s
hex_groups (suc n ∷ groups) [] = false
hex_groups (suc n ∷ groups) (c ∷ s) = is_hex c && hex_groups (n ∷ groups) s

-- `UUID`
unfoldable pub is_uuid : Text → Bool
unfolding hex_groups
is_uuid = hex_groups (8 ∷ 4 ∷ 4 ∷ 4 ∷ 12 ∷ [])

-- `ETAG`, which is also the pattern of a SHA-256 digest.
unfoldable pub is_sha256 : Text → Bool
unfolding hex_groups
is_sha256 = hex_groups (64 ∷ [])

-- `^[a-z][a-z0-9_]{2,63}$`, the pattern of `PROBLEM_CODE` and `REASON_CODE`.
unfoldable pub is_code : Text → Bool
unfolding is_word
is_code [] = false
is_code (c ∷ s) = between 0x61 0x7a c && (all is_word s && (leb 2 (length s) && leb (length s) 63))

is_high : ℕ → Bool
is_high c = between 0xd800 0xdbff c

is_low : ℕ → Bool
is_low c = between 0xdc00 0xdfff c

-- `[...value].length`: a surrogate pair counts once. The flag says that the unit before was the first
-- of a possible pair.
code_points : Bool → Text → ℕ
unfolding is_high is_low
code_points pending [] = 0
code_points pending (c ∷ s) =
    let paired = pending && is_low c in
    let rest = code_points (not paired && is_high c) s in if paired then rest else suc rest

unfoldable pub size : Text → ℕ
unfolding code_points
size = code_points false

-- `Set.has` and `includes` on strings.
unfoldable pub one_of : List String → Text → Bool
unfolding lit same
one_of [] s = false
one_of (t ∷ allowed) s = same (lit t) s || one_of allowed s

-- What follows a prefix of a text.
unfoldable pub after_prefix : Text → Text → Option Text
after_prefix [] s = some s
after_prefix (c ∷ prefix) [] = none
after_prefix (c ∷ prefix) (d ∷ s) =
    let rest = after_prefix prefix s in if c == d then rest else none

unfoldable pub nearest : ℕ → Option Text → Option (Text × Text) → Option (Text × Text)
nearest c (some after) rest = some ([], after)
nearest c none none = none
nearest c none (some (before, after)) = some (c ∷ before, after)

-- What stands before and after the first occurrence of a text that is not empty.
unfoldable pub around : Text → Text → Option (Text × Text)
unfolding nearest
around needle [] = none
around needle (c ∷ s) = let rest = around needle s in nearest c (after_prefix needle (c ∷ s)) rest
