-- ===== src/Boundary.antt =====
-- The scan of a decoded string for prohibited markers: src/internal/boundary-policy.ts.
-- `Math.imul(a, b)` is modelled by its residue in 0 .. 2 ^ 32 - 1: each use of it in the source is
-- reduced by `>>> 0` or is an argument of another `Math.imul`, so the sign is never seen.
pub mod Escapes
pub mod Rolling
pub mod Tokens
mod Tests
use cuna_lib_ts.Base.{
  ℕ, zero, suc, ◌+◌, ◌-◌, ◌*◌, ◌%◌, ltb, leb, ◌==◌, if◌then◌else◌, Bool, true, false, ◌&&◌, ◌||◌,
  not, Option, none, some, List, [], ◌∷◌, length, get_elem?, any, Text,
}

abbrev pub base : ℕ
base = 257

abbrev pub word : ℕ
word = 4294967296

-- `Set.has`
abbrev pub has : ℕ → List ℕ → Bool
has h targets = any (λ t. t == h) targets

-- `TARGETS`: the hashes to look for, by the number of code units that they cover.
abbrev pub targets : List (ℕ × List ℕ)
targets =
    (5, 1098742058 ∷ [])
    ∷ (9, 3847020951 ∷ 3847084439 ∷ 1161608401 ∷ [])
    ∷ (10, 2179956528 ∷ 2895058756 ∷ [])
    ∷ (11, 3928627619 ∷ [])
    ∷ (16, 578114754 ∷ [])
    ∷ (18, 4262251136 ∷ [])
    ∷ (24, 1853816080 ∷ [])
    ∷ (25, 3984330115 ∷ [])
    ∷ (26, 1988911822 ∷ [])
    ∷ (27, 49230145 ∷ [])
    ∷ []

-- `SUBSTRING_TARGETS.get(length)`
abbrev pub substring_targets : ℕ → Option (List ℕ)
substring_targets n =
    if n == 5
    then some (1098742058 ∷ [])
    else if n == 9
    then some (3847020951 ∷ 3847084439 ∷ [])
    else none

-- `charCodeAt`; its NaN is `none`, of which every comparison is false.
abbrev pub char_code_at : Text → ℕ → Option ℕ
char_code_at = get_elem?

within : ℕ → ℕ → ℕ → Bool
within lo hi code = leb lo code && leb code hi

unfoldable pub is_ascii_letter_or_digit : Option ℕ → Bool
unfolding within
is_ascii_letter_or_digit none = false
is_ascii_letter_or_digit (some code) =
    within 0x30 0x39 code || within 0x41 0x5a code || within 0x61 0x7a code

unfoldable pub is_lower_ascii_or_digit : Option ℕ → Bool
unfolding within
is_lower_ascii_or_digit none = false
is_lower_ascii_or_digit (some code) = within 0x30 0x39 code || within 0x61 0x7a code

unfoldable pub is_upper_ascii : Option ℕ → Bool
unfolding within
is_upper_ascii none = false
is_upper_ascii (some code) = within 0x41 0x5a code

left_boundary : Text → ℕ → Bool
unfolding is_ascii_letter_or_digit is_lower_ascii_or_digit is_upper_ascii
left_boundary value start =
    let before = char_code_at value (start - 1) in
    start == 0
    || not (is_ascii_letter_or_digit before)
    || (is_lower_ascii_or_digit before && is_upper_ascii (char_code_at value start))

right_boundary : Text → ℕ → Bool
unfolding is_ascii_letter_or_digit is_lower_ascii_or_digit is_upper_ascii
right_boundary value end =
    let after = char_code_at value end in
    end == length value
    || not (is_ascii_letter_or_digit after)
    || (is_lower_ascii_or_digit (char_code_at value (end - 1)) && is_upper_ascii after)

unfoldable pub has_token_boundaries : Text → ℕ → ℕ → Bool
unfolding left_boundary right_boundary
has_token_boundaries value start n = left_boundary value start && right_boundary value (start + n)

-- `value.charCodeAt(index) || 0`
unfoldable pub unit_at : Text → ℕ → ℕ
unit_at value index = elim (char_code_at value index) [ none ↦ 0 | some code ↦ code ]

-- The loop of `polynomial`, with the rounds that are left.
polynomial_from : ℕ → Text → ℕ → ℕ → ℕ
polynomial_from result value index zero = result
polynomial_from result value index (suc left) =
    polynomial_from ((result * base % word + unit_at value index) % word) value (index + 1) left

unfoldable pub polynomial : Text → ℕ → ℕ → ℕ
unfolding polynomial_from unit_at
polynomial value start n = polynomial_from 0 value start n

-- The test that both places of the scan make of a window's hash.
unfoldable pub window_hit : Text → ℕ → List ℕ → ℕ → ℕ → Bool
unfolding has_token_boundaries
window_hit decoded n wanted hash start = has hash wanted && elim (substring_targets n) [
  | none ↦ has_token_boundaries decoded start n
  | some plain ↦ has hash plain
]

-- `for (let index = 1; index < length; index += 1) power = Math.imul(power, BASE) >>> 0;`, with the
-- rounds that are left.
power_from : ℕ → ℕ → ℕ
power_from power zero = power
power_from power (suc left) = power_from (power * base % word) left

unfoldable pub power_of : ℕ → ℕ
unfolding power_from
power_of n = power_from 1 (n - 1)

-- One step of the rolling hash.
unfoldable pub roll : ℕ → ℕ → ℕ → ℕ → ℕ
roll power hash outgoing incoming =
    ((hash + word - outgoing * power % word) % word * base % word + incoming) % word

-- The inner loop, from `index` on, with the rounds that are left.
pub scan_from : Text → Text → ℕ → List ℕ → ℕ → ℕ → ℕ → ℕ → Bool
scan_from decoded normalized n wanted power hash index zero = false
scan_from decoded normalized n wanted power hash index (suc left) =
    let next = roll power hash (unit_at normalized (index - n)) (unit_at normalized index) in
    let rest = scan_from decoded normalized n wanted power next (index + 1) left in
    if window_hit decoded n wanted next (index - n + 1) then true else rest

-- One round of the loop over `TARGETS`; false goes on to the next.
unfoldable pub scan : Text → Text → ℕ → List ℕ → Bool
scan decoded normalized n wanted =
    if ltb (length normalized) n
    then false
    else (let hash = polynomial normalized 0 n in
        if window_hit decoded n wanted hash 0
        then true
        else scan_from decoded normalized n wanted (power_of n) hash n (length normalized - n))

unfoldable pub scan_all : Text → Text → List (ℕ × List ℕ) → Bool
scan_all decoded normalized [] = false
scan_all decoded normalized ((n, wanted) ∷ more) =
    if scan decoded normalized n wanted then true else scan_all decoded normalized more
