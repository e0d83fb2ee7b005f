-- ===== src/Domain/Grammar/Sizes.antt =====
-- The length of a string in code points beside its length in code units.
use cuna_lib_ts.Base.{◌≤◌, Bool, true, false, [], ◌∷◌, Text, length, arith}
use cuna_lib_ts.Domain.Grammar.{code_points, size}

code_points-le : (pending : Bool) (s : Text) → code_points pending s ≤ length s
unfolding code_points
code_points-le pending [] = omega arith
code_points-le pending (c ∷ s) = ground (arith, code_points-le true s, code_points-le false s)

pub size-le-length : (s : Text) → size s ≤ length s
unfolding size
size-le-length s = code_points-le false s

-- Only the empty string has no code point.
pub size_nonempty : (s : Text) → 1 ≤ length s → 1 ≤ size s
unfolding size code_points
size_nonempty [] h = omega arith
size_nonempty (c ∷ s) h = omega arith
