-- ===== src/Domain/Grammar/Prefixes.antt =====
-- What it means that a prefix was found.
use cuna_lib_ts.Base.{◌≡◌, sym, arith, some, [], ◌∷◌, ◌++◌, Text}
use cuna_lib_ts.Domain.Grammar.{after_prefix}
use cuna_lib_ts.Domain.Chains.{some_injective}

pub after_prefix-append : (p s : Text) {r : Text} → after_prefix p s ≡ some r → s ≡ p ++ r
unfolding after_prefix
after_prefix-append [] s h = some_injective (sym h)
after_prefix-append (c ∷ p) [] h = absurd (ground arith)
after_prefix-append (c ∷ p) (d ∷ s) {r} h =
    let t : after_prefix p s ≡ some r = ground arith in
    let e : d ≡ c = ground arith in let f = after_prefix-append p s t in cc
