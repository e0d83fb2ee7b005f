-- ===== src/Transport/Delay.antt =====
-- `uniformDelay` of src/internal/transport.ts, and its copy `nextRandomInt` of
-- src/internal/test-seams.ts: a number up to a bound from random words, by rejection.
use native.Mathlib.Nat.{
  div-lt_iff_lt-mul, div-add-mod, mod-lt, mod-eq_of_lt, mul-add-mod_self_right,
}
use cuna_lib_ts.Base.{
  lt→ltb, ◌∙◌, ℕ, zero, suc, ◌+◌, ◌*◌, ◌/◌, ◌%◌, ◌≤◌, ◌<◌, ◌≡◌, ltb, if◌then◌else◌, true, Option,
  none, some, List, [], ◌∷◌, all, leb, ◌++◌, ◌↔◌, refl, length, arith,
}

abbrev pub words : ℕ
words = 4294967296

-- The loop; `none` when the draws that are given have all been rejected.
first_accepted : ℕ → ℕ → List ℕ → Option (ℕ × List ℕ)
first_accepted limit largest [] = none
first_accepted limit largest (raw ∷ more) =
    let rest = first_accepted limit largest more in
    if ltb raw largest then some (raw % limit, more) else rest

abbrev pub largest_of : ℕ → ℕ
largest_of limit = words / limit * limit

unfoldable pub uniform_delay : ℕ → List ℕ → Option (ℕ × List ℕ)
unfolding first_accepted
uniform_delay bound draws = let limit = bound + 1 in first_accepted limit (largest_of limit) draws

first_accepted-le :
    (bound largest : ℕ) (draws : List ℕ) {d : ℕ} {more : List ℕ}
    → first_accepted (bound + 1) largest draws ≡ some (d, more)
    → d ≤ bound
unfolding first_accepted
first_accepted-le bound largest [] h = cc
first_accepted-le bound largest (raw ∷ rest) {d} {more} h =
    ground (arith, first_accepted-le bound largest rest {d = d} {more = more})

-- The delay never exceeds the cap.
pub uniform_delay-le-bound :
    (bound : ℕ) (draws : List ℕ) {d : ℕ} {more : List ℕ}
    → uniform_delay bound draws ≡ some (d, more)
    → d ≤ bound
unfolding uniform_delay
uniform_delay-le-bound bound draws h = first_accepted-le bound (largest_of (bound + 1)) draws h

first_accepted-below :
    (limit largest raw : ℕ) (more : List ℕ)
    → raw < largest
    → first_accepted limit largest (raw ∷ more) ≡ some (raw % limit, more)
unfolding first_accepted
first_accepted-below limit largest raw more h = rw (lt→ltb _ _ h) refl

first_accepted-rejected :
    (limit largest : ℕ) (rejected more : List ℕ)
    → all (λ r. leb largest r) rejected ≡ true
    → first_accepted limit largest (rejected ++ more) ≡ first_accepted limit largest more
unfolding first_accepted
first_accepted-rejected limit largest [] more h = refl
first_accepted-rejected limit largest (r ∷ rejected) more h =
    ground (arith, first_accepted-rejected limit largest rejected more)

first_accepted-none :
    (limit largest : ℕ) (rejected : List ℕ)
    → all (λ r. leb largest r) rejected ≡ true
    → first_accepted limit largest rejected ≡ none
unfolding first_accepted
first_accepted-none limit largest [] h = refl
first_accepted-none limit largest (r ∷ rejected) h =
    ground (arith, first_accepted-none limit largest rejected)

first_accepted-shorter :
    (limit largest : ℕ) (draws : List ℕ) {d : ℕ} {more : List ℕ}
    → first_accepted limit largest draws ≡ some (d, more)
    → length more < length draws
unfolding first_accepted
first_accepted-shorter limit largest [] h = cc
first_accepted-shorter limit largest (raw ∷ rest) {d} {more} h =
    ground (arith, first_accepted-shorter limit largest rest {d = d} {more = more})

first_accepted_now :
    (limit largest raw : ℕ) {d : ℕ} (more : List ℕ)
    → first_accepted limit largest (raw ∷ more) ≡ some (d, more)
    → (raw < largest) × (raw % limit ≡ d)
unfolding first_accepted
first_accepted_now limit largest raw {d} more h =
    ground (arith, first_accepted-shorter limit largest more {d = d} {more = more})

taken :
    (bound raw d : ℕ) (more : List ℕ)
    → uniform_delay bound (raw ∷ more) ≡ some (d, more)
    → (k : ℕ) × (k < words / (bound + 1)) × (d ≤ bound) × (raw ≡ k * (bound + 1) + d)
unfolding uniform_delay
taken bound raw d more h =
    let (l, e) = first_accepted_now (bound + 1) (largest_of (bound + 1)) raw more h in
    let parts : (bound + 1) * (raw / (bound + 1)) + raw % (bound + 1) ≡ raw =
      div-add-mod raw (bound + 1) in
    let left : d ≤ bound = first_accepted-le bound (largest_of (bound + 1)) (raw ∷ more) h in
    (raw / (bound + 1), (div-lt_iff_lt-mul (omega arith)).1 l, left, grind arith)

uniform_delay-word :
    (bound k d : ℕ) (more : List ℕ)
    → k < words / (bound + 1)
    → d ≤ bound
    → uniform_delay bound ((k * (bound + 1) + d) ∷ more) ≡ some (d, more)
unfolding uniform_delay
uniform_delay-word bound k d more h l =
    let fits : k * (bound + 1) + d < words / (bound + 1) * (bound + 1) = grind arith in
    let left : (k * (bound + 1) + d) % (bound + 1) ≡ d =
      mul-add-mod_self_right k (bound + 1) d ∙ mod-eq_of_lt (omega arith) in
    rw (lt→ltb _ _ fits, left)

most_words :
    (bound q : ℕ) {r : ℕ}
    → bound < 2147483648
    → (bound + 1) * q + r ≡ words
    → r < bound + 1
    → words < 2 * (q * (bound + 1))
most_words bound zero h e l = omega arith
most_words bound (suc q) h e l = omega arith

-- The loop goes on past every word that is not below the largest multiple, and ends at the first that
-- is, with its remainder as the delay and the words after it left over; for a cap below 2 ^ 31 more than
-- half of all words are below it.
pub uniform_delay_first :
    (bound : ℕ) (rejected : List ℕ) (raw : ℕ) (more : List ℕ)
    → bound < 2147483648
    → all (λ r. leb (largest_of (bound + 1)) r) rejected ≡ true
    → raw < largest_of (bound + 1)
    → (uniform_delay bound (rejected ++ (raw ∷ more)) ≡ some (raw % (bound + 1), more))
      × (uniform_delay bound rejected ≡ none)
      × (words < 2 * largest_of (bound + 1))
unfolding uniform_delay
uniform_delay_first bound rejected raw more h a l = (
  first_accepted-rejected (bound + 1) (largest_of (bound + 1)) rejected (raw ∷ more) a
      ∙ first_accepted-below (bound + 1) (largest_of (bound + 1)) raw more l,
  first_accepted-none (bound + 1) (largest_of (bound + 1)) rejected a,
  most_words bound (words / (bound + 1)) h (div-add-mod words (bound + 1))
      (mod-lt words (omega arith)),
)

-- A word gives a delay, with the words after it left over, exactly if it is one of the numbers
-- `k * (bound + 1) + d` for `k` below a fixed number, where `d` is the delay and at most the cap: each
-- delay up to the cap is had from equally many words, and no other delay from any.
pub uniform_delay_fair :
    (bound raw d : ℕ) (more : List ℕ)
    → (uniform_delay bound (raw ∷ more) ≡ some (d, more))
      ↔ ((k : ℕ) × (k < words / (bound + 1)) × (d ≤ bound) × (raw ≡ k * (bound + 1) + d))
uniform_delay_fair bound raw d more =
    (taken bound raw d more, λ (k, h, l, e). rw e (uniform_delay-word bound k d more h l))
