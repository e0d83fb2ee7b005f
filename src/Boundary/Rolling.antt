-- ===== src/Boundary/Rolling.antt =====
-- The rolling hash of the scan against the hash of each window.
use native.Mathlib.Nat.{div-add-mod, pow-succ' as pow-suc'}
use cuna_lib_ts.Base.{
  ℕ, zero, suc, ◌+◌, ◌-◌, ◌*◌, ◌%◌, ◌^◌, ◌≡◌, refl, sym, ap, ◌∙◌, Bool, true, false, ◌||◌,
  if◌then◌else◌, ltb, List, length, arith, Text,
}
use cuna_lib_ts.Boundary.{
  base, word, unit_at, polynomial_from, polynomial, window_hit, power_from, power_of, roll,
  scan_from, scan,
}

-- The hash before it is reduced.
pub value_from : ℕ → Text → ℕ → ℕ → ℕ
value_from acc v i zero = acc
value_from acc v i (suc n) = value_from (acc * base + unit_at v i) v (i + 1) n

pub mul_mod_right : (o q : ℕ) → o * (q % word) % word ≡ o * q % word
mul_mod_right o q = omega (arith, ap (λ (t : ℕ). o * t) (sym (div-add-mod q word)))

reduce_step : (r a c : ℕ) → r ≡ a % word → (r * base % word + c) % word ≡ (a * base + c) % word
reduce_step r a c e = omega arith

polynomial_from-eq-value :
    (r a : ℕ) (v : Text) (i n : ℕ)
    → r ≡ a % word
    → polynomial_from r v i n ≡ value_from a v i n % word
unfolding polynomial_from value_from
polynomial_from-eq-value r a v i zero e = e
polynomial_from-eq-value r a v i (suc n) e =
    polynomial_from-eq-value ((r * base % word + unit_at v i) % word) (a * base + unit_at v i) v
      (i + 1) n (reduce_step r a (unit_at v i) e)

pub polynomial-eq-value : (v : Text) (i n : ℕ) → polynomial v i n ≡ value_from 0 v i n % word
unfolding polynomial
polynomial-eq-value v i n = polynomial_from-eq-value 0 0 v i n refl

-- The last unit of a window is the lowest digit.
value_from-last :
    (a : ℕ) (v : Text) (i n : ℕ)
    → value_from a v i (suc n) ≡ value_from a v i n * base + unit_at v (i + n)
unfolding value_from
value_from-last a v i zero = ap (λ (t : ℕ). a * base + unit_at v t) (omega arith)
value_from-last a v i (suc n) =
    value_from-last (a * base + unit_at v i) v (i + 1) n
    ∙ ap (λ (t : ℕ). value_from (a * base + unit_at v i) v (i + 1) n * base + unit_at v t)
        (omega arith)

value_from-suc :
    (a : ℕ) (v : Text) (i n : ℕ)
    → value_from a v i (suc n) ≡ value_from (a * base + unit_at v i) v (i + 1) n
unfolding value_from
value_from-suc a v i n = refl

-- The first one is the highest digit.
value_from-first :
    (a : ℕ) (v : Text) (i n : ℕ) → value_from a v i n ≡ a * base ^ n + value_from 0 v i n
unfolding value_from
value_from-first a v i zero = omega arith
value_from-first a v i (suc n) = omega (
  arith,
  value_from-first (a * base + unit_at v i) v (i + 1) n,
  value_from-first (0 * base + unit_at v i) v (i + 1) n,
  value_from-suc a v i n,
  value_from-suc 0 v i n,
  ap (λ (t : ℕ). a * t) (pow-suc' base n),
)

power_from-eq : (p q n : ℕ) → p ≡ q % word → power_from p n ≡ q * base ^ n % word
unfolding power_from
power_from-eq p q zero e = omega arith
power_from-eq p q (suc n) e = omega (
  arith,
  power_from-eq (p * base % word) (q * base) n (omega arith),
  ap (λ (t : ℕ). q * t) (pow-suc' base n),
)

roll_arith :
    (p p' q o c : ℕ)
    → p' + o * (q * base) ≡ p * base + c
    → ((p % word + word - o * q % word) % word * base % word + c) % word ≡ p' % word
roll_arith p p' q o c e = omega arith

power_of-eq : (n : ℕ) → power_of (suc n) ≡ base ^ n % word
unfolding power_of
power_of-eq n =
    ap (λ (t : ℕ). power_from 1 t) {x = suc n - 1} {y = n} (omega arith)
    ∙ power_from-eq 1 1 n (omega arith)
    ∙ ap (λ (t : ℕ). t % word) {x = 1 * base ^ n} {y = base ^ n} (omega arith)

window_shift :
    (v : Text) (s n : ℕ)
    → value_from 0 v (s + 1) (suc n) + unit_at v s * (base ^ n * base)
      ≡ value_from 0 v s (suc n) * base + unit_at v (s + suc n)
window_shift v s n = omega (
  arith,
  value_from-suc 0 v s n,
  value_from-first (0 * base + unit_at v s) v (s + 1) n,
  value_from-last 0 v (s + 1) n,
  ap (λ (t : ℕ). unit_at v t) {x = s + 1 + n} {y = s + suc n} (omega arith),
)

-- A step of the scan takes the hash of a window to the hash of the next.
pub roll-polynomial :
    (v : Text) (s n : ℕ)
    → roll (power_of (suc n)) (polynomial v s (suc n)) (unit_at v s) (unit_at v (s + suc n))
      ≡ polynomial v (s + 1) (suc n)
unfolding roll
roll-polynomial v s n =
    rw
      (
        polynomial-eq-value v s (suc n),
        polynomial-eq-value v (s + 1) (suc n),
        power_of-eq n,
        mul_mod_right (unit_at v s) (base ^ n),
      )
      (roll_arith _ _ (base ^ n) (unit_at v s) (unit_at v (s + suc n)) (window_shift v s n))

-- What the scan should find: a window of the normalised text, at `start` or one of the `left` places
-- after it, whose own hash is wanted.
unfoldable pub hit_from : Text → Text → ℕ → List ℕ → ℕ → ℕ → Bool
hit_from decoded normalized n wanted start zero =
    window_hit decoded n wanted (polynomial normalized start n) start
hit_from decoded normalized n wanted start (suc left) =
    window_hit decoded n wanted (polynomial normalized start n) start
    || hit_from decoded normalized n wanted (start + 1) left

scan_from-step :
    (decoded normalized : Text) (n : ℕ) (wanted : List ℕ) (start left : ℕ)
    → scan_from decoded normalized
        (suc n)
        wanted
        (power_of (suc n))
        (polynomial normalized start (suc n))
        (start + suc n)
        (suc left)
      ≡ (if window_hit decoded
            (suc n)
            wanted
            (polynomial normalized (start + 1) (suc n))
            (start + 1)
          then true
          else scan_from decoded normalized
              (suc n)
              wanted
              (power_of (suc n))
              (polynomial normalized (start + 1) (suc n))
              (start + 1 + suc n)
              left)
unfolding scan_from
scan_from-step decoded normalized n wanted start left =
    let back : start + suc n - suc n ≡ start = omega arith in
    let on : start + suc n + 1 ≡ start + 1 + suc n = omega arith in
    rw (on, back, roll-polynomial normalized start n)

scan_from-eq-hit :
    (decoded normalized : Text) (n : ℕ) (wanted : List ℕ) (start left : ℕ)
    → (if window_hit decoded (suc n) wanted (polynomial normalized start (suc n)) start
        then true
        else scan_from decoded normalized
            (suc n)
            wanted
            (power_of (suc n))
            (polynomial normalized start (suc n))
            (start + suc n)
            left)
      ≡ hit_from decoded normalized (suc n) wanted start left
unfolding hit_from scan_from
scan_from-eq-hit decoded normalized n wanted start zero = ground arith
scan_from-eq-hit decoded normalized n wanted start (suc left) =
    rw
      (
        scan_from-step decoded normalized n wanted start left,
        scan_from-eq-hit decoded normalized n wanted (start + 1) left,
      )
      (ground arith)

-- For windows of any positive length, the scan with its rolling hash finds exactly what hashing every
-- window of the normalised text afresh would find: a window whose own hash is wanted, at any start from
-- 0 to the last that leaves room for it, and nothing in a text that is shorter than the window.
pub scan-eq-hit :
    (decoded normalized : Text) (n : ℕ) (wanted : List ℕ)
    → scan decoded normalized (suc n) wanted ≡ (
        if ltb (length normalized) (suc n)
        then false
        else hit_from decoded normalized (suc n) wanted 0 (length normalized - suc n))
unfolding scan
scan-eq-hit decoded normalized n wanted =
    let start : 0 + suc n ≡ suc n = omega arith in
    let found = scan_from-eq-hit decoded normalized n wanted 0 (length normalized - suc n) in
    rw (← (rw start at found))
