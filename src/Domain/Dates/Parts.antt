-- ===== src/Domain/Dates/Parts.antt =====
-- The parts of a date, as `RFC3339` of src/domain.ts reads them.
use cuna_lib_ts.Domain.Dates.Digits.{digit_read, two, two-read, digits-two}
use cuna_lib_ts.Domain.Dates.{
  expect, offset, zone, digits, after_fraction, skip_digits, is_digit, ends, digits_from,
}
use cuna_lib_ts.Base.{
  ℕ, refl, Text, ◌∷◌, ◌≡◌, Option, [], ◌<◌, ◌++◌, some, ◌≤◌, arith, ap, Bool-cases, if◌then◌else◌,
  sym, ◌==◌, ◌&&◌, ◌||◌, inl, then_of, inr, none, else_of, ◌+◌, true, leb,
}
use cuna_lib_ts.Domain.Read.{◌>>=◌, ◌>>◌, check}
use cuna_lib_ts.Domain.Chains.{>>=-some, >>-some, some_injective}

-- Decimal digits, any number of them.
pub data AreDigits : Text → Type 0 where
  no_digits : AreDigits []
  one_more : {c : ℕ} {s : Text} → 0x30 ≤ c → c ≤ 0x39 → AreDigits s → AreDigits (c ∷ s)

-- The fraction of a second: nothing, or a point and one digit or more.
pub data IsFraction : Text → Type 0 where
  whole : IsFraction []
  point : {c : ℕ} {s : Text} → AreDigits (c ∷ s) → IsFraction (0x2e ∷ c ∷ s)

-- The offset of so many hours and minutes: Z, or a sign and two digits of each.
pub data IsZone (hour minute : ℕ) : Text → Type 0 where
  utc : hour ≡ 0 → minute ≡ 0 → IsZone hour minute (0x5a ∷ [])
  east : hour < 100 → minute < 100 → IsZone hour minute (0x2b ∷ two hour (0x3a ∷ two minute []))
  west : hour < 100 → minute < 100 → IsZone hour minute (0x2d ∷ two hour (0x3a ∷ two minute []))

expect-read : (c : ℕ) (s : Text) {t : Text} → expect c s ≡ some t → s ≡ c ∷ t
unfolding expect
expect-read c [] h = cc
expect-read c (d ∷ s) {t} h = ground arith

-- One number, after the code unit before it.
pub part-read :
    {A : Type 0} (c : ℕ) (s : Text) (k : ℕ × Text → Option A) {a : A}
    → (expect c s >>= λ x. (digits 2 x >>= k)) ≡ some a
    → (n : ℕ) × (rest : Text) × (s ≡ c ∷ two n rest) × (n < 100) × (k (n, rest) ≡ some a)
part-read c s k h =
    let (x, e, h1) = >>=-some h in
    let ((n, rest), d, h2) = >>=-some h1 in
    let (f, l) = two-read x d in (n, rest, rw (expect-read c s e, f) refl, l, h2)

ends_nil : (s : Text) → ends s ≡ true → s ≡ []
ends_nil [] h = refl
ends_nil (c ∷ s) h = cc

offset-read :
    (s : Text) {hour minute : ℕ}
    → offset s ≡ some (hour, minute)
    → (hour < 100) × (minute < 100) × (s ≡ two hour (0x3a ∷ two minute []))
unfolding offset
offset-read s {hour} {minute} h =
    let ((n, rest), d, h1) = >>=-some h in
    let (e, l) = two-read s d in
    let (m, z, f, lm, h2) = part-read 0x3a rest _ h1 in
    let (at_end, h3) = >>-some h2 in
    let a : hour ≡ n = ap (λ p. p.0) (some_injective h3) in
    let b : minute ≡ m = ap (λ p. p.1) (some_injective h3) in
    let c : z ≡ [] = ends_nil z at_end in (omega arith, omega arith, rw (e, f, a, b, c) refl)

signed :
    (c : ℕ) (s : Text) {hour minute : ℕ}
    → (if c == 0x2b || c == 0x2d then offset s else none) ≡ some (hour, minute)
    → IsZone hour minute (c ∷ s)
signed c s h = elim (Bool-cases (c == 0x2b)) [
  | inl p ↦
      let (a, b, e) = offset-read s (then_of (c == 0x2b || c == 0x2d) _ _ _ (ground arith) h) in
      let q : c ≡ 0x2b = ground arith in rw (q, e) (east a b)
  | inr p ↦ elim (Bool-cases (c == 0x2d)) [
    | inl m ↦
        let (a, b, e) = offset-read s (then_of (c == 0x2b || c == 0x2d) _ _ _ (ground arith) h) in
        let q : c ≡ 0x2d = ground arith in rw (q, e) (west a b)
    | inr m ↦ absurd (ground arith)
  ]
]

pub zone-read : (s : Text) {hour minute : ℕ} → zone s ≡ some (hour, minute) → IsZone hour minute s
unfolding zone
zone-read [] h = cc
zone-read (c ∷ s) {hour} {minute} h = elim (Bool-cases (c == 0x5a && ends s)) [
  | inl z ↦
      let same_offset = then_of (c == 0x5a && ends s) _ _ _ z h in
      let e : c ≡ 0x5a = ground arith in
      let f : s ≡ [] = ends_nil s (ground arith) in
      rw (e, f)
        (utc (ap (λ p. p.0) (some_injective same_offset))
          (ap (λ p. p.1) (some_injective same_offset)))
  | inr z ↦ signed c s (else_of (c == 0x5a && ends s) _ _ _ z h)
]

skip_digits-split : (s : Text) → (ds : Text) × AreDigits ds × (s ≡ ds ++ skip_digits s)
unfolding skip_digits is_digit
skip_digits-split [] = ([], no_digits, refl)
skip_digits-split (c ∷ s) = elim (Bool-cases (is_digit c)) [
  | inl d ↦
      let (ds, a, e) = skip_digits-split s in
      (c ∷ ds, one_more (ground arith) (ground arith) a, rw d (ap (λ x. c ∷ x) e))
  | inr d ↦ ([], no_digits, rw d refl)
]

pub after_fraction-read :
    (s : Text) {z : Text} → after_fraction s ≡ some z → (f : Text) × IsFraction f × (s ≡ f ++ z)
unfolding after_fraction digits
after_fraction-read [] h = ([], whole, some_injective (sym h))
after_fraction-read (c ∷ s) {z} h = elim (Bool-cases (c == 0x2e)) [
  | inl e ↦
      let ((n, rest), d, h1) = >>=-some (then_of (c == 0x2e) _ _ _ e h) in
      let (b, t, g, lb, d1) = digit_read 0 0 s d in
      let v : rest ≡ t = ap (λ p. p.1) (some_injective d1) in
      let (ds, are, k) = skip_digits-split rest in
      let q : c ≡ 0x2e = ground arith in
      (
        0x2e ∷ (0x30 + b) ∷ ds,
        point (one_more (omega arith) (omega arith) are),
        rw (q, g, sym v, some_injective h1) (ap (λ x. 0x2e ∷ (0x30 + b) ∷ x) k),
      )
  | inr e ↦ ([], whole, some_injective (sym (else_of (c == 0x2e) _ _ _ e h)))
]

-- Back.
skip_digits-zone :
    {hour minute : ℕ} {ds z : Text}
    → AreDigits ds
    → IsZone hour minute z
    → skip_digits (ds ++ z) ≡ z
unfolding skip_digits is_digit
skip_digits-zone no_digits (utc p q) = refl
skip_digits-zone no_digits (east p q) = refl
skip_digits-zone no_digits (west p q) = refl
skip_digits-zone (one_more l u ds) z = ground (arith, skip_digits-zone ds z)

pub after_fraction-zone :
    {hour minute : ℕ} {f z : Text}
    → IsFraction f
    → IsZone hour minute z
    → after_fraction (f ++ z) ≡ some z
unfolding after_fraction digits digits_from is_digit ◌>>=◌
after_fraction-zone whole (utc p q) = refl
after_fraction-zone whole (east p q) = refl
after_fraction-zone whole (west p q) = refl
after_fraction-zone (point (one_more {c} l u ds)) z =
    let lo : leb 0x30 c ≡ true = ground arith in
    let hi : leb c 0x39 ≡ true = ground arith in rw (lo, hi, skip_digits-zone ds z) refl

pub zone-written :
    {hour minute : ℕ} {z : Text} → IsZone hour minute z → zone z ≡ some (hour, minute)
unfolding zone offset expect ◌>>=◌ ◌>>◌ check
zone-written (utc p q) = rw (p, q) refl
zone-written {hour} {minute} (east p q) = rw (digits-two hour _ p, digits-two minute _ q) refl
zone-written {hour} {minute} (west p q) = rw (digits-two hour _ p, digits-two minute _ q) refl
