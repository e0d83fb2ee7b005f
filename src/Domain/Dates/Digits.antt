-- ===== src/Domain/Dates/Digits.antt =====
-- Numbers of two and of four decimal digits in dates, written and read.
use cuna_lib_ts.Base.{
  ℕ, suc, ◌+◌, ◌-◌, ◌*◌, ◌/◌, ap, ◌∙◌, ◌%◌, ◌≤◌, ◌<◌, ◌≡◌, refl, leb, true, some, [], ◌∷◌, Text,
  arith,
}
use cuna_lib_ts.Domain.Dates.{digits, digits_from, is_digit}
use cuna_lib_ts.Domain.Chains.{some_injective}

-- Two decimal digits, and four.
unfoldable pub two : ℕ → Text → Text
two n s = (0x30 + n / 10) ∷ (0x30 + n % 10) ∷ s

unfoldable pub four : ℕ → Text → Text
four n s = (0x30 + n / 1000) ∷ (0x30 + n / 100 % 10) ∷ (0x30 + n / 10 % 10) ∷ (0x30 + n % 10) ∷ s

digit_step :
    (acc d n : ℕ) (s : Text)
    → d < 10
    → digits_from acc (suc n) ((0x30 + d) ∷ s) ≡ digits_from (acc * 10 + d) n s
unfolding digits_from is_digit
digit_step acc d n s h =
    let e : (0x30 + d) - 0x30 ≡ d = omega arith in
    let lo : leb 0x30 (0x30 + d) ≡ true = ground arith in
    let hi : leb (0x30 + d) 0x39 ≡ true = ground arith in rw (lo, hi, e) refl

pub digits-two : (n : ℕ) (s : Text) → n < 100 → digits 2 (two n s) ≡ some (n, s)
unfolding digits two digits_from
digits-two n s h =
    let e : (0 * 10 + n / 10) * 10 + n % 10 ≡ n = omega arith in
    digit_step 0 (n / 10) 1 ((0x30 + n % 10) ∷ s) (omega arith)
    ∙ (digit_step (0 * 10 + n / 10) (n % 10) 0 s (omega arith) ∙ ap (λ m. some (m, s)) e)

pub digits-four : (n : ℕ) (s : Text) → n < 10000 → digits 4 (four n s) ≡ some (n, s)
unfolding digits four digits_from
digits-four n s h =
    let a = 0 * 10 + n / 1000 in
    let b = a * 10 + n / 100 % 10 in
    let c = b * 10 + n / 10 % 10 in
    let e : c * 10 + n % 10 ≡ n = omega arith in
    digit_step 0 (n / 1000) 3 ((48 + n / 100 % 10) ∷ (48 + n / 10 % 10) ∷ (48 + n % 10) ∷ s)
      (omega arith)
    ∙ (digit_step a (n / 100 % 10) 2 ((48 + n / 10 % 10) ∷ (48 + n % 10) ∷ s) (omega arith)
        ∙ (digit_step b (n / 10 % 10) 1 ((48 + n % 10) ∷ s) (omega arith)
            ∙ (digit_step c (n % 10) 0 s (omega arith) ∙ ap (λ m. some (m, s)) e)))

pub digit_read :
    (acc n : ℕ) (s : Text) {m : ℕ} {rest : Text}
    → digits_from acc (suc n) s ≡ some (m, rest)
    → (d : ℕ) × (t : Text) × (s ≡ (0x30 + d) ∷ t)
      × (d < 10)
      × (digits_from (acc * 10 + d) n t ≡ some (m, rest))
unfolding digits_from is_digit
digit_read acc n [] h = cc
digit_read acc n (c ∷ t) {m} {rest} h =
    let lo : 0x30 ≤ c = ground arith in
    let e : c ≡ 0x30 + (c - 0x30) = omega arith in
    (c - 0x30, t, ap (λ x. x ∷ t) e, ground arith, ground arith)

pub two-read :
    (s : Text) {n : ℕ} {rest : Text} → digits 2 s ≡ some (n, rest) → (s ≡ two n rest) × (n < 100)
unfolding digits digits_from two
two-read s {n} {rest} h =
    let (a, t, e, la, h1) = digit_read 0 1 s h in
    let (b, u, f, lb, h2) = digit_read (0 * 10 + a) 0 t h1 in
    let v : n ≡ (0 * 10 + a) * 10 + b = ap (λ p. p.0) (some_injective h2) in
    let w : rest ≡ u = ap (λ p. p.1) (some_injective h2) in
    let hi : n / 10 ≡ a = omega arith in
    let lo : n % 10 ≡ b = omega arith in (rw (e, f, hi, lo, w) refl, omega arith)

four_units :
    (n : ℕ) {a b c d : ℕ} {s t u x y rest : Text}
    → s ≡ (0x30 + a) ∷ t
    → t ≡ (0x30 + b) ∷ u
    → u ≡ (0x30 + c) ∷ x
    → x ≡ (0x30 + d) ∷ y
    → rest ≡ y
    → n / 1000 ≡ a
    → n / 100 % 10 ≡ b
    → n / 10 % 10 ≡ c
    → n % 10 ≡ d
    → s ≡ four n rest
unfolding four
four_units n e f g k w i j l m = rw (e, f, g, k, w, i, j, l, m) refl

pub four-read :
    (s : Text) {n : ℕ} {rest : Text} → digits 4 s ≡ some (n, rest) → (s ≡ four n rest) × (n < 10000)
unfolding digits digits_from
four-read s {n} {rest} h =
    let (a, t, e, la, h1) = digit_read 0 3 s h in
    let (b, u, f, lb, h2) = digit_read (0 * 10 + a) 2 t h1 in
    let (c, x, g, lc, h3) = digit_read ((0 * 10 + a) * 10 + b) 1 u h2 in
    let (d, y, k, ld, h4) = digit_read (((0 * 10 + a) * 10 + b) * 10 + c) 0 x h3 in
    let v : n ≡ (((0 * 10 + a) * 10 + b) * 10 + c) * 10 + d = ap (λ p. p.0) (some_injective h4) in
    let w : rest ≡ y = ap (λ p. p.1) (some_injective h4) in
    let i : n / 1000 ≡ a = omega arith in
    let j : n / 100 % 10 ≡ b = omega arith in
    let l : n / 10 % 10 ≡ c = omega arith in
    let m : n % 10 ≡ d = omega arith in (four_units n e f g k w i j l m, omega arith)
