-- ===== src/Requests/Value/Laws.antt =====
-- What a value that was taken from an argument satisfies.
use cuna_lib_ts.Base.{
  zero, suc, inl, inr, [], ◌∷◌, ◌<◌, ◌+◌, ◌-◌, ◌*◌, ◌/◌, ◌%◌, ltb, Bool-cases, ap, ◌∙◌, ℕ, arith,
  ◌≡◌, Text, true, Bool, some,
}
use cuna_lib_ts.Requests.Value.{text_value, Value, decimal, decimal_from}
use cuna_lib_ts.Domain.Chains.{>>=-some, >>-some, some_injective}

pub text_value-satisfies :
    (p : Text → Bool) (value : Value) {s : Text} → text_value p value ≡ some s → p s ≡ true
unfolding text_value
text_value-satisfies p value h =
    let (s, _, h1) = >>=-some h in let (t, h2) = >>-some h1 in rw (some_injective h2) t

-- The number whose decimal digits follow those of another.
unfoldable pub number_from : ℕ → Text → ℕ
number_from acc [] = acc
number_from acc (c ∷ s) = number_from (acc * 10 + (c - 0x30)) s

decimal_from-number_from :
    (fuel n : ℕ) (s : Text) → n < fuel → number_from 0 (decimal_from fuel n s) ≡ number_from n s
unfolding number_from decimal_from
decimal_from-number_from zero n s h = absurd (omega arith)
decimal_from-number_from (suc fuel) n s h = elim (Bool-cases (ltb n 10)) [
  | inl t ↦
      let e : 0 * 10 + (0x30 + n - 0x30) ≡ n = omega arith in rw t (ap (λ m. number_from m s) e)
  | inr f ↦
      let below : n / 10 < fuel = ground arith in
      let e : n / 10 * 10 + (0x30 + n % 10 - 0x30) ≡ n = omega arith in
      rw f (
        decimal_from-number_from fuel (n / 10) ((0x30 + n % 10) ∷ s) below
        ∙ ap (λ m. number_from m s) e)
]

-- The digits that stand for a number in a query are those of the number, so the fuel is enough.
pub number_from-decimal : (n : ℕ) → number_from 0 (decimal n) ≡ n
unfolding decimal number_from
number_from-decimal n = decimal_from-number_from (n + 1) n [] (omega arith)
