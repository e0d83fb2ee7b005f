-- ===== src/Boundary/Tokens.antt =====
-- Which windows the marker policy reports, over all lengths, and what becomes of the third hash of
-- nine units.
use cuna_lib_ts.Base.{
  ℕ, zero, suc, ◌-◌, ◌<◌, ◌≡◌, refl, Bool, true, false, ◌||◌, ◌==◌, if◌then◌else◌, ltb, List, [],
  ◌∷◌, length, arith, Text, All,
}
use cuna_lib_ts.Boundary.{targets, window_hit, scan_all}
use cuna_lib_ts.Boundary.Escapes.{Platform, decode_escapes, contains_prohibited_marker}
use cuna_lib_ts.Boundary.Rolling.{hit_from, scan-eq-hit}

-- The policy without a rolling hash: some entry of the table has a window that is reported.
unfoldable pub any_hit : Text → Text → List (ℕ × List ℕ) → Bool
any_hit decoded normalized [] = false
any_hit decoded normalized ((n, wanted) ∷ more) =
    (if ltb (length normalized) n
      then false
      else hit_from decoded normalized n wanted 0 (length normalized - n))
    || any_hit decoded normalized more

abbrev IsPositive : ℕ × List ℕ → Type 0
IsPositive entry = 0 < entry.0

if_or : (a b : Bool) → (if a then true else b) ≡ (a || b)
if_or true b = refl
if_or false b = refl

scan_all-eq-any_hit :
    (decoded normalized : Text) (table : List (ℕ × List ℕ))
    → All IsPositive table
    → scan_all decoded normalized table ≡ any_hit decoded normalized table
unfolding scan_all any_hit
scan_all-eq-any_hit decoded normalized [] h = refl
scan_all-eq-any_hit decoded normalized ((zero, wanted) ∷ more) (p, h) = absurd (omega arith)
scan_all-eq-any_hit decoded normalized ((suc n, wanted) ∷ more) (p, h) =
    rw (scan-eq-hit decoded normalized n wanted, scan_all-eq-any_hit decoded normalized more h)
      (if_or
        (if ltb (length normalized) (suc n)
          then false
          else hit_from decoded normalized (suc n) wanted 0 (length normalized - suc n))
        (any_hit decoded normalized more))

-- A string is prohibited exactly if, once its escapes are decoded and its case is folded, some entry of
-- the table has a window whose polynomial hash, computed afresh, is reported; so no window is missed
-- and none is invented by the rolling hash.
pub contains_prohibited_marker-eq-any_hit :
    (platform : Platform) (value : Text)
    → contains_prohibited_marker platform value
      ≡ any_hit
          (decode_escapes platform value)
          (platform.to_lower_case (decode_escapes platform value))
          targets
unfolding contains_prohibited_marker
contains_prohibited_marker-eq-any_hit platform value =
    scan_all-eq-any_hit (decode_escapes platform value)
      (platform.to_lower_case (decode_escapes platform value)) targets (omega arith)

-- The three hashes of nine units that the table asks for.
abbrev pub nine : List ℕ
nine = 3847020951 ∷ 3847084439 ∷ 1161608401 ∷ []

-- A window of nine units is reported exactly if it has one of the first two hashes; the third hash,
-- which is in the table for the token-aware test, is never reported, whatever stands around it.
pub nine_units_hit :
    (decoded : Text) (hash start : ℕ)
    → window_hit decoded 9 nine hash start ≡ (hash == 3847020951 || hash == 3847084439)
unfolding window_hit
nine_units_hit decoded hash start = ground arith
