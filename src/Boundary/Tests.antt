-- ===== src/Boundary/Tests.antt =====
-- The marker policy at concrete strings.
use cuna_lib_ts.Base.{◌≡◌, refl, false, ◌||◌, ◌==◌, some, [], ◌∷◌, lit}
use cuna_lib_ts.Boundary.{
  scan, scan_all, scan_from, roll, unit_at, polynomial, power_of, window_hit, targets,
}
use cuna_lib_ts.Boundary.Escapes.{Platform, decode_escapes, contains_prohibited_marker}
use cuna_lib_ts.Boundary.Tokens.{
  any_hit, contains_prohibited_marker-eq-any_hit, nine, nine_units_hit,
}

-- A platform that decodes and folds nothing.
abbrev plain : Platform
plain = record { decode_uri_component = λ s. some s; to_lower_case = λ s. s }

escaped_slash : decode_escapes plain (lit "a\\u002Fb\\n") ≡ 0x61 ∷ 0x2f ∷ 0x62 ∷ 0x0a ∷ []
unfolding decode_escapes lit
escaped_slash = refl

clean : contains_prohibited_marker plain (lit "hello, wide world of units") ≡ false
unfolding contains_prohibited_marker decode_escapes lit scan_all scan scan_from roll unit_at
    polynomial power_of window_hit
clean = refl

contains_prohibited_marker-eq-any_hit_example :
    contains_prohibited_marker plain (lit "two words")
    ≡ any_hit
        (decode_escapes plain (lit "two words"))
        (plain.to_lower_case (decode_escapes plain (lit "two words")))
        targets
contains_prohibited_marker-eq-any_hit_example =
    contains_prohibited_marker-eq-any_hit plain (lit "two words")

nine_units_hit_example :
    window_hit (lit "some text") 9 nine 1161608401 0
    ≡ (1161608401 == 3847020951 || 1161608401 == 3847084439)
nine_units_hit_example = nine_units_hit (lit "some text") 1161608401 0
