-- ===== src/Transport/Prepare/Paths.antt =====
-- The paths that are made of a template and of parameters without special characters.
use cuna_lib_ts.Domain.Grammar.{around}
use cuna_lib_ts.Domain.Grammar.{is_hex, is_uuid, is_sha256}
use cuna_lib_ts.Base.{
  none, some, List, [], ◌∷◌, true, zero, suc, refl, ℕ, Text, Bool, ◌≡◌, arith, ◌++◌, all, ◌||◌,
  ◌==◌, is_some, lit, ◌&&◌,
}
use cuna_lib_ts.Transport.Prepare.{expand, render_path, filled}
use cuna_lib_ts.Domain.Grammar.{after_prefix, hex_groups, between, is_hex}
use cuna_lib_ts.Domain.Read.{◌>>=◌}

&&_left : (a b : Bool) → (a && b) ≡ true → a ≡ true
&&_left a b h = ground arith

&&_right : (a b : Bool) → (a && b) ≡ true → b ≡ true
&&_right a b h = ground arith

&&_both : {a b : Bool} → a ≡ true → b ≡ true → (a && b) ≡ true
&&_both h k = ground arith

-- A lower-case letter, a digit, a hyphen or a slash.
unfoldable pub is_plain_unit : ℕ → Bool
is_plain_unit c = between 0x61 0x7a c || between 0x2f 0x39 c || c == 0x2d

abbrev pub is_plain : Text → Bool
is_plain = all is_plain_unit

pub is_plain-append :
    (s t : Text) → is_plain s ≡ true → is_plain t ≡ true → is_plain (s ++ t) ≡ true
is_plain-append [] t h k = k
is_plain-append (c ∷ s) t h k =
    let e : is_plain_unit c ≡ true = ground arith in
    let f : is_plain (s ++ t) ≡ true = is_plain-append s t (ground arith) k in ground arith

hex_plain : (c : ℕ) → is_hex c ≡ true → is_plain_unit c ≡ true
unfolding is_hex is_plain_unit
hex_plain c h = ground arith

hyphen_plain : (c : ℕ) → (c == 0x2d) ≡ true → is_plain_unit c ≡ true
unfolding is_plain_unit
hyphen_plain c h = ground arith

hex_groups-is_plain : (groups : List ℕ) (s : Text) → hex_groups groups s ≡ true → is_plain s ≡ true
unfolding hex_groups
hex_groups-is_plain [] s h = cc
hex_groups-is_plain (zero ∷ []) [] h = refl
hex_groups-is_plain (zero ∷ []) (c ∷ s) h = cc
hex_groups-is_plain (zero ∷ n ∷ groups) [] h = cc
hex_groups-is_plain (zero ∷ n ∷ groups) (c ∷ s) h =
    let f = hex_groups-is_plain (n ∷ groups) s (&&_right _ _ h) in
    &&_both (hyphen_plain c (&&_left _ _ h)) f
hex_groups-is_plain (suc n ∷ groups) [] h = cc
hex_groups-is_plain (suc n ∷ groups) (c ∷ s) h =
    let f = hex_groups-is_plain (n ∷ groups) s (&&_right _ _ h) in
    &&_both (hex_plain c (&&_left _ _ h)) f

pub expand-plain : (m b a s : Text) → is_plain s ≡ true → expand m b a s ≡ s
unfolding expand is_plain_unit
expand-plain m b a [] h = refl
expand-plain m b a (c ∷ []) h = refl
expand-plain m b a (c ∷ d ∷ s) h =
    let f : expand m b a (d ∷ s) ≡ d ∷ s = expand-plain m b a (d ∷ s) (ground arith) in ground arith

-- A parameter of the template begins with a colon.
not_here :
    (c : ℕ) (needle s : Text) → is_plain_unit c ≡ true → after_prefix (0x3a ∷ needle) (c ∷ s) ≡ none
unfolding after_prefix is_plain_unit
not_here c needle s h = ground arith

pub around-plain : (needle s : Text) → is_plain s ≡ true → around (0x3a ∷ needle) s ≡ none
unfolding around
around-plain needle [] h = refl
around-plain needle (c ∷ s) h =
    rw (not_here c needle s (ground arith), around-plain needle s (ground arith)) refl

pub around-skip :
    (needle s t : Text) {before after : Text}
    → is_plain s ≡ true
    → around (0x3a ∷ needle) t ≡ some (before, after)
    → around (0x3a ∷ needle) (s ++ t) ≡ some (s ++ before, after)
unfolding around
around-skip needle [] t h e = e
around-skip needle (c ∷ s) t h e =
    rw (not_here c needle (s ++ t) (ground arith), around-skip needle s t (ground arith) e) refl

pub is_uuid-is_plain : (s : Text) → is_uuid s ≡ true → is_plain s ≡ true
unfolding is_uuid
is_uuid-is_plain s h = hex_groups-is_plain (8 ∷ 4 ∷ 4 ∷ 4 ∷ 12 ∷ []) s h

pub is_sha256-is_plain : (s : Text) → is_sha256 s ≡ true → is_plain s ≡ true
unfolding is_sha256
is_sha256-is_plain s h = hex_groups-is_plain (64 ∷ []) s h

-- A path below "/v1/" of plain units, which a URL parser leaves as it is.
unfoldable pub is_path : Text → Bool
is_path s = is_some (after_prefix (lit "/v1/") s) && is_plain s

after_prefix_longer :
    (p s t : Text) → is_some (after_prefix p s) ≡ true → is_some (after_prefix p (s ++ t)) ≡ true
unfolding after_prefix
after_prefix_longer [] s t h = refl
after_prefix_longer (c ∷ p) [] t h = cc
after_prefix_longer (c ∷ p) (d ∷ s) t h =
    let e : (c == d) ≡ true = ground arith in
    let f : is_some (after_prefix p s) ≡ true = ground arith in
    let g = after_prefix_longer p s t f in ground arith

is_path-append : (s t : Text) → is_path s ≡ true → is_plain t ≡ true → is_path (s ++ t) ≡ true
unfolding is_path
is_path-append s t h k =
    &&_both (after_prefix_longer (lit "/v1/") s t (&&_left _ _ h))
      (is_plain-append s t (&&_right _ _ h) k)

-- A template without parameters.
pub path_alone :
    (template : Text)
    → is_path template ≡ true
    → render_path template none none none ≡ some template
unfolding render_path filled is_path ◌>>=◌ lit
path_alone template h =
    rw
      (
        around-plain (lit "id") template (ground arith),
        around-plain (lit "digest") template (ground arith),
        around-plain (lit "binding_id") template (ground arith),
      )
      refl

-- A template with an identifier only.
pub path_of_id :
    (template id : Text) {before after : Text}
    → around (lit ":id") template ≡ some (before, after)
    → is_path before ≡ true
    → is_plain after ≡ true
    → is_plain id ≡ true
    → (path : Text) × (render_path template (some id) none none ≡ some path) × (is_path path ≡ true)
unfolding render_path filled is_path ◌>>=◌ lit
path_of_id template id {before} {after} e b a i =
    let q : is_plain (before ++ (id ++ after)) ≡ true =
      is_plain-append before (id ++ after) (ground arith) (is_plain-append id after i a) in
    (
      before ++ (id ++ after),
      rw
          (
            e,
            expand-plain (lit ":id") before after id i,
            around-plain (lit "digest") (before ++ (id ++ after)) q,
            around-plain (lit "binding_id") (before ++ (id ++ after)) q,
          )
          refl,
      is_path-append before (id ++ after) b (is_plain-append id after i a),
    )

-- A template that ends with the identifier of a binding.
pub path_of_binding :
    (template id : Text) {before : Text}
    → around (lit ":id") template ≡ none
    → around (lit ":digest") template ≡ none
    → around (lit ":binding_id") template ≡ some (before, [])
    → is_path before ≡ true
    → is_plain id ≡ true
    → (path : Text) × (render_path template none none (some id) ≡ some path) × (is_path path ≡ true)
unfolding render_path filled ◌>>=◌ lit
path_of_binding template id {before} n d e b i = (
  before ++ (id ++ []),
  rw (n, d, e, expand-plain (lit ":binding_id") before [] id i) refl,
  is_path-append before (id ++ []) b (is_plain-append id [] i refl),
)

-- A template with an identifier, and with a digest at its end.
pub path_of_digest :
    (template id digest : Text) {before between_them : Text}
    → around (lit ":id") template ≡ some (before, between_them ++ lit ":digest")
    → around (lit ":digest") (between_them ++ lit ":digest") ≡ some (between_them, [])
    → is_path before ≡ true
    → is_plain between_them ≡ true
    → is_plain id ≡ true
    → is_sha256 digest ≡ true
    → (path : Text) × (render_path template (some id) (some digest) none ≡ some path)
      × (is_path path ≡ true)
unfolding render_path filled is_path ◌>>=◌ lit
path_of_digest template id digest {before} {between_them} e f b m i d =
    let p : is_plain digest ≡ true = is_sha256-is_plain digest d in
    let split =
      around-skip (lit "digest") before (id ++ (between_them ++ lit ":digest")) (ground arith)
        (around-skip (lit "digest") id (between_them ++ lit ":digest") i f) in
    let head : is_path (before ++ (id ++ between_them)) ≡ true =
      is_path-append before (id ++ between_them) b (is_plain-append id between_them i m) in
    let path : is_path ((before ++ (id ++ between_them)) ++ (digest ++ [])) ≡ true =
      is_path-append (before ++ (id ++ between_them)) (digest ++ []) head
        (is_plain-append digest [] p refl) in
    let q : is_plain ((before ++ (id ++ between_them)) ++ (digest ++ [])) ≡ true =
      &&_right _ _ path in
    (
      (before ++ (id ++ between_them)) ++ (digest ++ []),
      rw
          (
            e,
            expand-plain (lit ":id") before (between_them ++ lit ":digest") id i,
            split,
            d,
            expand-plain (lit ":digest") (before ++ (id ++ between_them)) [] digest p,
            around-plain (lit "binding_id") ((before ++ (id ++ between_them)) ++ (digest ++ [])) q,
          )
          refl,
      path,
    )
