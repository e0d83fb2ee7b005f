-- ===== src/Domain/Chains.antt =====
-- What a chain of decoders has gone through when it comes to a value.
use cuna_lib_ts.Base.{◌≡◌, some, none, refl, true, false, arith, Bool, Option, List, All, length}
use cuna_lib_ts.Json.{Json, Items, nil, cons}
use cuna_lib_ts.Domain.Read.{map_items, count_items, ◌>>=◌, ◌>>◌, check}

pub >>=-some :
    {A B : Type 0} {m : Option A} {k : A → Option B} {b : B}
    → (m >>= k) ≡ some b
    → (a : A) × (m ≡ some a) × (k a ≡ some b)
unfolding ◌>>=◌
>>=-some {m = none} h = absurd (ground arith)
>>=-some {m = some a} h = (a, refl, h)

pub >>-some :
    {B : Type 0} {c : Bool} {k : Option B} {b : B}
    → (check c >> k) ≡ some b
    → (c ≡ true) × (k ≡ some b)
unfolding ◌>>=◌ ◌>>◌ check
>>-some {c = true} h = (refl, h)
>>-some {c = false} h = absurd (ground arith)

pub some_injective : {A : Type 0} {a b : A} → some a ≡ some b → b ≡ a
some_injective h = cc

pub map_items-length :
    {A : Type 0} (f : Json → Option A) (items : Items) {as' : List A}
    → map_items f items ≡ some as'
    → length as' ≡ count_items items
unfolding map_items count_items
map_items-length f nil h = rw (some_injective h) refl
map_items-length f (cons value items) h =
    let (a, _, h1) = >>=-some h in
    let (rest, e, h2) = >>=-some h1 in
    let n = map_items-length f items e in rw (some_injective h2) (omega arith)

pub map_items-All :
    {A : Type 0} (P : A → Type 0) (f : Json → Option A)
    → ((value : Json) (a : A) → f value ≡ some a → P a)
    → (items : Items) {as' : List A} → map_items f items ≡ some as'
    → All P as'
unfolding map_items
map_items-All P f p nil h = rw (some_injective h) tt
map_items-All P f p (cons value items) h =
    let (a, e, h1) = >>=-some h in
    let (rest, g, h2) = >>=-some h1 in
    rw (some_injective h2) (p value a e, map_items-All P f p items g)
