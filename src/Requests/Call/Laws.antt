-- ===== src/Requests/Call/Laws.antt =====
-- How a call that comes to a value went.
use cuna_lib_ts.Base.{ℕ, ◌≡◌, Bool, true, false, Option, none, some, refl, sym, ap, ◌∙◌, arith}
use cuna_lib_ts.Errors.{Result, ok, thrown}
use cuna_lib_ts.Requests.Call.{Call, Port, perform, finish, settled_as, given, decoded_by}
use cuna_lib_ts.Json.{Json}

settled_as-ok :
    {P A : Type 0} (status : ℕ) (o : Option A) {a : A}
    → settled_as {P = P} status o ≡ ok a
    → o ≡ some a
settled_as-ok status none h = cc
settled_as-ok status (some b) h = ground arith

finish-ok :
    {P Answer A : Type 0} (c : Call Answer A) (r : Result P Answer) {a : A}
    → finish c r ≡ ok a
    → (answer : Answer) × (r ≡ ok answer) × (c.settle answer ≡ some a)
finish-ok c (thrown error) h = cc
finish-ok {P} c (ok answer) h = (answer, refl, settled_as-ok {P = P} c.status (c.settle answer) h)

-- A value comes of a call that was made and of an answer to it that was found fit.
pub perform-ok :
    {P Answer A : Type 0} (port : Port P Answer) (call : Option (Call Answer A)) {a : A}
    → perform port call ≡ ok a
    → (c : Call Answer A) × (answer : Answer) × (call ≡ some c)
      × (port c.key c.input ≡ ok answer)
      × (c.settle answer ≡ some a)
unfolding perform
perform-ok port none h = cc
perform-ok port (some c) h =
    let (answer, e, s) = finish-ok c (port c.key c.input) h in (c, answer, refl, e, s)

pub given-some : {A : Type 0} (b : Bool) (a : A) {r : A} → given b a ≡ some r → (b ≡ true) × (r ≡ a)
given-some true a h = (refl, cc)
given-some false a h = cc

-- The test of a call that returns its answer.
pub given-settled :
    {Answer A : Type 0} {c d : Call Answer A} {answer : Answer} {b : Bool} {a r : A}
    → c ≡ d
    → c.settle answer ≡ some r
    → d.settle answer ≡ given b a
    → (b ≡ true) × (r ≡ a)
given-settled {answer = answer} {b = b} {a = a} q s g =
    given-some b a (sym g ∙ (sym (ap (λ x. x.settle answer) q) ∙ s))

pub decoded_by-ok :
    {P Answer : Type 0} (decode : Json → Option Answer) (r : Result P Json) {a : Answer}
    → decoded_by decode r ≡ ok a
    → (value : Json) × (decode value ≡ some a)
decoded_by-ok decode (thrown error) h = cc
decoded_by-ok {P} decode (ok value) h = (value, settled_as-ok {P = P} 200 (decode value) h)
