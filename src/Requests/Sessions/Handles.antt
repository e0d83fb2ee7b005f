-- ===== src/Requests/Sessions/Handles.antt =====
-- What the operations of a handle do to it.
use cuna_lib_ts.Base.{List, [], ◌∷◌, ◌∙◌}
use cuna_lib_ts.Base.{refl}
use cuna_lib_ts.Errors.{Result, ok, thrown}
use cuna_lib_ts.Requests.Sessions.{replace, Handle, Replacement, replacement_key}
use cuna_lib_ts.Errors.{Result, ok, thrown}
use cuna_lib_ts.Base.{List, ◌≡◌, same→eq}
use cuna_lib_ts.Requests.Call.{Port, perform}
use cuna_lib_ts.Domain.Sessions.{SessionSnapshot}
use cuna_lib_ts.Contract.{OperationKey}
use cuna_lib_ts.Requests.Call.Laws.{perform-ok, given-settled}
use cuna_lib_ts.Domain.Chains.{>>-some, some_injective}

-- What `this` is after a method, and what the method comes to.
unfoldable pub after : {P : Type 0} → Handle → Result P Handle → Handle
after h (ok next) = next
after h (thrown error) = h

-- The handle after a sequence of methods, each with the port that it met.
unfoldable pub after_all :
    {P : Type 0} → Handle → List (Replacement × Port P SessionSnapshot) → Handle
unfolding after
after_all h [] = h
after_all h ((method, port) ∷ methods) =
    after_all (after h (perform port (replace (replacement_key method) h))) methods

after-id :
    {P : Type 0} (h : Handle) (r : Result P Handle)
    → ((next : Handle) → r ≡ ok next → next.snapshot.id ≡ h.snapshot.id)
    → (after h r).snapshot.id ≡ h.snapshot.id
unfolding after
after-id h (ok next) p = p next refl
after-id h (thrown error) p = refl

replace-id :
    {P : Type 0} (port : Port P SessionSnapshot) (key : OperationKey) (h : Handle) {next : Handle}
    → perform port (replace key h) ≡ ok next
    → next.snapshot.id ≡ h.snapshot.id
unfolding replace
replace-id port key h q =
    let (c, answer, made, _, settled) = perform-ok port _ q in
    let (_, e) = >>-some made in
    let (t, p) = given-settled (some_injective e) settled refl in rw p (same→eq _ _ t)

-- Whatever the service answers to any sequence of refreshes, starts, pauses, resumes and stops, a handle
-- stays the handle of its session.
pub after_all-id :
    {P : Type 0} (h : Handle) (methods : List (Replacement × Port P SessionSnapshot))
    → (after_all h methods).snapshot.id ≡ h.snapshot.id
unfolding after_all
after_all-id h [] = refl
after_all-id h ((method, port) ∷ methods) =
    let r = perform port (replace (replacement_key method) h) in
    after_all-id (after h r) methods
    ∙ after-id h r (λ next. replace-id port (replacement_key method) h)
