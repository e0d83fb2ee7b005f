-- ===== src/Transport/Execute/Report.antt =====
-- What an operation reports of its attempts, and where its results come from.
use cuna_lib_ts.Base.{
  ℕ, zero, suc, ◌+◌, ◌-◌, ◌<◌, ◌≡◌, refl, false, Option, none, some, List, [], ◌∷◌, ◌++◌, arith,
  min, Option-cases, ◌⊎◌, inl, inr, sym, ap, ◌↔◌, ◌∙◌,
}
use cuna_lib_ts.Contract.{OperationKey}
use cuna_lib_ts.Errors.{Result, ok, thrown, Thrown, abort_error, timeout_error}
use cuna_lib_ts.Transport.Deadline.{deadline_for, total_deadline_for, maximum_attempts}
use cuna_lib_ts.Transport.Disposition.{Decoders, Response, disposition}
use cuna_lib_ts.Transport.Observer.{
  operation_start, attempt_start, retry_scheduled, operation_end, end_of, End, success,
}
use cuna_lib_ts.Transport.Execute.{
  Round, Act, observed, armed, fetching, sleeping, done, round, Trace, loop, execute, error_in,
}
use cuna_lib_ts.Transport.Execute.Attempts.{delay_drawn, loop-cases, again-Repeats, close_all-some}

-- The acts of a loop whose next attempt has the given number: each attempt arms its timer, is announced
-- by its number and sends one request; between two attempts stand the announcement of the second and a
-- sleep for the announced delay.
pub data Numbered : ℕ → List Act → Type 0 where
  nothing : (n : ℕ) → Numbered n []
  last : (n time : ℕ) → Numbered n (armed time ∷ observed (attempt_start n) ∷ fetching ∷ [])
  cut_short :
      (n time delay : ℕ)
      → Numbered n (
          armed time
          ∷ observed (attempt_start n)
          ∷ fetching
          ∷ observed (retry_scheduled (n + 1) delay)
          ∷ sleeping delay
          ∷ [])
  more :
      (n time delay : ℕ) {acts : List Act}
      → Numbered (n + 1) acts
      → Numbered n (
          armed time
          ∷ observed (attempt_start n)
          ∷ fetching
          ∷ observed (retry_scheduled (n + 1) delay)
          ∷ sleeping delay
          ∷ acts)

failed-ne-ok : {P A : Type 0} (error : Thrown P) {a : A} → thrown error ≡ ok a → ⊥
failed-ne-ok error h = cc

-- What `end` makes of its arguments.
end-attempt :
    {P : Type 0} (attempt elapsed : ℕ) (e : Option (Thrown P))
    → (end_of attempt elapsed e).attempt ≡ attempt
unfolding end_of
end-attempt attempt elapsed e = ground arith

end-elapsed :
    {P : Type 0} (attempt elapsed : ℕ) (e : Option (Thrown P))
    → (end_of attempt elapsed e).elapsed_ms ≡ elapsed
unfolding end_of
end-elapsed attempt elapsed e = ground arith

end-success :
    {P : Type 0} (attempt elapsed : ℕ) (e : Option (Thrown P))
    → ((end_of attempt elapsed e).outcome ≡ success) ↔ (e ≡ none)
unfolding end_of
end-success attempt elapsed e = ground arith

module _ {P A : Type 0} (d : Decoders P A) (key : OperationKey) (timeout_secs : Option ℕ)
    (started : ℕ) where
  round_shape :
      (attempt : ℕ) (r : Round) {acts : List Act} {result : Result P A}
      → round d key timeout_secs started attempt r ≡ some (acts, done result)
      → let sending : List Act =
          armed (
            min
              (deadline_for key timeout_secs)
              (total_deadline_for key timeout_secs - (r.now - started)))
          ∷ observed (attempt_start attempt)
          ∷ fetching
          ∷ [] in
        (acts ≡ [])
        ⊎ ((acts ≡ sending)
            ⊎ (acts
                ≡ armed (
                    min
                      (deadline_for key timeout_secs)
                      (total_deadline_for key timeout_secs - (r.now - started)))
                  ∷ observed (attempt_start attempt)
                  ∷ fetching
                  ∷ observed (retry_scheduled (attempt + 1) (delay_drawn attempt r))
                  ∷ sleeping (delay_drawn attempt r)
                  ∷ []))
  unfolding round delay_drawn
  round_shape attempt r h = ground arith

  round-Numbered :
      (attempt : ℕ) (r : Round) {acts : List Act} {result : Result P A}
      → round d key timeout_secs started attempt r ≡ some (acts, done result)
      → Numbered attempt acts
  round-Numbered attempt r h = elim (round_shape attempt r h) [
    | inl e ↦ rw e (nothing attempt)
    | inr (inl e) ↦ rw e (last attempt _)
    | inr (inr e) ↦ rw e (cut_short attempt _ (delay_drawn attempt r))
  ]

  -- A success of a round is what its response was decoded to.
  round-ok :
      (attempt : ℕ) (r : Round) {acts : List Act} {a : A}
      → round d key timeout_secs started attempt r ≡ some (acts, done (ok a))
      → (response : Response) × (r.fetched ≡ some response)
        × (disposition d key response ≡ ok a)
        × (r.aborted_after_fetch ≡ false)
        × (r.aborted_after_read ≡ false)
  unfolding round
  round-ok attempt r h = elim (Option-cases r.fetched) [
    | inl e ↦ absurd (ground arith)
    | inr (response, e) ↦ (response, e, ground arith, ground arith, ground arith)
  ]

  loop-Numbered :
      (world : ℕ → Round) (left attempt : ℕ) (t : Trace P A)
      → loop d key timeout_secs started world left attempt ≡ some t
      → Numbered (attempt + 1) t.acts
  unfolding loop
  loop-Numbered world zero attempt t h =
      let e : t ≡ record { acts = []; attempt = attempt; result = thrown timeout_error } = cc in
      rw e (nothing (attempt + 1))
  loop-Numbered world (suc left) attempt t h =
      elim (loop-cases d key timeout_secs started world left attempt t h) [
        | inl e ↦ rw e (nothing (attempt + 1))
        | inr (inl s) ↦ round-Numbered (attempt + 1) (world attempt) s.last
        | inr (inr g) ↦
            let r =
              again-Repeats d key timeout_secs started (attempt + 1) (world attempt) g.before in
            rw (g.joined, r.shown)
              (more (attempt + 1) _ r.delay (loop-Numbered world left (attempt + 1) g.rest g.after))
      ]

  -- A result that some round's response was decoded to, with the caller still waiting for it.
  pub record Served (world : ℕ → Round) (limit : ℕ) (t : Trace P A) (a : A) : Type 0 where
    pub index : ℕ
    pub response : Response
    pub in_bounds : index < limit
    pub counted : t.attempt ≡ index + 1
    pub answered : (world index).fetched ≡ some response
    pub decoded : disposition d key response ≡ ok a
    pub waiting : (world index).aborted_after_fetch ≡ false
    pub kept : (world index).aborted_after_read ≡ false

  loop-ok :
      (world : ℕ → Round) (left attempt : ℕ) (t : Trace P A) {a : A}
      → loop d key timeout_secs started world left attempt ≡ some t
      → t.result ≡ ok a
      → Served world (attempt + left) t a
  unfolding loop
  loop-ok world zero attempt t h e =
      let f : record { acts = []; attempt = attempt; result = thrown timeout_error } ≡ t = cc in
      absurd (failed-ne-ok timeout_error (ap (λ (u : Trace P A). u.result) f ∙ e))
  loop-ok world (suc left) attempt t {a} h e =
      elim (loop-cases d key timeout_secs started world left attempt t h) [
        | inl f ↦ absurd (failed-ne-ok (abort_error) (sym (ap (λ (u : Trace P A). u.result) f) ∙ e))
        | inr (inl s) ↦
            let (response, f, g, x, y) = round-ok (attempt + 1) (world attempt) (rw e at s.last) in
            record {
              index = attempt;
              response = response;
              in_bounds = omega arith;
              counted = s.counted;
              answered = f;
              decoded = g;
              waiting = x;
              kept = y;
            }
        | inr (inr g) ↦
            let same : g.rest.result ≡ t.result = sym (ap (λ (u : Trace P A). u.result) g.joined) in
            let served = loop-ok world left (attempt + 1) g.rest {a = a} g.after (same ∙ e) in
            record {
              index = served.index;
              response = served.response;
              in_bounds = omega (arith, served.in_bounds);
              counted = ap (λ (u : Trace P A). u.attempt) g.joined ∙ served.counted;
              answered = served.answered;
              decoded = served.decoded;
              waiting = served.waiting;
              kept = served.kept;
            }
      ]

-- The acts of an operation are its start, the numbered attempts from the first on, and its end; the end
-- carries the last value of the attempt counter and the time that has passed, and is a success exactly
-- if the operation has a value.
pub execute-reports :
    {P A : Type 0} (d : Decoders P A) (key : OperationKey) (timeout_secs : Option ℕ)
    (made started ended : ℕ) (world : ℕ → Round) {t : Trace P A}
    → execute d key timeout_secs none made started ended world ≡ some t
    → (acts : List Act) × (end : End) × (t.acts
        ≡ observed operation_start ∷ (acts ++ observed (operation_end end) ∷ []))
      × Numbered 1 acts
      × (end.attempt ≡ t.attempt)
      × (end.elapsed_ms ≡ ended - made)
      × ((end.outcome ≡ success) ↔ (error_in t.result ≡ none))
unfolding execute
execute-reports d key timeout_secs made started ended world {t} h =
    let (u, e, f) = close_all-some (ended - made) _ h in
    rw f (
      u.acts,
      end_of u.attempt (ended - made) (error_in u.result),
      refl,
      loop-Numbered d key timeout_secs started world (maximum_attempts key) 0 u e,
      end-attempt u.attempt (ended - made) (error_in u.result),
      end-elapsed u.attempt (ended - made) (error_in u.result),
      end-success u.attempt (ended - made) (error_in u.result),
    )

-- A value that an operation returns is what the transport made of the response of its last attempt,
-- which is one of those that the operation has, and the caller had not given up by then.
pub execute-ok :
    {P A : Type 0} (d : Decoders P A) (key : OperationKey) (timeout_secs : Option ℕ)
    (made started ended : ℕ) (world : ℕ → Round) {t : Trace P A} {a : A}
    → execute d key timeout_secs none made started ended world ≡ some t
    → t.result ≡ ok a
    → Served d key timeout_secs started world (maximum_attempts key) t a
unfolding execute
execute-ok {P} {A} d key timeout_secs made started ended world {t} {a} h e =
    let (u, g, f) = close_all-some (ended - made) _ h in
    let same : u.result ≡ t.result = sym (ap (λ (v : Trace P A). v.result) f) in
    let served =
      loop-ok d key timeout_secs started world (maximum_attempts key) 0 u {a = a} g (same ∙ e) in
    rw f (record {
      index = served.index;
      response = served.response;
      in_bounds = omega (arith, served.in_bounds);
      counted = served.counted;
      answered = served.answered;
      decoded = served.decoded;
      waiting = served.waiting;
      kept = served.kept;
    })
